-- ===== src/Sqlitex/Exec/Arguments.antt =====
-- What the parameters of a statement are bound to before it is stepped.
use Prim.Native.String.{String}
use text.Mathlib.Text.{◌==◌ as str_eq}
use go_sqlite.Base.{
  tests, ◌≡◌, ◌≢◌, refl, sym, ap, ◌∙◌, inl, inr, ℕ, suc, ◌+◌, ◌<◌, ◌≤◌, Bool, true, false, ◌&&◌,
  not, Option, none, some, List, [], ◌∷◌, length, get_elem?, ltb, Bool-cases, arith, if◌then◌else◌,
  is_empty,
}
use go_sqlite.Sqlitex.Attempt.{Attempt, Ends, returns, fails, Ends-bind, Ends-weaken}
use go_sqlite.Sqlitex.Bitset.{Bitset, new_bitset, has_all}
use go_sqlite.Sqlitex.Bitset.Members.{length-new_bitset, new_bitset-IsBitset, has-new_bitset}
use go_sqlite.Sqlitex.Bitset.HasAll.{has_all-has}
use go_sqlite.Sqlitex.Bitset.Lacking.{has_all-lacks}
use go_sqlite.Sqlitex.Statements.{Statements, StatementLaws}
use go_sqlite.Sqlitex.Exec.{
  Arg, binding_of, Flags, ExecOptions, lookup, keys, set_args, Named, set_params, none_unused,
  set_named, set_options, checked_against, bind_all,
}
use go_sqlite.Sqlitex.Exec.Loops.{
  Leaves, IsNamed, LeavesNamed, set_args-Leaves, set_params-LeavesNamed,
}
use go_sqlite.Sqlitex.Exec.Unused.{AllOf, map-AllOf, keys-AllOf, IsKey, NotBelow}
use go_sqlite.Sqlitex.Exec.Given.{
  is_some, or_else, Given, named_at, argument, Inv, positional, by_name, positional_at, by_name_at,
}

forbidden_of : (a b : Bool) → (a && not b) ≡ true → a ≡ true
forbidden_of true b p = refl
forbidden_of false b p = cc

not_there_of : (a b : Bool) → (a && not b) ≡ true → b ≡ false
not_there_of true false p = refl
not_there_of true true p = cc
not_there_of false b p = cc

is_some-none {ℓ} : {A : Type ℓ} (x : Option A) → is_some x ≡ false → x ≡ none
is_some-none none e = refl
is_some-none (some a) e = cc (e)

all_there_of : (a b : Bool) → a ≡ true → (a && not b) ≡ false → b ≡ true
all_there_of true true p q = refl
all_there_of true false p q = cc
all_there_of false b p q = cc

module _ (T : Statements) (laws : StatementLaws T) where
  open T use {Float, Stmt, World, bind_param_count, bind_param_name, binds_went, bound}

  -- The parameters have their arguments, unless a call of Bind has failed; and where a missing one is forbidden,
  -- each parameter has one.
  pub record Supplied (stmt : Stmt) (flags : Flags) (g : Given T) (w : World) : Type 0 where
    pub supplied :
        binds_went stmt w ≡ true
        → (i : ℕ) (a : Arg Float) → i < bind_param_count stmt
        → g i ≡ some a
        → bound stmt (suc i) w ≡ some (binding_of a)
    pub complete : flags.forbid_missing ≡ true → (i : ℕ) → i < bind_param_count stmt → g i ≢ none

  -- Why binding the arguments may fail.
  pub data Refused (stmt : Stmt) (flags : Flags) (o : ExecOptions T) : Type 0 where
    too_many : bind_param_count stmt < length o.args → Refused stmt flags o
    -- There is a map, and a parameter with a name that the map lacks.
    not_named :
        flags.forbid_missing ≡ true
        → is_empty o.named ≡ false
        → (i : ℕ) → i < bind_param_count stmt
        → str_eq (bind_param_name stmt (suc i)) "" ≡ false
        → lookup (bind_param_name stmt (suc i)) o.named ≡ none
        → Refused stmt flags o
    no_argument :
        flags.forbid_missing ≡ true
        → (i : ℕ) → i < bind_param_count stmt
        → argument T stmt o i ≡ none
        → Refused stmt flags o
    -- No parameter has a name of the map.
    no_parameter :
        flags.forbid_extra ≡ true
        → (u : String) → IsKey T u o.named
        → NotBelow T stmt (bind_param_count stmt) u
        → Refused stmt flags o

-- With what an error shows.
module _ (T : Statements) (laws : StatementLaws T) (Reason : Type 0) where
  open T use {Float, Stmt, World, bind_param_count, bind_param_name, bind, binds_went, bound}

  start-Inv :
      (stmt : Stmt) (w : World) → Inv T stmt (λ _. none) (new_bitset (bind_param_count stmt)) w
  start-Inv stmt w = record {
    wf = new_bitset-IsBitset (bind_param_count stmt);
    size = length-new_bitset (bind_param_count stmt);
    members = has-new_bitset (bind_param_count stmt);
    bindings = λ j a h. cc;
  }

  -- The same arguments, for the parameters that there are.
  LeavesBelow : Stmt → Given T → Attempt Bitset × World → Type 0
  LeavesBelow stmt g =
      Ends
        (λ p w.
          (h : Given T) × Inv T stmt h p w × ((i : ℕ) → i < bind_param_count stmt → h i ≡ g i))
        (λ _ _. Reason)

  set_named-Leaves :
      (stmt : Stmt) (flags : Flags) (m : List (String × Arg Float)) (g : Given T) (p : Bitset)
      (w : World)
      → (flags.forbid_missing ≡ true
          → is_empty m ≡ false
          → (i : ℕ) → i < bind_param_count stmt
          → str_eq (bind_param_name stmt (suc i)) "" ≡ false
          → lookup (bind_param_name stmt (suc i)) m ≡ none
          → Reason)
      → (flags.forbid_extra ≡ true
          → (u : String) → IsKey T u m
          → NotBelow T stmt (bind_param_count stmt) u
          → Reason)
      → Inv T stmt g p w
      → LeavesBelow stmt (λ i. or_else (named_at T stmt m i) (g i)) (set_named T stmt flags m p w)
  unfolding set_named LeavesBelow LeavesNamed IsNamed
  set_named-Leaves stmt flags [] g p w missing extra v = returns (g, v, λ i lt. ground arith)
  set_named-Leaves stmt flags (x ∷ m) g p w missing extra v =
      Ends-bind
        (set_params T stmt flags (x ∷ m) (bind_param_count stmt) 0
          (if flags.forbid_extra then keys (x ∷ m) else [], p))
        (λ n. none_unused T n) w
        (set_params-LeavesNamed T laws Reason stmt flags (x ∷ m) (λ strict. missing strict refl)
          (bind_param_count stmt) 0 g _ w (omega arith)
          (v, λ lax. rw lax refl, all_keys flags.forbid_extra))
        last
    where
      all_keys :
          (b : Bool)
          → AllOf (λ u. IsKey T u (x ∷ m) × NotBelow T stmt 0 u) (if b then keys (x ∷ m) else [])
      all_keys false = tt
      all_keys true =
          map-AllOf (λ u key. (key, λ j lt named. absurd (omega (arith, lt)))) (keys (x ∷ m))
            (keys-AllOf T (x ∷ m))

      last :
          (n : Named T) (t : World)
          → IsNamed T laws Reason stmt flags
              (x ∷ m)
              (bind_param_count stmt)
              (by_name T stmt (x ∷ m) (bind_param_count stmt) 0 g)
              n
              t
          → Ends
              (λ p w.
                (h : Given T) × Inv T stmt h p w
                × ((i : ℕ)
                    → i < bind_param_count stmt
                    → h i ≡ or_else (named_at T stmt (x ∷ m) i) (g i)))
              (λ _ _. Reason)
              (none_unused T n t)
      last ([], p') t u = returns (
        by_name T stmt (x ∷ m) (bind_param_count stmt) 0 g,
        u.0,
        λ i lt.
            by_name_at T stmt (x ∷ m) (bind_param_count stmt) 0 i g (omega arith)
              (omega (arith, lt)),
      )
      last (u ∷ us, p') t v = elim (Bool-cases flags.forbid_extra) [
        | inl strict ↦ fails (extra strict u v.2.0.0 v.2.0.1)
        | inr lax ↦ cc (v.1 lax)
      ]

  positional_all :
      (as' : List (Arg Float)) (i : ℕ) → positional T 0 as' (λ _. none) i ≡ get_elem? as' i
  positional_all as' i =
      ap (positional T 0 as' (λ _. none)) (sym zero)
      ∙ positional_at T 0 i as' (λ _. none)
      ∙ drop_none (get_elem? as' i)
    where
      zero : 0 + i ≡ i
      zero = omega arith

      drop_none : (x : Option (Arg Float)) → or_else x none ≡ x
      drop_none none = refl
      drop_none (some a) = refl

  set_options-Leaves :
      (stmt : Stmt) (flags : Flags) (o : ExecOptions T) (w : World)
      → (Refused T laws stmt flags o → Reason)
      → LeavesBelow stmt (argument T stmt o) (set_options T stmt flags (some o) w)
  unfolding set_options LeavesBelow Leaves
  set_options-Leaves stmt flags o w refused =
      elim (Bool-cases (ltb (bind_param_count stmt) (length o.args))) [
        | inl many ↦ rw many (fails (refused (too_many (omega (tests, many)))))
        | inr fit ↦ rw fit (
            Ends-bind (set_args T stmt 0 o.args (new_bitset (bind_param_count stmt)))
              (λ p. set_named T stmt flags o.named p) w
              (set_args-Leaves T laws Reason stmt 0 o.args (λ _. none) _ w
                (fits (length o.args) (bind_param_count stmt) fit) (start-Inv stmt w))
              (λ p t v. same p t (
                set_named-Leaves stmt flags o.named (positional T 0 o.args (λ _. none)) p t
                  (λ e full i lt named absent. refused (not_named e full i lt named absent))
                  (λ e u key before. refused (no_parameter e u key before)) v)))
      ]
    where
      fits : (n k : ℕ) → ltb k n ≡ false → 0 + n ≤ k
      fits n k h = ground arith

      same :
          (p : Bitset) (t : World)
          → LeavesBelow stmt
              (λ i. or_else (named_at T stmt o.named i) (positional T 0 o.args (λ _. none) i))
              (set_named T stmt flags o.named p t)
          → LeavesBelow stmt (argument T stmt o) (set_named T stmt flags o.named p t)
      same p t e =
          Ends-weaken
            (λ q u (h, v, k). (
              h,
              v,
              λ i lt. k i lt ∙ ap (or_else (named_at T stmt o.named i)) (positional_all o.args i),
            ))
            (λ _ _ x. x) e

module _ (T : Statements) (laws : StatementLaws T) where
  open T use {Stmt, World, bind_param_count}

  -- Where the arguments are bound with no error, each parameter is bound to the argument of its name
  -- or, if there is none, to the positional one; where missing arguments are forbidden, there is one
  -- for each parameter. An error has a reason, and no index is out of range.
  pub bind_all-Supplied :
      (stmt : Stmt) (flags : Flags) (o : ExecOptions T) (w : World)
      → Ends
          (λ _ w'. Supplied T laws stmt flags (argument T stmt o) w')
          (λ _ _. Refused T laws stmt flags o)
          (bind_all T stmt flags (some o) w)
  unfolding bind_all LeavesBelow checked_against
  bind_all-Supplied stmt flags o w =
      Ends-bind (set_options T stmt flags (some o)) (checked_against T stmt flags) w
        (set_options-Leaves T laws (Refused T laws stmt flags o) stmt flags o w (λ x. x)) last
    where
      last :
          (p : Bitset) (t : World)
          → ((h : Given T) × Inv T stmt h p t
              × ((i : ℕ) → i < bind_param_count stmt → h i ≡ argument T stmt o i))
          → Ends
              (λ _ w'. Supplied T laws stmt flags (argument T stmt o) w')
              (λ _ _. Refused T laws stmt flags o)
              (checked_against T stmt flags p t)
      last p t (h, v, k) =
          elim (Bool-cases (flags.forbid_missing && not (has_all p (bind_param_count stmt)))) [
            | inl missing ↦
                let (j, lt, lacks) =
                  has_all-lacks p (bind_param_count stmt) v.wf v.size (not_there_of _ _ missing) in
                let nothing : argument T stmt o j ≡ none =
                  is_some-none (argument T stmt o j)
                    (ap is_some (sym (k j lt)) ∙ sym (v.members j) ∙ lacks) in
                rw (missing, checked_against)
                  (fails (no_argument (forbidden_of _ _ missing) j lt nothing))
            | inr all_there ↦
                rw (all_there, checked_against)
                  (returns (record {
                    supplied = λ went i a lt e. v.bindings went i a (k i lt ∙ e);
                    complete = λ strict i lt e.
                        let there =
                          has_all-has p (bind_param_count stmt) i
                            (all_there_of _ _ strict all_there) lt in
                        cc (there, v.members i, k i lt, e);
                  }))
          ]
