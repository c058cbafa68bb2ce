-- ===== src/Sqlitex/Exec/Loops.antt =====
-- The loops that bind arguments keep what the parameters have.
use Prim.Native.String.{String}
use text.Mathlib.Text.{◌==◌ as str_eq}
use go_sqlite.Base.{
  ◌≡◌, refl, ap, ◌∙◌, inl, inr, ℕ, zero, suc, ◌+◌, ◌<◌, ◌≤◌, true, false, ◌||◌, Option, none, some,
  List, [], ◌∷◌, length, ◌==◌, ==_iff, Bool-cases, arith, subst,
}
use go_sqlite.Sqlitex.Attempt.{Attempt, pure, Ends, returns, fails, Ends-bind}
use go_sqlite.Sqlitex.Bitset.{Bitset, set_bit}
use go_sqlite.Sqlitex.Bitset.Members.{has, IsBitset, set_bit-adds, length-set_bit}
use go_sqlite.Sqlitex.Statements.{Statements, StatementLaws}
use go_sqlite.Sqlitex.Exec.{
  Arg, binding_of, Flags, lookup, delete, provide, set_args, Named, set_found, set_param,
  set_params,
}
use go_sqlite.Sqlitex.Exec.Unused.{
  AllOf, map-AllOf, delete-AllOf, IsKey, NotBelow, NotBelow-suc, lookup-none,
}
use go_sqlite.Sqlitex.Exec.Given.{
  is_some, Given, update, named_at, Inv, positional, overlay, by_name,
}

-- With what an error shows.
module _ (T : Statements) (laws : StatementLaws T) (Reason : Type 0) where
  open T use {Float, Stmt, World, bind_param_count, bind_param_name, bind, binds_went, bound}

  -- Where an act succeeds, the parameters have the arguments; it does not panic.
  unfoldable pub Leaves : Stmt → Given T → Attempt Bitset × World → Type 0
  Leaves stmt g = Ends (λ p w. Inv T stmt g p w) (λ _ _. Reason)

  provided-Inv :
      (stmt : Stmt) (g : Given T) (p p' : Bitset) (w : World) (n : ℕ) (a : Arg Float)
      → Inv T stmt g p w
      → set_bit p n ≡ some p'
      → IsBitset p'
      → ((m : ℕ) → has p' m ≡ (m == n || has p m))
      → Inv T stmt (update T g n a) p' (bind stmt (suc n) (binding_of a) w)
  provided-Inv stmt g p p' w n a v e wf mem = record {
    wf = wf;
    size = length-set_bit p p' n e ∙ v.size;
    members = members;
    bindings = bindings;
  }
    where
      members : (j : ℕ) → has p' j ≡ is_some (update T g n a j)
      members j = elim (Bool-cases (j == n)) [
        | inl same ↦ rw same (mem j ∙ rw same)
        | inr other ↦ rw other (mem j ∙ rw other (v.members j))
      ]

      bindings :
          binds_went stmt (bind stmt (suc n) (binding_of a) w) ≡ true
          → (j : ℕ) (b : Arg Float) → update T g n a j ≡ some b
          → bound stmt (suc j) (bind stmt (suc n) (binding_of a) w) ≡ some (binding_of b)
      bindings went j b h = elim (Bool-cases (j == n)) [
        | inl same ↦
            let q : j ≡ n = (==_iff j n).0 same in
            let r : a ≡ b = cc (rw same at h) in
            rw q
              (laws.bound_self stmt (suc n) (binding_of a) w went ∙ ap (λ x. some (binding_of x)) r)
        | inr other ↦
            laws.bound_other stmt (suc n) (suc j) (binding_of a) w
              (λ q. cc (other, (==_iff j n).1 (omega (arith, q))))
            ∙ v.bindings (laws.went_before stmt (suc n) (binding_of a) w went) j b (rw other at h)
      ]

  provide-Leaves :
      (stmt : Stmt) (g : Given T) (p : Bitset) (w : World) (n : ℕ) (a : Arg Float)
      → n < bind_param_count stmt
      → Inv T stmt g p w
      → Leaves stmt (update T g n a) (provide T stmt p n a w)
  unfolding Leaves provide
  provide-Leaves stmt g p w n a lt v =
      let (p', e, wf, mem) = set_bit-adds p n v.wf (omega (arith, v.size, lt)) in
      rw (e, provide) (returns (provided-Inv stmt g p p' w n a v e wf mem))

  pub set_args-Leaves :
      (stmt : Stmt) (i : ℕ) (as' : List (Arg Float)) (g : Given T) (p : Bitset) (w : World)
      → i + length as' ≤ bind_param_count stmt
      → Inv T stmt g p w
      → Leaves stmt (positional T i as' g) (set_args T stmt i as' p w)
  unfolding Leaves set_args
  set_args-Leaves stmt i [] g p w le v = returns v
  set_args-Leaves stmt i (a ∷ as') g p w le v =
      Ends-bind (provide T stmt p i a) (λ q. set_args T stmt (suc i) as' q) w
        (provide-Leaves stmt g p w i a (omega (arith, le)) v)
        (λ q t u. set_args-Leaves stmt (suc i) as' (update T g i a) q t (omega (arith, le)) u)

  module _ (stmt : Stmt) (flags : Flags) (m : List (String × Arg Float)) where
    -- Where extra arguments are not forbidden, none is kept; one that is kept has a name of the map, which no
    -- parameter before has.
    unfoldable pub IsNamed : ℕ → Given T → Named T → World → Type 0
    IsNamed i g n w =
        Inv T stmt g n.1 w
        × (flags.forbid_extra ≡ false → n.0 ≡ [])
        × AllOf (λ u. IsKey T u m × NotBelow T stmt i u) n.0

    unfoldable pub LeavesNamed : ℕ → Given T → Attempt (Named T) × World → Type 0
    LeavesNamed i g = Ends (λ n w. IsNamed i g n w) (λ _ _. Reason)

  module _ (stmt : Stmt) (flags : Flags) (m : List (String × Arg Float))
      (missing : flags.forbid_missing ≡ true
        → (i : ℕ) → i < bind_param_count stmt
        → str_eq (bind_param_name stmt (suc i)) "" ≡ false
        → lookup (bind_param_name stmt (suc i)) m ≡ none
        → Reason) where
    set_found-LeavesNamed :
        (i : ℕ) (name : String) (g : Given T) (us : List String) (p : Bitset) (w : World)
        (x : Option (Arg Float))
        → i < bind_param_count stmt
        → name ≡ bind_param_name stmt (suc i)
        → str_eq name "" ≡ false
        → lookup name m ≡ x
        → IsNamed stmt flags m i g (us, p) w
        → LeavesNamed stmt flags m
            (suc i)
            (overlay T g i x)
            (set_found T stmt flags i name (us, p) x w)
    unfolding LeavesNamed IsNamed Leaves
    set_found-LeavesNamed i name g us p w none lt is_name named absent v =
        elim (Bool-cases flags.forbid_missing) [
          | inl strict ↦ rw strict (
              fails (
                missing strict i lt (subst (λ k. str_eq k "" ≡ false) is_name named)
                  (subst (λ k. lookup k m ≡ none) is_name absent)))
          | inr lax ↦ rw lax (
              returns (
                v.0,
                v.1,
                map-AllOf
                    (λ u (key, before). (
                      key,
                      NotBelow-suc T stmt i u before (λ _.
                          subst (λ k. str_eq u k ≡ false) is_name
                            (lookup-none T name u m absent key)),
                    ))
                    us v.2,
              ))
        ]
    set_found-LeavesNamed i name g us p w (some a) lt is_name named found v =
        Ends-bind (provide T stmt p i a) (λ q. pure (delete name us, q)) w
          (provide-Leaves stmt g p w i a lt v.0)
          (λ q t u. returns (
            u,
            λ lax. ap (delete name) (v.1 lax),
            map-AllOf
                (λ u ((key, before), other). (
                  key,
                  NotBelow-suc T stmt i u before
                      (λ _. subst (λ k. str_eq u k ≡ false) is_name other),
                ))
                (delete name us) (delete-AllOf _ name us v.2),
          ))

    set_param-LeavesNamed :
        (i : ℕ) (g : Given T) (n : Named T) (w : World)
        → i < bind_param_count stmt
        → IsNamed stmt flags m i g n w
        → LeavesNamed stmt flags m
            (suc i)
            (overlay T g i (named_at T stmt m i))
            (set_param T stmt flags m i n w)
    unfolding set_param LeavesNamed IsNamed
    set_param-LeavesNamed i g (us, p) w lt v =
        elim (Bool-cases (str_eq (bind_param_name stmt (suc i)) "")) [
          | inl blank ↦ rw blank (
              returns (
                v.0,
                v.1,
                map-AllOf
                    (λ u (key, before).
                      (key, NotBelow-suc T stmt i u before (λ named. cc (named, blank))))
                    us v.2,
              ))
          | inr name ↦ rw name (
              set_found-LeavesNamed i (bind_param_name stmt (suc i)) g us p w _ lt refl name refl v)
        ]

    pub set_params-LeavesNamed :
        (k i : ℕ) (g : Given T) (n : Named T) (w : World)
        → i + k ≡ bind_param_count stmt
        → IsNamed stmt flags m i g n w
        → LeavesNamed stmt flags m
            (bind_param_count stmt)
            (by_name T stmt m k i g)
            (set_params T stmt flags m k i n w)
    unfolding set_params LeavesNamed IsNamed
    set_params-LeavesNamed zero i g n w le v =
        let e : i ≡ bind_param_count stmt = omega (arith, le) in
        returns (subst (λ k. IsNamed stmt flags m k g n w) e v)
    set_params-LeavesNamed (suc k) i g n w le v =
        Ends-bind (set_param T stmt flags m i n) (λ n'. set_params T stmt flags m k (suc i) n') w
          (set_param-LeavesNamed i g n w (omega (arith, le)) v)
          (λ n' t u. set_params-LeavesNamed k (suc i) _ n' t (omega (arith, le)) u)
