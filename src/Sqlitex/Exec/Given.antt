-- ===== src/Sqlitex/Exec/Given.antt =====
-- The argument of each parameter, by its name or its place, and the invariant of the loops that bind
-- arguments.
use Prim.Native.String.{String}
use text.Mathlib.Text.{◌==◌ as str_eq}
use go_sqlite.Base.{
  ◌≡◌, ◌≢◌, refl, ap, ◌∙◌, inl, inr, ℕ, zero, suc, ◌+◌, ◌/◌, ◌<◌, ◌≤◌, Bool, true, false, Option,
  none, some, List, [], ◌∷◌, length, get_elem?, ◌==◌, ==_iff, ==_refl, Bool-cases, arith,
  if◌then◌else◌,
}
use go_sqlite.Sqlitex.Bitset.{Bitset}
use go_sqlite.Sqlitex.Bitset.Members.{has, IsBitset}
use go_sqlite.Sqlitex.Statements.{Statements}
use go_sqlite.Sqlitex.Exec.{Arg, binding_of, ExecOptions, lookup}

abbrev pub is_some {ℓ} : {A : Type ℓ} → Option A → Bool
is_some none = false
is_some (some a) = true

abbrev pub or_else {ℓ} : {A : Type ℓ} → Option A → Option A → Option A
or_else none y = y
or_else (some a) y = some a

module _ (T : Statements) where
  open T use {Float, Stmt, World, bind_param_count, bind_param_name, binds_went, bound}

  -- The argument of each parameter, which are counted from 0 here.
  abbrev pub Given : Type 0
  Given = ℕ → Option (Arg Float)

  abbrev pub update : Given → ℕ → Arg Float → Given
  update g n a j = if j == n then some a else g j

  -- args[name] for the name of a parameter that has one
  abbrev pub named_at : Stmt → List (String × Arg Float) → Given
  named_at stmt m i =
      if str_eq (bind_param_name stmt (suc i)) ""
      then none
      else lookup (bind_param_name stmt (suc i)) m

  -- A parameter has the argument of its name, or else the positional one.
  abbrev pub argument : Stmt → ExecOptions T → Given
  argument stmt o i = or_else (named_at stmt o.named i) (get_elem? o.args i)

  pub record Inv (stmt : Stmt) (g : Given) (p : Bitset) (w : World) : Type 0 where
    pub wf : IsBitset p
    pub size : length p ≡ (bind_param_count stmt + 63) / 64
    pub members : (j : ℕ) → has p j ≡ is_some (g j)
    pub bindings :
        binds_went stmt w ≡ true
        → (j : ℕ) (a : Arg Float) → g j ≡ some a
        → bound stmt (suc j) w ≡ some (binding_of a)

  abbrev pub positional : ℕ → List (Arg Float) → Given → Given
  positional i [] g = g
  positional i (a ∷ as') g = positional (suc i) as' (update g i a)

  abbrev pub overlay : Given → ℕ → Option (Arg Float) → Given
  overlay g i none = g
  overlay g i (some a) = update g i a

  abbrev pub by_name : Stmt → List (String × Arg Float) → ℕ → ℕ → Given → Given
  by_name stmt m zero i g = g
  by_name stmt m (suc k) i g = by_name stmt m k (suc i) (overlay g i (named_at stmt m i))

  update_self : (g : Given) (n : ℕ) (a : Arg Float) → update g n a n ≡ some a
  update_self g n a = rw (==_refl n)

  update_other : (g : Given) (n j : ℕ) (a : Arg Float) → j ≢ n → update g n a j ≡ g j
  update_other g n j a ne = elim (Bool-cases (j == n)) [
    | inl same ↦ absurd (ne ((==_iff j n).0 same))
    | inr other ↦ rw other
  ]

  positional_before :
      (i : ℕ) (as' : List (Arg Float)) (g : Given) (j : ℕ) → j < i → positional i as' g j ≡ g j
  positional_before i [] g j lt = refl
  positional_before i (a ∷ as') g j lt =
      positional_before (suc i) as' (update g i a) j (omega arith)
      ∙ update_other g i j a (λ e. omega (arith, e, lt))

  pub positional_at :
      (i k : ℕ) (as' : List (Arg Float)) (g : Given)
      → positional i as' g (i + k) ≡ or_else (get_elem? as' k) (g (i + k))
  positional_at i k [] g = refl
  positional_at i zero (a ∷ as') g =
      let here : i + 0 ≡ i = omega arith in
      rw here (positional_before (suc i) as' (update g i a) i (omega arith) ∙ update_self g i a)
  positional_at i (suc k) (a ∷ as') g =
      let there : i + suc k ≡ suc i + k = omega arith in
      rw there (
        positional_at (suc i) k as' (update g i a)
        ∙ ap (or_else (get_elem? as' k)) (update_other g i (suc i + k) a (λ e. omega (arith, e))))

  module _ (stmt : Stmt) (m : List (String × Arg Float)) where
    overlay_other : (g : Given) (i j : ℕ) (x : Option (Arg Float)) → j ≢ i → overlay g i x j ≡ g j
    overlay_other g i j none ne = refl
    overlay_other g i j (some a) ne = update_other g i j a ne

    overlay_self : (g : Given) (i : ℕ) (x : Option (Arg Float)) → overlay g i x i ≡ or_else x (g i)
    overlay_self g i none = refl
    overlay_self g i (some a) = update_self g i a

    by_name_before : (k i : ℕ) (g : Given) (j : ℕ) → j < i → by_name stmt m k i g j ≡ g j
    by_name_before zero i g j lt = refl
    by_name_before (suc k) i g j lt =
        by_name_before k (suc i) (overlay g i (named_at stmt m i)) j (omega arith)
        ∙ overlay_other g i j (named_at stmt m i) (λ e. omega (arith, e, lt))

    pub by_name_at :
        (k i j : ℕ) (g : Given)
        → i ≤ j
        → j < i + k
        → by_name stmt m k i g j ≡ or_else (named_at stmt m j) (g j)
    by_name_at zero i j g le lt = absurd (omega arith)
    by_name_at (suc k) i j g le lt = elim (Bool-cases (j == i)) [
      | inl same ↦
          let e : j ≡ i = (==_iff j i).0 same in
          rw e (
            by_name_before k (suc i) (overlay g i (named_at stmt m i)) i (omega arith)
            ∙ overlay_self g i (named_at stmt m i))
      | inr other ↦
          let ne : j ≢ i = λ e. cc (other, (==_iff j i).1 e) in
          by_name_at k (suc i) j (overlay g i (named_at stmt m i)) (omega (arith, ne, le))
            (omega (arith, lt))
          ∙ ap (or_else (named_at stmt m j)) (overlay_other g i j (named_at stmt m i) ne)
    ]
