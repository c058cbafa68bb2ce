-- ===== src/Sqlitex/Exec/Unused.antt =====
-- The names of a map that no parameter has used.
use Prim.Native.String.{String}
use text.Mathlib.Text.{◌==◌ as str_eq}
use go_sqlite.Base.{
  ◌≡◌, ◌≢◌, refl, inl, inr, ℕ, suc, ◌<◌, false, none, List, [], ◌∷◌, ◌==◌, ==_iff, Bool-cases,
  arith, subst, ◌⊎◌,
}
use go_sqlite.Sqlitex.Statements.{Statements}
use go_sqlite.Sqlitex.Exec.{Arg, lookup, keys, delete}

-- Each text of a list.
abbrev pub AllOf : (String → Type 0) → List String → Type 0
AllOf P [] = Unit {0}
AllOf P (u ∷ us) = P u × AllOf P us

pub map-AllOf :
    {P Q : String → Type 0}
    → ((u : String) → P u → Q u)
    → (us : List String) → AllOf P us
    → AllOf Q us
map-AllOf f [] h = tt
map-AllOf f (u ∷ us) (p, h) = (f u p, map-AllOf f us h)

pub delete-AllOf :
    (P : String → Type 0) (k : String) (us : List String)
    → AllOf P us
    → AllOf (λ u. P u × (str_eq u k ≡ false)) (delete k us)
delete-AllOf P k [] h = tt
delete-AllOf P k (u ∷ us) (p, h) = elim (Bool-cases (str_eq u k)) [
  | inl same ↦ rw same (delete-AllOf P k us h)
  | inr other ↦ rw other ((p, other), delete-AllOf P k us h)
]

module _ (T : Statements) where
  open T use {Float, Stmt, bind_param_name}

  -- The map has the name.
  abbrev pub IsKey : String → List (String × Arg Float) → Type 0
  IsKey u [] = ⊥
  IsKey u ((j, v) ∷ m) = (u ≡ j) ⊎ IsKey u m

  -- No parameter below an index has the name.
  abbrev pub NotBelow : Stmt → ℕ → String → Type 0
  NotBelow stmt i u =
      (j : ℕ)
      → j < i
      → str_eq (bind_param_name stmt (suc j)) "" ≡ false
      → str_eq u (bind_param_name stmt (suc j)) ≡ false

  pub keys-AllOf : (m : List (String × Arg Float)) → AllOf (λ u. IsKey u m) (keys m)
  keys-AllOf [] = tt
  keys-AllOf ((j, v) ∷ m) = (inl refl, map-AllOf (λ u h. inr h) (keys m) (keys-AllOf m))

  pub lookup-none :
      (k u : String) (m : List (String × Arg Float))
      → lookup k m ≡ none
      → IsKey u m
      → str_eq u k ≡ false
  lookup-none k u [] e key = absurd key
  lookup-none k u ((j, v) ∷ m) e key = elim (Bool-cases (str_eq j k)) [
    | inl same ↦ absurd (cc (rw same at e))
    | inr other ↦ elim key [
      | inl p ↦ rw p other
      | inr later ↦ lookup-none k u m (rw other at e) later
    ]
  ]

  pub NotBelow-suc :
      (stmt : Stmt) (i : ℕ) (u : String)
      → NotBelow stmt i u
      → (str_eq (bind_param_name stmt (suc i)) "" ≡ false
          → str_eq u (bind_param_name stmt (suc i)) ≡ false)
      → NotBelow stmt (suc i) u
  NotBelow-suc stmt i u before here j lt named = elim (Bool-cases (j == i)) [
    | inl same ↦
        let p : j ≡ i = (==_iff j i).0 same in
        rw p (here (subst (λ j. str_eq (bind_param_name stmt (suc j)) "" ≡ false) p named))
    | inr other ↦ before j (omega (arith, lt, different j i other)) named
  ]
    where
      different : (a b : ℕ) → (a == b) ≡ false → a ≢ b
      different a b x p = cc (x, (==_iff a b).1 p)
