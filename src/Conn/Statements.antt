-- ===== src/Conn/Statements.antt =====
-- The statements of a connection: what an update of one does to the others, and the cache of Prepare.
use go_sqlite.Base.{
  ◌≡◌, ◌≢◌, refl, sym, ap, ◌∙◌, ℕ, zero, suc, true, false, some, List, [], ◌∷◌, ◌++◌, length,
  get_elem?, set, ◌==◌, ==_iff, arith, Bool-cases, inl, inr, ◌⊎◌,
}
use Prim.Native.String.{String}
use go_sqlite.Conn.{Stmt, Conn, find, update, add_object}

pub get_elem?-set {ℓ} :
    {A : Type ℓ} (xs : List A) (i : ℕ) (x v : A)
    → get_elem? xs i ≡ some x
    → get_elem? (set xs i v) i ≡ some v
get_elem?-set [] i x v e = cc
get_elem?-set (y ∷ xs) zero x v e = refl
get_elem?-set (y ∷ xs) (suc i) x v e = get_elem?-set xs i x v e

pub get_elem?-set_other {ℓ} :
    {A : Type ℓ} (xs : List A) (i j : ℕ) (v : A) → i ≢ j → get_elem? (set xs i v) j ≡ get_elem? xs j
get_elem?-set_other [] i j v n = refl
get_elem?-set_other (y ∷ xs) zero zero v n = absurd (n refl)
get_elem?-set_other (y ∷ xs) zero (suc j) v n = refl
get_elem?-set_other (y ∷ xs) (suc i) zero v n = refl
get_elem?-set_other (y ∷ xs) (suc i) (suc j) v n = get_elem?-set_other xs i j v (λ e. n (ap suc e))

pub get_elem?-append {ℓ} :
    {A : Type ℓ} (xs ys : List A) (i : ℕ) (x : A)
    → get_elem? xs i ≡ some x
    → get_elem? (xs ++ ys) i ≡ some x
get_elem?-append [] ys i x e = cc
get_elem?-append (y ∷ xs) ys zero x e = e
get_elem?-append (y ∷ xs) ys (suc i) x e = get_elem?-append xs ys i x e

pub get_elem?-length {ℓ} :
    {A : Type ℓ} (xs : List A) (y : A) → get_elem? (xs ++ y ∷ []) (length xs) ≡ some y
get_elem?-length [] y = refl
get_elem?-length (x ∷ xs) y = get_elem?-length xs y

-- The place `i` has an open statement of the query, which was not made by an interrupted Prep.
pub record IsStmtOf (c : Conn) (q : String) (i : ℕ) (s : Stmt) : Type 0 where
  pub here : get_elem? c.objects i ≡ some s
  pub of_query : s.query ≡ q
  pub still_open : s.is_open ≡ true
  pub compiled : s.prep_interrupt ≡ false

-- The cache has open statements of its queries.
abbrev pub Inv : Conn → Type 0
Inv c = (q : String) (i : ℕ) → find q c.stmts ≡ some i → (s : Stmt) × IsStmtOf c q i s

-- A statement is changed, but neither its query nor whether it is open.
pub update-Inv :
    (c : Conn) (i : ℕ) (s s' : Stmt)
    → get_elem? c.objects i ≡ some s
    → s'.query ≡ s.query
    → s'.is_open ≡ s.is_open
    → s'.prep_interrupt ≡ s.prep_interrupt
    → Inv c
    → Inv (update i s' c)
update-Inv c i s s' e a b d v q j f = let (t, h) = v q j f in by_place t h (Bool-cases (i == j))
  where
    by_place :
        (t : Stmt)
        → IsStmtOf c q j t
        → (i == j ≡ true) ⊎ (i == j ≡ false)
        → (t : Stmt) × IsStmtOf (update i s' c) q j t
    by_place t h (inl same) =
        let p : i ≡ j = (==_iff i j).0 same in
        let there : get_elem? (set c.objects i s') j ≡ some s' =
          ap (get_elem? (set c.objects i s')) (sym p) ∙ get_elem?-set c.objects i s s' e in
        let q' : s ≡ t = cc (e, p, h.here) in
        (
          s',
          record {
            here = there;
            of_query = a ∙ ap (λ x. x.query) q' ∙ h.of_query;
            still_open = b ∙ ap (λ x. x.is_open) q' ∙ h.still_open;
            compiled = d ∙ ap (λ x. x.prep_interrupt) q' ∙ h.compiled;
          },
        )
    by_place t h (inr other) = (
      t,
      record {
        here = get_elem?-set_other c.objects i j s' (ground (arith, other)) ∙ h.here;
        of_query = h.of_query;
        still_open = h.still_open;
        compiled = h.compiled;
      },
    )

pub add_object-Inv : (c : Conn) (s : Stmt) → Inv c → Inv (add_object s c)
add_object-Inv c s v q i f =
    let (t, h) = v q i f in
    (
      t,
      record {
        here = get_elem?-append c.objects (s ∷ []) i t h.here;
        of_query = h.of_query;
        still_open = h.still_open;
        compiled = h.compiled;
      },
    )
