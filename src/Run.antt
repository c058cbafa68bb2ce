-- ===== src/Run.antt =====
-- Go functions that use a connection and return early with an error: what they leave behind is kept
-- in both cases.
use go_sqlite.Base.{◌≡◌, refl, Option, none, some}
use go_sqlite.Errors.{Error, Result, ok, err}

abbrev pub Run : Type 0 → Type 0 → Type 0
Run σ A = σ → Result A × σ

abbrev pub continue : {σ A B : Type 0} → Result A → (A → Run σ B) → Run σ B
continue (ok a) f s = f a s
continue (err e) f s = (err e, s)

infixl 5 ◌>>=◌ ◌>>◌
abbrev pub ◌>>=◌ : {σ A B : Type 0} → Run σ A → (A → Run σ B) → Run σ B
◌>>=◌ m f s = continue (m s).0 f (m s).1

abbrev pub ◌>>◌ : {σ B : Type 0} → Run σ (Unit {0}) → Run σ B → Run σ B
m >> k = m >>= λ _. k

abbrev pub pure : {σ A : Type 0} → A → Run σ A
pure a s = (ok a, s)

abbrev pub fail : {σ A : Type 0} → Error → Run σ A
fail e s = (err e, s)

-- A Go `error` as a result.
abbrev pub no_error : Option Error → Result (Unit {0})
no_error none = ok tt
no_error (some e) = err e

abbrev pub checked : {σ : Type 0} → (σ → Option Error × σ) → Run σ (Unit {0})
checked call s = (no_error (call s).0, (call s).1)

-- What a run ends with: a condition on its value, or one on what a failure leaves.
pub data Post {σ A : Type 0} (Q : A → σ → Type 0) (R : Error → σ → Type 0)
    : Result A × σ → Type 0 where
  returns : {a : A} {s : σ} → Q a s → Post Q R (ok a, s)
  fails : {e : Error} {s : σ} → R e s → Post Q R (err e, s)

module _ {σ A B : Type 0} {P : A → σ → Type 0} {Q : B → σ → Type 0} {R : Error → σ → Type 0} where
  continue-Post :
      {r : Result A × σ} {f : A → Run σ B}
      → Post P R r
      → ((a : A) (s : σ) → P a s → Post Q R (f a s))
      → Post Q R (continue r.0 f r.1)
  continue-Post (returns {a} {s} p) k = k a s p
  continue-Post (fails x) k = fails x

  pub Post-bind :
      (m : Run σ A) (f : A → Run σ B) (s : σ)
      → Post P R (m s)
      → ((a : A) (t : σ) → P a t → Post Q R (f a t))
      → Post Q R (◌>>=◌ m f s)
  Post-bind m f s p k = continue-Post p k

module _ {σ A : Type 0} {P Q : A → σ → Type 0} {R T : Error → σ → Type 0} where
  pub Post-weaken :
      {r : Result A × σ}
      → ((a : A) (s : σ) → P a s → Q a s)
      → ((e : Error) (s : σ) → R e s → T e s)
      → Post P R r
      → Post Q T r
  Post-weaken f g (returns {a} {s} p) = returns (f a s p)
  Post-weaken f g (fails {e} {s} x) = fails (g e s x)

module _ {σ : Type 0} {Q : Unit {0} → σ → Type 0} {R : Error → σ → Type 0} where
  checked_by :
      (o : Option Error) (t : σ)
      → (o ≡ none → Q tt t)
      → ((e : Error) → o ≡ some e → R e t)
      → Post Q R (no_error o, t)
  checked_by none t good bad = returns (good refl)
  checked_by (some e) t good bad = fails (bad e refl)

  pub checked-Post :
      (call : σ → Option Error × σ) (s : σ)
      → ((call s).0 ≡ none → Q tt (call s).1)
      → ((e : Error) → (call s).0 ≡ some e → R e (call s).1)
      → Post Q R (checked call s)
  checked-Post call s good bad = checked_by (call s).0 (call s).1 good bad

module _ {σ A : Type 0} {Q : A → σ → Type 0} {R : Error → σ → Type 0} where
  called_by :
      (r : Result A) (t : σ)
      → ((a : A) → r ≡ ok a → Q a t)
      → ((e : Error) → r ≡ err e → R e t)
      → Post Q R (r, t)
  called_by (ok a) t good bad = returns (good a refl)
  called_by (err e) t good bad = fails (bad e refl)

  pub called-Post :
      (call : Run σ A) (s : σ)
      → ((a : A) → (call s).0 ≡ ok a → Q a (call s).1)
      → ((e : Error) → (call s).0 ≡ err e → R e (call s).1)
      → Post Q R (call s)
  called-Post call s good bad = called_by (call s).0 (call s).1 good bad
