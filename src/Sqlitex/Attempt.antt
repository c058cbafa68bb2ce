-- ===== src/Sqlitex/Attempt.antt =====
-- Go functions over a world that they change: they return a value or an error, or panic at an index
-- that is out of range. A loop on fuel may also run out of it.
use go_sqlite.Base.{Option, none, some}
use go_sqlite.Errors.{Error, Result, ok, err}

pub data Attempt {ℓ} (A : Type ℓ) : Type ℓ where
  value : A → Attempt A
  failed : Error → Attempt A
  index_out_of_range out_of_fuel : Attempt A

abbrev pub Act : Type 0 → Type 0 → Type 0
Act σ A = σ → Attempt A × σ

abbrev pub continue : {σ A B : Type 0} → Attempt A → (A → Act σ B) → Act σ B
continue (value a) f s = f a s
continue (failed e) f s = (failed e, s)
continue index_out_of_range f s = (index_out_of_range, s)
continue out_of_fuel f s = (out_of_fuel, s)

infixl 5 ◌>>=◌ ◌>>◌
abbrev pub ◌>>=◌ : {σ A B : Type 0} → Act σ A → (A → Act σ B) → Act σ B
◌>>=◌ m f s = continue (m s).0 f (m s).1

abbrev pub ◌>>◌ : {σ B : Type 0} → Act σ (Unit {0}) → Act σ B → Act σ B
m >> k = m >>= λ _. k

abbrev pub pure : {σ A : Type 0} → A → Act σ A
pure a s = (value a, s)

abbrev pub fail : {σ A : Type 0} → Error → Act σ A
fail e s = (failed e, s)

abbrev pub from_result : {A : Type 0} → Result A → Attempt A
from_result (ok a) = value a
from_result (err e) = failed e

-- A call that returns a value or an error.
abbrev pub call : {σ A : Type 0} → (σ → Result A × σ) → Act σ A
call f s = (from_result (f s).0, (f s).1)

abbrev pub no_error : Option Error → Attempt (Unit {0})
no_error none = value tt
no_error (some e) = failed e

-- A call that returns an error or nil.
abbrev pub checked : {σ : Type 0} → (σ → Option Error × σ) → Act σ (Unit {0})
checked f s = (no_error (f s).0, (f s).1)

-- What an act ends with: a condition on its value, or one on what an error leaves. It does not panic.
pub data Ends {σ A : Type 0} (Q : A → σ → Type 0) (R : Error → σ → Type 0)
    : Attempt A × σ → Type 0 where
  returns : {a : A} {s : σ} → Q a s → Ends Q R (value a, s)
  fails : {e : Error} {s : σ} → R e s → Ends Q R (failed e, s)

module _ {σ A B : Type 0} {P : A → σ → Type 0} {Q : B → σ → Type 0} {R : Error → σ → Type 0} where
  continue-Ends :
      {r : Attempt A × σ} {f : A → Act σ B}
      → Ends P R r
      → ((a : A) (s : σ) → P a s → Ends Q R (f a s))
      → Ends Q R (continue r.0 f r.1)
  continue-Ends (returns {a} {s} p) k = k a s p
  continue-Ends (fails x) k = fails x

  pub Ends-bind :
      (m : Act σ A) (f : A → Act σ B) (s : σ)
      → Ends P R (m s)
      → ((a : A) (t : σ) → P a t → Ends Q R (f a t))
      → Ends Q R (◌>>=◌ m f s)
  Ends-bind m f s p k = continue-Ends p k

module _ {σ A : Type 0} {P Q : A → σ → Type 0} {R S : Error → σ → Type 0} where
  pub Ends-weaken :
      {r : Attempt A × σ}
      → ((a : A) (s : σ) → P a s → Q a s)
      → ((e : Error) (s : σ) → R e s → S e s)
      → Ends P R r
      → Ends Q S r
  Ends-weaken f g (returns {a} {s} p) = returns (f a s p)
  Ends-weaken f g (fails {e} {s} x) = fails (g e s x)

-- A fact about the state at the end joins the condition.
pub Ends-and :
    {σ A : Type 0} {Q : A → σ → Type 0} {R : Error → σ → Type 0} {P : σ → Type 0}
    {r : Attempt A × σ}
    → Ends Q R r
    → P r.1
    → Ends (λ a s. Q a s × P s) R r
Ends-and (returns q) p = returns (q, p)
Ends-and (fails x) p = fails x
