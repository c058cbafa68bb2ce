-- ===== src/Sqlitex/Database/Memory.antt =====
-- A database that is one number, with a stack of saved numbers. COMMIT fails while a reader is
-- busy. It shows that `DatabaseLaws` can be met, and runs the tests.
use Prim.Native.String.{String}
use text.Mathlib.Text.{◌==◌ as str_eq}
use text.Mathlib.TextEquality.{eq_iff}
use text.Mathlib.TextPositions.{eq_refl}
use go_sqlite.Base.{
  ℕ, ◌≡◌, refl, ap, ◌∙◌, ◌⊎◌, inl, inr, Bool, Option, none, some, List, [], ◌∷◌, ◌++◌, is_empty,
  arith, if◌then◌else◌, Bool-cases,
}
use go_sqlite.Errors.{Error, sqlite, result_error, result_busy}
use go_sqlite.Sqlitex.Database.{
  Database, DatabaseLaws, Sql, save, release, rollback_to, begin, commit, rollback, base, NotNamed,
  Unchanged, RolledBack,
}

abbrev Frame : Type 0
Frame = Option String × ℕ

pub record Session : Type 0 where
  pub value : ℕ
  pub stack : List Frame
  pub signal : Option ℕ
  pub busy : Bool

-- The contents that the innermost savepoint of the name saved, and the frames around it.
abbrev find_frame : String → List Frame → Option (ℕ × List Frame)
find_frame n [] = none
find_frame n ((none, d) ∷ fs) = find_frame n fs
find_frame n ((some m, d) ∷ fs) = if str_eq m n then some (d, fs) else find_frame n fs

abbrev bottom : List Frame → ℕ → ℕ
bottom [] d = d
bottom ((n, saved) ∷ fs) d = bottom fs saved

abbrev refused : Session → Option Error × Session
refused s = (some (sqlite result_error), s)

abbrev release_frame : Option (ℕ × List Frame) → Session → Option Error × Session
release_frame none s = refused s
release_frame (some (d, outer)) s = (none, record s { stack = outer })

abbrev rollback_frame : String → Option (ℕ × List Frame) → Session → Option Error × Session
rollback_frame n none s = refused s
rollback_frame n (some (d, outer)) s = (none, record s { value = d; stack = (some n, d) ∷ outer })

abbrev begin_on : List Frame → Session → Option Error × Session
begin_on [] s = (none, record s { stack = (none, s.value) ∷ [] })
begin_on (f ∷ fs) s = refused s

abbrev run_sql : Sql → Session → Option Error × Session
run_sql (save n) s = (none, record s { stack = (some n, s.value) ∷ s.stack })
run_sql (release n) s = release_frame (find_frame n s.stack) s
run_sql (rollback_to n) s = rollback_frame n (find_frame n s.stack) s
run_sql (begin m) s = begin_on s.stack s
run_sql commit s =
    if s.busy then (some (sqlite result_busy), s) else (none, record s { stack = [] })
run_sql rollback s = (none, record s { value = bottom s.stack s.value; stack = [] })

abbrev pub session : Database
session = record {
  Conn = Session;
  execute = run_sql;
  autocommit = λ s. is_empty s.stack;
  set_interrupt = λ ch s. (s.signal, record s { signal = ch });
  Db = ℕ;
  db = λ s. s.value;
  frames = λ s. s.stack;
  interrupt = λ s. s.signal;
}

bottom-eq : (fs : List Frame) (d : ℕ) → bottom fs d ≡ base session fs d
bottom-eq [] d = refl
bottom-eq ((n, saved) ∷ fs) d = bottom-eq fs saved

find_frame-eq :
    (n : String) (inner outer : List Frame) (d : ℕ)
    → NotNamed session n inner
    → find_frame n (inner ++ (some n, d) ∷ outer) ≡ some (d, outer)
find_frame-eq n [] outer d h = rw (eq_refl n)
find_frame-eq n ((none, e) ∷ inner) outer d h = find_frame-eq n inner outer d h.1
find_frame-eq n ((some m, e) ∷ inner) outer d h = elim (Bool-cases (str_eq m n)) [
  | inl same ↦ absurd (h.0 (ap some ((eq_iff m n).0 same)))
  | inr other ↦ rw other (find_frame-eq n inner outer d h.1)
]

failed :
    (s : Sql) (c : Session) (e : Error)
    → (run_sql s c).0 ≡ some e
    → Unchanged session c (run_sql s c).1 ⊎ RolledBack session c (run_sql s c).1
failed (save n) c e h = cc
failed (release n) c e h = inl (ground arith)
failed (rollback_to n) c e h = inl (ground arith)
failed (begin m) c e h = inl (ground arith)
failed commit c e h = inl (ground arith)
failed rollback c e h = cc

found :
    (n : String) (c : Session) (inner outer : List Frame) (d : ℕ)
    → c.stack ≡ inner ++ (some n, d) ∷ outer
    → NotNamed session n inner
    → find_frame n c.stack ≡ some (d, outer)
found n c inner outer d e i = ap (find_frame n) e ∙ find_frame-eq n inner outer d i

begun :
    (c : Session)
    → (begin_on c.stack c).0 ≡ none
    → (c.stack ≡ []) × ((begin_on c.stack c).1.stack ≡ (none, (begin_on c.stack c).1.value) ∷ [])
begun c h = (ground arith, ground arith)

committed :
    (c : Session)
    → (run_sql commit c).0 ≡ none
    → ((run_sql commit c).1.stack ≡ []) × ((run_sql commit c).1.value ≡ c.value)
committed c h = (ground arith, ground arith)

same_signal : (s : Sql) (c : Session) → (run_sql s c).1.signal ≡ c.signal
same_signal (save n) c = refl
same_signal (release n) c = ground arith
same_signal (rollback_to n) c = ground arith
same_signal (begin m) c = ground arith
same_signal commit c = ground arith
same_signal rollback c = refl

pub session_laws : DatabaseLaws session
session_laws = record {
  autocommit_iff = λ c. refl;
  failed = failed;
  saved = λ n c h. refl;
  released = λ n c inner outer d e i h.
      let f = found n c inner outer d e i in (ground (arith, f), ground (arith, f));
  rolled_back_to = λ n c inner outer d e i h.
      let f = found n c inner outer d e i in (ground (arith, f), ground (arith, f));
  begun = λ m c h. begun c h;
  committed = λ c h. committed c h;
  rolled_back = λ c h. (refl, bottom-eq c.stack c.value);
  same_interrupt = same_signal;
  interrupt_set = λ ch c. (refl, refl, (refl, refl));
}
