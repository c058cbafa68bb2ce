-- ===== src/Sqlitemigration/Store/Memory.antt =====
-- The session in memory as a store whose contents are the user version, and that no other process
-- uses. A script that is named "bad" fails. It shows that `StoreLaws` can be met, and runs the tests.

use text.Mathlib.Text.{◌==◌ as str_eq}
use go_sqlite.Base.{
  ℕ, ◌≡◌, refl, inl, inr, Bool, Option, none, some, if◌then◌else◌, arith, Bool-cases,
}
use go_sqlite.Base.Int.{ℤ, pos}
use go_sqlite.Errors.{Error, sqlite, result_error, Result, ok, err}
use go_sqlite.Sqlitex.Database.{Mode, begin, Unchanged}
use go_sqlite.Sqlitex.Database.Memory.{Session, session}
use go_sqlite.Sqlitemigration.Store.{
  Query, has_schema, application_id, user_version, foreign_keys, Script, with_version, alone, Store,
  StoreLaws, Refused,
}

abbrev version_after : Script → ℕ → ℕ
version_after (with_version m n) d = n
version_after (alone m) d = d

abbrev is_bad : Script → Bool
is_bad (with_version m n) = str_eq m "bad"
is_bad (alone m) = str_eq m "bad"

abbrev run_script : Script → Session → Option Error × Session
run_script s c =
    if is_bad s
    then (some (sqlite result_error), c)
    else (none, record c { value = version_after s c.value })

abbrev answer : Query → Session → Result ℤ × Session
answer has_schema c = (ok (pos 1), c)
answer application_id c = (ok (pos 7), c)
answer user_version c = (ok (pos c.value), c)
answer foreign_keys c = (ok (pos 1), c)

abbrev pub store : Store session
store = record {
  step = session.execute;
  reset = λ s c. (none, c);
  prepare = λ s c. (none, c);
  query = answer;
  pragma = λ p c. (none, c);
  exec_script = run_script;
  run = version_after;
  version = pos;
  mark = λ n d. d;
  app_id = λ d. pos 7;
  tables = λ d. pos 1;
  Others = λ d e. e ≡ d;
}

answered :
    (q : Query) (c : Session) (a : ℤ) → (answer q c).0 ≡ ok a → Unchanged session c (answer q c).1
answered has_schema c a h = (refl, refl)
answered application_id c a h = (refl, refl)
answered user_version c a h = (refl, refl)
answered foreign_keys c a h = (refl, refl)

not_answered :
    (q : Query) (c : Session) (e : Error)
    → (answer q c).0 ≡ err e
    → Refused session store c (answer q c).1
not_answered has_schema c e h = cc
not_answered application_id c e h = cc
not_answered user_version c e h = cc
not_answered foreign_keys c e h = cc

script_run :
    (s : Script) (c : Session)
    → (run_script s c).0 ≡ none
    → ((run_script s c).1.stack ≡ c.stack) × ((run_script s c).1.value ≡ version_after s c.value)
script_run s c h = elim (Bool-cases (is_bad s)) [
  | inl bad ↦ absurd (ground (arith, bad, h))
  | inr good ↦ rw good (refl, refl)
]

script-Refused :
    (s : Script) (c : Session) (e : Error)
    → (run_script s c).0 ≡ some e
    → Refused session store c (run_script s c).1
script-Refused s c e h = elim (Bool-cases (is_bad s)) [
  | inl bad ↦ rw bad (inl (refl, refl))
  | inr good ↦ absurd (ground (arith, good, h))
]

others_at_begin :
    (m : Mode) (c : Session)
    → (session.execute (begin m) c).0 ≡ none
    → (session.execute (begin m) c).1.value ≡ c.value
others_at_begin m c h = ground arith

pub store_laws : StoreLaws session store
store_laws = record {
  step_eq = λ s c. refl;
  reset_ok = λ s c h. (refl, (refl, refl));
  prepared = λ s c. (refl, refl);
  answered = answered;
  version_answered = λ c a h. cc;
  app_id_answered = λ c a h. cc;
  tables_answered = λ c a h. cc;
  not_answered = not_answered;
  foreign_keys_set = λ c. ((refl, refl), (refl, refl));
  marked = λ n c h. (refl, refl);
  not_marked = λ n c e h. cc;
  script_run = script_run;
  script_refused = script-Refused;
  version_set = λ m n d. refl;
  version_marked = λ n d. refl;
  others_at_begin = others_at_begin;
}
