-- ===== src/Conn/Resetting.antt =====
-- Reset ends, and SetInterrupt resets what runs.
use go_sqlite.Base.{
  ◌≡◌, refl, sym, ap, subst, ◌∙◌, ℕ, zero, suc, ◌<◌, ◌≤◌, Bool, true, false, Option, none, some,
  List, [], ◌∷◌, get_elem?, set, ◌==◌, ==_iff, if◌then◌else◌, arith, Bool-cases, Option-cases, inl,
  inr, ◌⊎◌,
}
use Prim.Native.String.{String}
use mathlib.Core.List.{Mem, mem-cons, mem-cons_self, mem-cons_of_mem, not-mem-nil}
use mathlib.Core.Logic.Or
use go_sqlite.Errors.{Error, to_error}
use go_sqlite.Conn.{
  Stmt, Conn, Library, Method, is_ok, is_shared_lock, reset_loop, reset, wrapped, running,
  check_reset, reset_if, on_running, reset_all, set_interrupt,
}
use go_sqlite.Conn.Statements.{get_elem?-set, get_elem?-set_other}

-- SQLite lets a lock be waited for so often only: each wait for it takes one from the world's patience, and a
-- reset adds none.
pub record Settles (L : Library) : Type 0 where
  pub patience : L.World → ℕ
  pub one_less :
      (h : ℕ) (w : L.World)
      → is_shared_lock (L.reset_call h w).0 ≡ true
      → patience (L.wait_for_unlock (L.reset_call h w).1).1 < patience w
  pub no_more : (h : ℕ) (w : L.World) → patience (L.reset_call h w).1 ≤ patience w

module _ (L : Library) (settles : Settles L) where
  open L use {World, reset_call, wait_for_unlock}

  -- It returns, and nothing is waited for longer behind it.
  pub record IsCalm {A : Type 0} (w : World) (r : Option A) (w' : World) : Type 0 where
    pub value : A
    pub ended : r ≡ some value
    pub calm : settles.patience w' ≤ settles.patience w

  reset_loop-IsCalm :
      (fuel h : ℕ) (w : World)
      → settles.patience w < fuel
      → IsCalm w (reset_loop L fuel h w).0 (reset_loop L fuel h w).1
  unfolding reset_loop
  reset_loop-IsCalm zero h w lt = absurd (omega arith)
  reset_loop-IsCalm (suc fuel) h w lt = elim (Bool-cases (is_shared_lock (reset_call h w).0)) [
    | inr e ↦
        simp (e)
          (record { value = to_error (reset_call h w).0; ended = refl; calm = settles.no_more h w })
    | inl e ↦
        let less = settles.one_less h w e in
        elim (Bool-cases (is_ok (wait_for_unlock (reset_call h w).1).0)) [
          | inl k ↦
              let again =
                reset_loop-IsCalm fuel h (wait_for_unlock (reset_call h w).1).1
                  (omega (arith, lt, less)) in
              simp (e, k)
                (record {
                  value = again.value;
                  ended = again.ended;
                  calm = omega (arith, again.calm, less);
                })
          | inr k ↦
              simp (e, k)
                (record {
                  value = some (wrapped (to_error (wait_for_unlock (reset_call h w).1).0));
                  ended = refl;
                  calm = omega (arith, less);
                })
        ]
  ]

  pub reset-IsCalm :
      (fuel i : ℕ) (s : Stmt) (c : Conn) (w : World)
      → settles.patience w < fuel
      → IsCalm w (reset L fuel i s c w).0 (reset L fuel i s c w).2
  unfolding reset
  reset-IsCalm fuel i s c w lt = reset_loop-IsCalm fuel s.handle w lt

  abbrev pub IsQuiet : List Stmt → ℕ → Type 0
  IsQuiet objects i = (s : Stmt) → get_elem? objects i ≡ some s → s.last_has_row ≡ false

  IsQuiet_prop : (objects : List Stmt) (i : ℕ) → IsProp (IsQuiet objects i)
  IsQuiet_prop objects i = hlevel

  -- The statements of a part of the cache return no rows, as running tells.
  running-none :
      (objects : List Stmt) (m : List (String × ℕ))
      → ((q : String) (i : ℕ) → Mem (q, i) m → IsQuiet objects i)
      → running objects m ≡ none
  running-none objects [] h = refl
  running-none objects ((k, i) ∷ m) h = elim (Option-cases (get_elem? objects i)) [
    | inl e ↦ simp (e) (running-none objects m (λ q j y. h q j (mem-cons_of_mem _ y)))
    | inr (s, e) ↦ simp (e) (
        simp (h k i mem-cons_self s e)
          (running-none objects m (λ q j y. h q j (mem-cons_of_mem _ y))))
  ]

  -- One statement is quiet, and the others are as they were.
  quiet_update :
      (objects : List Stmt) (i j : ℕ) (s : Stmt)
      → get_elem? objects i ≡ some s
      → (i ≡ j) ⊎ IsQuiet objects j
      → IsQuiet (set objects i (record s { last_has_row = false })) j
  quiet_update objects i j s e h t f = by_place (Bool-cases (i == j)) h
    where
      by_place :
          (i == j ≡ true) ⊎ (i == j ≡ false) → (i ≡ j) ⊎ IsQuiet objects j → t.last_has_row ≡ false
      by_place (inl same) _ =
          let p : i ≡ j = (==_iff i j).0 same in
          let now = get_elem?-set objects i s (record s { last_has_row = false }) e in
          let q : record s { last_has_row = false } ≡ t = cc (now, p, f) in
          sym (ap (λ x. x.last_has_row) q)
      by_place (inr other) (inl p) = absurd (ground (arith, other, p))
      by_place (inr other) (inr quiet) = quiet t (
          sym (
            get_elem?-set_other objects i j (record s { last_has_row = false })
              (ground (arith, other)))
          ∙ f)

  -- What resetting a part of the cache leaves: its statements are quiet, and so are those that were.
  record AllQuiet (m : List (String × ℕ)) (c : Conn) (r : Method L Bool) : Type 0 where
    ended : r.0 ≡ true
    same_cache : r.1.stmts ≡ c.stmts
    same_ch : r.1.done_ch ≡ c.done_ch
    quiet : (q : String) (i : ℕ) → Mem (q, i) m → IsQuiet r.1.objects i
    kept : (i : ℕ) → IsQuiet c.objects i → IsQuiet r.1.objects i

  record OneQuiet (i : ℕ) (c : Conn) (w : World) (r : Method L (Option (Option Error)))
      : Type 0 where
    returned : IsCalm w r.0 r.2
    same_cache : r.1.stmts ≡ c.stmts
    same_ch : r.1.done_ch ≡ c.done_ch
    quiet : IsQuiet r.1.objects i
    kept : (j : ℕ) → IsQuiet c.objects j → IsQuiet r.1.objects j

  reset_if-OneQuiet :
      (fuel i : ℕ) (c : Conn) (w : World) (o : Option Stmt)
      → get_elem? c.objects i ≡ o
      → settles.patience w < fuel
      → OneQuiet i c w (reset_if L fuel i o c w)
  unfolding reset
  reset_if-OneQuiet fuel i c w none e lt = record {
    returned = record { value = none; ended = refl; calm = omega arith };
    same_cache = refl;
    same_ch = refl;
    quiet = λ s f. cc (e, f);
    kept = λ j h. h;
  }
  reset_if-OneQuiet fuel i c w (some s) e lt = elim (Bool-cases s.last_has_row) [
    | inl runs ↦ simp (runs) (record {
      returned = reset_loop-IsCalm fuel s.handle w lt;
      same_cache = refl;
      same_ch = refl;
      quiet = quiet_update c.objects i i s e (inl refl);
      kept = λ j h. quiet_update c.objects i j s e (inr h);
    })
    | inr still ↦ simp (still) (record {
      returned = record { value = none; ended = refl; calm = omega arith };
      same_cache = refl;
      same_ch = refl;
      quiet = λ t f. let p : s ≡ t = cc (e, f) in ap (λ x. x.last_has_row) (sym p) ∙ still;
      kept = λ j h. h;
    })
  ]

  reset_all-AllQuiet :
      (fuel : ℕ) (m : List (String × ℕ)) (c : Conn) (w : World)
      → settles.patience w < fuel
      → AllQuiet m c (reset_all L fuel m c w)
  unfolding reset_all
  reset_all-AllQuiet fuel [] c w lt = record {
    ended = refl;
    same_cache = refl;
    same_ch = refl;
    quiet = λ q i y. absurd (not-mem-nil y);
    kept = λ i h. h;
  }
  reset_all-AllQuiet fuel ((k, i) ∷ m) c w lt =
      behind_first (reset_if L fuel i (get_elem? c.objects i) c w)
        (reset_if-OneQuiet fuel i c w (get_elem? c.objects i) refl lt)
        (λ c' w' lt'. reset_all-AllQuiet fuel m c' w' lt')
    where
      behind_first :
          (r : Method L (Option (Option Error)))
          → OneQuiet i c w r
          → ((c' : Conn) (w' : World)
              → settles.patience w' < fuel
              → AllQuiet m c' (reset_all L fuel m c' w'))
          → AllQuiet ((k, i) ∷ m) c (on_running L (reset_all L fuel m) r)
      behind_first (none, c', w') one rest = let e = one.returned.ended in cc (e)
      behind_first (some x, c', w') one rest =
          let all = rest c' w' (omega (arith, one.returned.calm, lt)) in
          record {
            ended = all.ended;
            same_cache = all.same_cache ∙ one.same_cache;
            same_ch = all.same_ch ∙ one.same_ch;
            quiet = λ q j y.
                Or.elim (IsQuiet_prop (reset_all L fuel m c' w').1.objects j) (mem-cons.0 y)
                  (λ p.
                    subst (IsQuiet (reset_all L fuel m c' w').1.objects) (sym (ap (λ z. z.1) p))
                      (all.kept i one.quiet))
                  (λ y'. all.quiet q j y');
            kept = λ j h. all.kept j (one.kept j h);
          }

  -- What SetInterrupt ends with on an open connection: no statement of the cache is in the process of returning
  -- rows, the channel is set, and the old one returned.
  pub record InterruptSet (ch : Option ℕ) (c : Conn) (r : Method L (Option (Bool × Option ℕ)))
      : Type 0 where
    pub old_ch : r.0 ≡ some (true, c.done_ch)
    pub set_ch : r.1.done_ch ≡ ch
    pub nothing_runs : check_reset r.1 ≡ none
    pub same_cache : r.1.stmts ≡ c.stmts

  -- SetInterrupt on an open connection returns the old channel and sets the new one, and behind it CheckReset
  -- finds no statement that is in the process of returning rows; the cache is as before. Condition: the fuel is more than what the world waits for locks.
  pub set_interrupt-InterruptSet :
      (fuel : ℕ) (ch : Option ℕ) (c : Conn) (w : World)
      → c.is_closed ≡ false
      → settles.patience w < fuel
      → InterruptSet ch c (set_interrupt L fuel ch c w)
  unfolding set_interrupt check_reset
  set_interrupt-InterruptSet fuel ch c w there lt =
      on_open c.is_closed there (reset_all-AllQuiet fuel c.stmts (record c { done_ch = ch }) w lt)
    where
      on_open :
          (b : Bool)
          → b ≡ false
          → {r : Method L Bool} → AllQuiet c.stmts (record c { done_ch = ch }) r
          → InterruptSet ch c (if b then (none, c, w) else (some (r.0, c.done_ch), r.1, r.2))
      on_open true e all = cc (e)
      on_open false e {r} all = record {
        old_ch = ap (λ b. some (b, c.done_ch)) all.ended;
        set_ch = all.same_ch;
        nothing_runs =
            ap (running r.1.objects) all.same_cache ∙ running-none r.1.objects c.stmts all.quiet;
        same_cache = all.same_cache;
      }
