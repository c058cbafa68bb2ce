-- ===== src/Conn/Caching.antt =====
-- What Prepare returns, and what it keeps in the cache.
use go_sqlite.Base.{
  ◌≡◌, refl, sym, ap, ◌∙◌, ℕ, ◌<◌, true, false, Option, none, some, List, [], ◌∷◌, ◌++◌, length,
  get_elem?, get_elem?-some, ◌==◌, arith, Bool-cases, Option-cases, inl, inr, ◌⊎◌,
}
use text.Mathlib.Text.{◌==◌ as str_eq}
use text.Mathlib.TextEquality.{eq_iff}
use Prim.Native.String.{String}
use go_sqlite.Errors.{Error, Result, ok, err}
use go_sqlite.Conn.{
  Stmt, Conn, Library, Method, Compiled, not_compiled, compiled, find, update, add_object,
  fresh_stmt, conn_interrupted, compiled_by, prepare_transient, finalize, reset, clear_bindings,
  cleared, was_reset, kept, newly, prepare,
}
use go_sqlite.Conn.Statements.{
  get_elem?-set, get_elem?-set_other, get_elem?-append, get_elem?-length, IsStmtOf, Inv, update-Inv,
  add_object-Inv,
}
use go_sqlite.Conn.Resetting.{Settles, reset-IsCalm}

module _ (L : Library) where
  open L use {World, compile}

  -- What Prepare of a query ends with: a statement of the query, which is the one of the cache, the same
  -- as before where there was one, and returns no row; or an error, and the cache is the same.
  pub data Prepared (q : String) (c : Conn) : Method L (Option (Result ℕ)) → Type 0 where
    prepared :
        {i : ℕ} {c' : Conn} {w' : World} (s : Stmt)
        → IsStmtOf c' q i s
        → s.last_has_row ≡ false
        → find q c'.stmts ≡ some i
        → ((j : ℕ) → find q c.stmts ≡ some j → j ≡ i)
        → ((t : Stmt) → get_elem? c.objects i ≡ some t → s.bind_err ≡ t.bind_err)
        → Inv c'
        → Prepared q c (some (ok i), c', w')
    refused :
        {e : Error} {c' : Conn} {w' : World}
        → c'.stmts ≡ c.stmts
        → Inv c'
        → Prepared q c (some (err e), c', w')

  cleared-Prepared :
      (q : String) (c c' : Conn) (i : ℕ) (s : Stmt) (r : Option Error × World)
      → find q c.stmts ≡ some i
      → c'.stmts ≡ c.stmts
      → IsStmtOf c' q i s
      → s.last_has_row ≡ false
      → ((t : Stmt) → get_elem? c.objects i ≡ some t → s.bind_err ≡ t.bind_err)
      → Inv c'
      → Prepared q c (cleared L i c' r)
  cleared-Prepared q c c' i s (some e, w) f same h still bound v = refused same v
  cleared-Prepared q c c' i s (none, w) f same h still bound v =
      prepared s h still (ap (find q) same ∙ f) (λ j g. cc (f, g)) bound v

  after_reset :
      (q : String) (c : Conn) (i : ℕ) (s : Stmt) (r : Option (Option Error)) (w : World)
      (e : Option Error)
      → r ≡ some e
      → find q c.stmts ≡ some i
      → IsStmtOf c q i s
      → Inv c
      → Prepared q c (was_reset L i s (r, update i (record s { last_has_row = false }) c, w))
  after_reset q c i s none w e p f h v = cc (p)
  after_reset q c i s (some (some x)) w e p f h v =
      refused refl (update-Inv c i s (record s { last_has_row = false }) h.here refl refl refl v)
  after_reset q c i s (some none) w e p f h v =
      let c' = update i (record s { last_has_row = false }) c in
      cleared-Prepared q c c' i (record s { last_has_row = false }) (clear_bindings L s c' w) f refl
        (record {
          here = get_elem?-set c.objects i s (record s { last_has_row = false }) h.here;
          of_query = h.of_query;
          still_open = h.still_open;
          compiled = h.compiled;
        })
        refl (λ t g. let same : s ≡ t = cc (h.here, g) in ap (λ x. x.bind_err) same)
        (update-Inv c i s (record s { last_has_row = false }) h.here refl refl refl v)

  abbrev pub enter : String → ℕ → Conn → Conn
  enter q i c = record c { stmts = (q, i) ∷ c.stmts }

  pub enter-Inv :
      (q : String) (i : ℕ) (s : Stmt) (c : Conn) → IsStmtOf c q i s → Inv c → Inv (enter q i c)
  enter-Inv q i s c h v q' j f = by_key (Bool-cases (str_eq q q'))
    where
      by_key :
          (str_eq q q' ≡ true) ⊎ (str_eq q q' ≡ false) → (t : Stmt) × IsStmtOf (enter q i c) q' j t
      by_key (inl e) =
          let same : q ≡ q' = (eq_iff q q').0 e in
          let g : some i ≡ some j = simp (e) at f in
          let p : i ≡ j = cc (g) in
          (
            s,
            record {
              here = ap (get_elem? c.objects) (sym p) ∙ h.here;
              of_query = h.of_query ∙ same;
              still_open = h.still_open;
              compiled = h.compiled;
            },
          )
      by_key (inr e) =
          let g : find q' c.stmts ≡ some j = simp (e) at f in
          let (t, k) = v q' j g in
          (
            t,
            record {
              here = k.here;
              of_query = k.of_query;
              still_open = k.still_open;
              compiled = k.compiled;
            },
          )

  -- The new statement is finalized again.
  dropped-Inv :
      (c : Conn) (s s' : Stmt) → Inv c → Inv (update (length c.objects) s' (add_object s c))
  dropped-Inv c s s' v q i f =
      let (t, h) = v q i f in
      let lt = get_elem?-some c.objects i t h.here in
      (
        t,
        record {
          here =
              get_elem?-set_other (c.objects ++ s ∷ []) (length c.objects) i s'
                (λ e. omega (arith, lt, e))
              ∙ get_elem?-append c.objects (s ∷ []) i t h.here;
          of_query = h.of_query;
          still_open = h.still_open;
          compiled = h.compiled;
        },
      )

  -- A statement that is not in the cache yet.
  new-Prepared :
      (q : String) (c : Conn) (h : ℕ) (names : List String) (trailing : ℕ) (w : World)
      → find q c.stmts ≡ none
      → Inv c
      → Prepared q c (
          newly L q
            (ok (length c.objects, trailing), add_object (fresh_stmt L q h names false) c, w))
  unfolding finalize
  new-Prepared q c h names trailing w f v =
      let s = fresh_stmt L q h names false in
      simp (get_elem?-length c.objects s) (by_trailing (Bool-cases (trailing == 0)))
    where
      entered : Prepared q c (
        some (ok (length c.objects)),
        enter q (length c.objects) (add_object (fresh_stmt L q h names false) c),
        w,
      )
      entered =
          let s = fresh_stmt L q h names false in
          let there : IsStmtOf (add_object s c) q (length c.objects) s = record {
            here = get_elem?-length c.objects s;
            of_query = refl;
            still_open = refl;
            compiled = refl;
          } in
          let found : str_eq q q ≡ true = (eq_iff q q).1 refl in
          prepared s
            (record { here = there.here; of_query = refl; still_open = refl; compiled = refl }) refl
            (simp (found) refl) (λ j g. cc (f, g))
            (λ t g.
              let lt = get_elem?-some c.objects (length c.objects) t g in
              absurd (omega (arith, lt)))
            (enter-Inv q (length c.objects) s (add_object s c) there (add_object-Inv c s v))

      by_trailing :
          (trailing == 0 ≡ true) ⊎ (trailing == 0 ≡ false)
          → Prepared q c (
              kept L
                (length c.objects)
                (some (fresh_stmt L q h names false))
                q
                (add_object (fresh_stmt L q h names false) c)
                w
                trailing)
      by_trailing (inl e) = simp (e) entered
      by_trailing (inr e) = simp (e) (
          simp (f) (
            refused refl (
              dropped-Inv c (fresh_stmt L q h names false)
                (record (fresh_stmt L q h names false) { is_open = false }) v)))

  by_compiled :
      (q : String) (c : Conn) (r : Compiled × World)
      → find q c.stmts ≡ none
      → Inv c
      → Prepared q c (newly L q (compiled_by L q c r))
  by_compiled q c (not_compiled e, w) f v = refused refl v
  by_compiled q c (compiled h names trailing, w) f v = new-Prepared q c h names trailing w f v

  transient-Prepared :
      (q : String) (c : Conn) (w : World)
      → find q c.stmts ≡ none
      → Inv c
      → Prepared q c (newly L q (prepare_transient L q c w))
  unfolding prepare_transient
  transient-Prepared q c w f v = elim (Option-cases (conn_interrupted L c w)) [
    | inl calm ↦ simp (calm) (by_compiled q c (compile q w) f v)
    | inr (e, stopped) ↦ simp (stopped) (refused refl v)
  ]

  -- Prepare on a connection whose cache has open statements of its queries returns. It gives the
  -- statement of the cache for the query, the same as before where there was one, which is open and
  -- returns no row, but still has the error of a failed binding that it had; or an error, and the cache
  -- is the same. The cache has open statements of its queries again. Condition: the fuel is more than
  -- what the world waits for locks.
  pub prepare-Prepared :
      (settles : Settles L) (fuel : ℕ) (q : String) (c : Conn) (w : World)
      → Inv c
      → settles.patience w < fuel
      → Prepared q c (prepare L fuel q c w)
  unfolding prepare reset
  prepare-Prepared settles fuel q c w v lt = elim (Option-cases (find q c.stmts)) [
    | inl f ↦ simp (f) (transient-Prepared q c w f v)
    | inr (i, f) ↦
        let (s, h) = v q i f in
        let calm = reset-IsCalm L settles fuel i s c w lt in
        simp (f) (
          simp (h.here) (
            after_reset q c i s (reset L fuel i s c w).0 (reset L fuel i s c w).2 calm.value
              calm.ended f h v))
  ]
