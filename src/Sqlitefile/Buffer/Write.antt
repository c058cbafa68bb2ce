-- ===== src/Sqlitefile/Buffer/Write.antt =====
-- Write, WriteString and WriteByte append to what is unread.
use go_sqlite.Base.{
  ℕ, zero, suc, ◌+◌, ◌-◌, ◌≤◌, ◌<◌, ◌≡◌, refl, sym, ap, ◌∙◌, some, [], ◌∷◌, ◌++◌, arith, min,
  length, drop, take, inl, inr, append_assoc, append-nil, length-take, length-drop,
  take-append-drop,
}
use go_sqlite.Sqlitefile.Slice.{cap_of, append_bytes, cap_of-append_bytes}
use go_sqlite.Sqlitefile.Blobs.{Bytes, Result, ok, err, BlobStore, BlobLaws, Result-cases}
use go_sqlite.Sqlitefile.Buffer.{Buffer, wbuf_ensure_space, write_loop, write, write_byte}
use go_sqlite.Sqlitefile.Buffer.Invariant.{
  unread, Inv, Post, returns, Post-bind, unless_failed-Post, Post-ok, Post-err,
}
use go_sqlite.Sqlitefile.Buffer.Flush.{Roomy, wbuf_ensure_space-Post}

module _ (S : BlobStore) where
  abbrev with_bytes : Buffer S → Bytes → Buffer S
  with_bytes s q = record s { wbuf = append_bytes s.wbuf q }

  append-Inv :
      (n : ℕ) (s : Buffer S) (q : Bytes)
      → Inv S n s
      → length s.wbuf.bytes + length q ≤ n
      → Inv S n (with_bytes s q)
  append-Inv n s q v fits = record {
    no_error = v.no_error;
    page_pos = v.page_pos;
    rbuf_cap = v.rbuf_cap;
    wbuf_cap = cap_of-append_bytes s.wbuf q (omega (arith, v.wbuf_cap)) ∙ v.wbuf_cap;
    roff_le = v.roff_le;
    owned = v.owned;
  }

  unread-append : (s : Buffer S) (q : Bytes) → unread S (with_bytes s q) ≡ unread S s ++ q
  unread-append s q = simp append_assoc

  -- Of a Write of `p` after `m` bytes: all of it is appended, or the error is in the buffer and
  -- fewer bytes are counted.
  abbrev pub WriteOutcome : ℕ → Buffer S → Bytes → ℕ → (ℕ × Result (Unit {0})) × Buffer S → Type 0
  WriteOutcome n s p m ((k, ok _), s') =
      (k ≡ m + length p) × (unread S s' ≡ unread S s ++ p) × Inv S n s'
  WriteOutcome n s p m ((k, err e), s') = (m ≤ k) × (k < m + length p) × (s'.error ≡ some e)

  -- The outcome after a first piece of the bytes was appended.
  outcome_after :
      (n m nn : ℕ) (s s' : Buffer S) (p : Bytes) (r : (ℕ × Result (Unit {0})) × Buffer S)
      → nn ≤ length p
      → unread S s' ≡ unread S s ++ take nn p
      → WriteOutcome n s' (drop nn p) (m + nn) r
      → WriteOutcome n s p m r
  outcome_after n m nn s s' p ((k, ok _), t) le e (count, same, v) = (
    omega (arith, count, length-drop nn p),
    same
        ∙ ap (λ u. u ++ drop nn p) e
        ∙ append_assoc (unread S s) (take nn p) (drop nn p)
        ∙ ap (λ u. unread S s ++ u) (take-append-drop nn p),
    v,
  )
  outcome_after n m nn s s' p ((k, err x), t) le e (low, high, failed) =
      (omega arith, omega (arith, length-drop nn p), failed)

module _ (S : BlobStore) (laws : BlobLaws S) where
  write_loop-total :
      (n fuel m : ℕ) (p : Bytes) (s : Buffer S)
      → Inv S n s
      → length p < fuel
      → (r : (ℕ × Result (Unit {0})) × Buffer S) × (write_loop S fuel m p s ≡ some r)
        × WriteOutcome S n s p m r
  unfolding write_loop
  write_loop-total n zero m p s v h = elim h [ ]
  write_loop-total n (suc fuel) m [] s v h =
      (((m, ok tt), s), refl, (omega arith, sym (append-nil (unread S s)), v))
  write_loop-total n (suc fuel) m (x ∷ xs) s v h = elim (Result-cases (wbuf_ensure_space S s).0) [
    | inr (e, q) ↦ (
      ((m, err e), (wbuf_ensure_space S s).1),
      rw (q, write_loop),
      (omega arith, omega arith, Post-err S (wbuf_ensure_space-Post S laws n s v) q),
    )
    | inl (_, q) ↦
        let a : Roomy S laws n s (wbuf_ensure_space S s).1 =
          Post-ok S (wbuf_ensure_space-Post S laws n s v) q in
        let t = (wbuf_ensure_space S s).1 in
        let nn = min (length (x ∷ xs)) (cap_of t.wbuf - length t.wbuf.bytes) in
        let t' = with_bytes S t (take nn (x ∷ xs)) in
        let v' : Inv S n t' =
          append-Inv S n t (take nn (x ∷ xs)) a.inv
            (omega (arith, length-take nn (x ∷ xs), a.room, a.inv.wbuf_cap)) in
        let (r, e, out) =
          write_loop-total n fuel (m + nn) (drop nn (x ∷ xs)) t' v'
            (omega (arith, length-drop nn (x ∷ xs), a.room, a.inv.wbuf_cap)) in
        (
          r,
          rw (q, write_loop) e,
          outcome_after S n m nn s t' (x ∷ xs) r (omega arith)
              (unread-append S t (take nn (x ∷ xs)) ∙ ap (λ u. u ++ take nn (x ∷ xs)) a.same_unread)
              out,
        )
  ]

  -- Write ends. On a buffer that has not failed it appends all of the bytes and reports their
  -- number, or reports fewer with an error, which the buffer keeps.
  pub write_appends :
      (n : ℕ) (p : Bytes) (s : Buffer S)
      → Inv S n s
      → (r : (ℕ × Result (Unit {0})) × Buffer S) × (write S p s ≡ some r) × WriteOutcome S n s p 0 r
  unfolding write
  write_appends n p s v =
      let (r, e, out) = write_loop-total n (suc (length p)) 0 p s v (omega arith) in
      (r, simp (v.no_error, write) e, out)

  -- WriteByte on a buffer that has not failed appends the byte, or the buffer keeps the error.
  pub write_byte_appends :
      (n c : ℕ) (s : Buffer S)
      → Inv S n s
      → Post S
          (λ _ s'. Inv S n s' × (unread S s' ≡ unread S s ++ c ∷ []))
          (λ e s'. s'.error ≡ some e)
          (write_byte S c s)
  unfolding write_byte
  write_byte_appends n c s v = unless_failed-Post S _ s v.no_error (
      Post-bind S (wbuf_ensure_space S) _ s (wbuf_ensure_space-Post S laws n s v) λ _ t a. returns (
        append-Inv S n t (c ∷ []) a.inv (omega (arith, a.room)),
        unread-append S t (c ∷ []) ∙ ap (λ u. u ++ c ∷ []) a.same_unread,
      ))
