-- ===== src/Sqlitefile/Buffer/Read.antt =====
-- Read and ReadByte take what is unread from its front.
use mathlib.Core.List.{mem-cons_self}
use mathlib.Core.List.Perm
use go_sqlite.Base.{
  ℕ, suc, ◌+◌, ◌≤◌, ◌<◌, ◌≡◌, refl, sym, ap, ap₂, subst, ◌∙◌, some, none, List, [], ◌∷◌, ◌++◌,
  arith, length, drop, take, inl, inr, append_assoc, append-nil, length-append, length-take,
  length-drop, ◌⊎◌, Bool-cases, take-drop_split, drop-eq-cons, lt→ltb, ltb, ==_false, false, ==_iff,
  if◌then◌else◌, ◌==◌, tests, drop-drop, drop-length, get_elem?, take-length,
}
use go_sqlite.Sqlitefile.Slice.{extend, overwrite, cap_of-extend}
use go_sqlite.Sqlitefile.Blobs.{
  Bytes, Error, eof, panic, Result, ok, err, BlobStore, BlobLaws, Keeps,
}
use go_sqlite.Sqlitefile.Buffer.{
  Buffer, TBlob, continue, sticky, read_page, free, refill_from, refill_from_wbuf, rbuf_fill, read,
  read_byte,
}
use go_sqlite.Sqlitefile.Buffer.Pages.{
  pages, Owned, Owned-perm, Owned-Keeps, Owned-tail, pages-Keeps,
}
use go_sqlite.Sqlitefile.Buffer.Invariant.{
  unread, Inv, Post, returns, fails, Post-bind, Post-on_conn, unless_failed-Post,
}
use go_sqlite.Sqlitefile.Buffer.Flush.{front-perm, swap-Inv, unread-swap, unread-used_up}

-- One step back from the read position of `s'` is what was unread in `s`.
abbrev pub CanUnread : (S : BlobStore) → Buffer S → Buffer S → Type 0
CanUnread S s s' = (k : ℕ) × (s'.roff ≡ suc k) × (unread S (record s' { roff = k }) ≡ unread S s)

module _ (S : BlobStore) (laws : BlobLaws S) where
  open S use {content}

  -- After a fill: the same bytes are unread, and the read buffer has the first of them.
  record Filled (n : ℕ) (s s' : Buffer S) : Type 0 where
    inv : Inv S n s'
    same_unread : unread S s' ≡ unread S s
    some_left : s'.roff < length s'.rbuf.bytes

  -- What an error of a read means: nothing is left to read, or the buffer keeps the error.
  abbrev pub NoData : ℕ → Buffer S → Error → Buffer S → Type 0
  NoData n s e s' =
      ((e ≡ eof) × (unread S s ≡ []) × (unread S s' ≡ []) × Inv S n s') ⊎ (s'.error ≡ some e)

  -- The first blob takes the place of the used up read buffer.
  module _ (n : ℕ) (s : Buffer S) (t : TBlob S) (rest : List (TBlob S)) where
    loaded : S.Conn → Bytes → Buffer S
    loaded c bs = record s {
      rbuf = overwrite (extend s.rbuf) bs;
      roff = 0;
      blobs = rest;
      freelist = s.freelist ++ t ∷ [];
      conn = c;
    }

    loaded-Filled :
        (v : Inv S n s)
        → s.blobs ≡ t ∷ rest
        → s.roff ≡ length s.rbuf.bytes
        → (S.seek_start t.blob s.conn).0 ≡ ok tt
        → (S.read_full t.blob (length (extend s.rbuf).bytes) (S.seek_start t.blob s.conn).1).1
          ≡ ok tt
        → Filled n s (
            loaded
              (S.read_full t.blob (length (extend s.rbuf).bytes) (S.seek_start t.blob s.conn).1).2
              (S.read_full t.blob (length (extend s.rbuf).bytes) (S.seek_start t.blob s.conn).1).0)
    unfolding loaded
    loaded-Filled v e used_up p q = record {
      inv = record {
        no_error = v.no_error;
        page_pos = v.page_pos;
        rbuf_cap =
            omega
              (arith, cap_of-extend s.rbuf, v.rbuf_cap, ap length whole, got_length, ext_length);
        wbuf_cap = v.wbuf_cap;
        roff_le = omega arith;
        owned =
            Owned-Keeps S (rest ++ (s.freelist ++ t ∷ [])) law.2
              (Owned-perm S (Perm.symm (front-perm S laws rest s.freelist t)) o);
      };
      same_unread =
          ap₂ ◌++◌ whole (
            ap (λ r. r ++ s.wbuf.bytes)
              (pages-Keeps S rest s.freelist law.2 (Owned-tail S t (rest ++ s.freelist) o)))
          ∙ ap (λ b. b ++ (pages S s.conn rest ++ s.wbuf.bytes)) got_eq
          ∙ sym (append_assoc (content s.conn t.blob) (pages S s.conn rest) s.wbuf.bytes)
          ∙ sym (
              ap₂ ◌++◌ (drop-length s.roff s.rbuf.bytes (omega (arith, used_up)))
                (ap (λ ts. pages S s.conn ts ++ s.wbuf.bytes) e));
      some_left = omega (arith, ap length whole, got_length, v.page_pos);
    }
      where
        o : Owned S s.conn n (t ∷ (rest ++ s.freelist))
        o = subst (λ ts. Owned S s.conn n (ts ++ s.freelist)) e v.owned

        ext : Bytes
        ext = s.rbuf.bytes ++ s.rbuf.spare

        ext_length : length ext ≡ n
        ext_length = length-append s.rbuf.bytes s.rbuf.spare ∙ v.rbuf_cap

        d : S.Conn
        d = (S.read_full t.blob (length ext) (S.seek_start t.blob s.conn).1).2

        got : Bytes
        got = (S.read_full t.blob (length ext) (S.seek_start t.blob s.conn).1).0

        law :
            (length ext ≤ length (content s.conn t.blob))
            × (got ≡ take (length ext) (content s.conn t.blob))
            × Keeps S s.conn d
        law = laws.was_read t.blob (length ext) s.conn (o.live t.blob mem-cons_self) p q

        size : length (content s.conn t.blob) ≡ n
        size = o.sized t.blob mem-cons_self

        got_eq : got ≡ content s.conn t.blob
        got_eq =
            law.1
            ∙ take-length (length ext) (content s.conn t.blob) (omega (arith, size, ext_length))

        got_length : length got ≡ n
        got_length = ap length got_eq ∙ size

        whole : got ++ drop (length got) ext ≡ got
        whole =
            ap (λ r. got ++ r)
              (drop-length (length got) ext (omega (arith, got_length, ext_length)))
            ∙ append-nil got

    refill_from-Post :
        Inv S n s
        → s.blobs ≡ t ∷ rest
        → s.roff ≡ length s.rbuf.bytes
        → Post S (λ _ s'. Filled n s s') (NoData n s) (refill_from S t rest s)
    unfolding refill_from read_page free loaded
    refill_from-Post v e used_up =
        Post-on_conn S (S.seek_start t.blob) _ _ (λ _ p. read_result _ refl p) (λ x. inr refl)
      where
        c : S.Conn
        c = (S.seek_start t.blob s.conn).1

        m : ℕ
        m = length (extend s.rbuf).bytes

        read_result :
            (r : Result (Unit {0}))
            → (S.read_full t.blob m c).1 ≡ r
            → (S.seek_start t.blob s.conn).0 ≡ ok tt
            → let s1 = record s {
              roff = 0;
              rbuf = overwrite (extend s.rbuf) (S.read_full t.blob m c).0;
              blobs = rest;
              conn = (S.read_full t.blob m c).2;
            } in
              Post S
                (λ _ s'. Filled n s s')
                (NoData n s)
                (continue S (sticky S r s1).0 (λ _. free S t) (sticky S r s1).1)
        read_result (ok _) q p = returns (loaded-Filled v e used_up p q)
        read_result (err x) q p = fails (inr refl)

  moved :
      {n : ℕ} (t : Buffer S) (k : ℕ)
      → Inv S n t
      → k ≤ length t.rbuf.bytes
      → Inv S n (record t { roff = k })
  moved t k v h = record {
    no_error = v.no_error;
    page_pos = v.page_pos;
    rbuf_cap = v.rbuf_cap;
    wbuf_cap = v.wbuf_cap;
    roff_le = h;
    owned = v.owned;
  }

  -- What is left behind the bytes that were taken from the read buffer.
  front_split :
      (t : Buffer S) (out : Bytes)
      → out ++ drop (length out) (drop t.roff t.rbuf.bytes) ≡ drop t.roff t.rbuf.bytes
      → unread S t ≡ out ++ unread S (record t { roff = t.roff + length out })
  front_split t out e =
      let rest = pages S t.conn t.blobs ++ t.wbuf.bytes in
      ap (λ u. u ++ rest) (sym e)
      ∙ append_assoc out (drop (length out) (drop t.roff t.rbuf.bytes)) rest
      ∙ ap (λ u. out ++ (u ++ rest)) (drop-drop t.roff (length out) t.rbuf.bytes)

  module _ (n : ℕ) (s : Buffer S) (v : Inv S n s) where
    -- The write buffer is empty too.
    nothing_left :
        s.blobs ≡ []
        → s.roff ≡ length s.rbuf.bytes
        → ltb 0 (length s.wbuf.bytes) ≡ false
        → unread S s ≡ []
    nothing_left none_left used_up h =
        unread-used_up S laws n s v none_left used_up ∙ drop-length 0 s.wbuf.bytes (ground arith)

    refill_from_wbuf-Post :
        s.blobs ≡ []
        → s.roff ≡ length s.rbuf.bytes
        → Post S (λ _ s'. Filled n s s') (NoData n s) (refill_from_wbuf S s)
    unfolding refill_from_wbuf
    refill_from_wbuf-Post none_left used_up = elim (Bool-cases (ltb 0 (length s.wbuf.bytes))) [
      | inl some_written ↦
          rw (some_written, ==_false 0 (length s.wbuf.bytes) some_written)
            (returns (record {
              inv = swap-Inv S laws n s v none_left used_up;
              same_unread = unread-swap S laws n s v none_left used_up;
              some_left = omega (tests, some_written);
            }))
      | inr nothing ↦
          rw (nothing, (==_iff s.roff (length s.rbuf.bytes)).1 used_up)
            (let e = nothing_left none_left used_up nothing in fails (inl (refl, e, e, v)))
    ]

    rbuf_fill-Post : Post S (λ _ s'. Filled n s s') (NoData n s) (rbuf_fill S s)
    unfolding rbuf_fill
    rbuf_fill-Post = elim (Bool-cases (ltb s.roff (length s.rbuf.bytes))) [
      | inl some_left ↦
          rw some_left
            (returns (record { inv = v; same_unread = refl; some_left = omega (tests, some_left) }))
      | inr used_up ↦ rw used_up (by_blobs s.blobs refl (ground (arith, v.roff_le)))
    ]
      where
        by_blobs :
            (ts : List (TBlob S))
            → s.blobs ≡ ts
            → s.roff ≡ length s.rbuf.bytes
            → Post S {A = Unit {0}}
                (λ _ s'. Filled n s s')
                (NoData n s)
                (elim ts [ t ∷ rest ↦ refill_from S t rest s | [] ↦ refill_from_wbuf S s ])
        by_blobs [] e used_up = refill_from_wbuf-Post e used_up
        by_blobs (t ∷ rest) e used_up = refill_from-Post n s t rest v e used_up

    -- Read takes at most `k` bytes from the front of what is unread, and none only if `k` is 0; if
    -- it fails, nothing was left, or the buffer keeps the error.
    pub read_takes_front :
        (k : ℕ)
        → Post S
            (λ out s'.
              (unread S s ≡ out ++ unread S s')
              × (length out ≤ k)
              × (0 < k → 0 < length out)
              × Inv S n s')
            (NoData n s)
            (read S k s)
    unfolding read
    read_takes_front k =
        unless_failed-Post S _ s v.no_error
          (Post-bind S (rbuf_fill S) _ s rbuf_fill-Post λ _ t f. taken t f)
      where
        taken :
            (t : Buffer S)
            → Filled n s t
            → Post S
                (λ out s'.
                  (unread S s ≡ out ++ unread S s')
                  × (length out ≤ k)
                  × (0 < k → 0 < length out)
                  × Inv S n s')
                (NoData n s)
                (if t.roff == length t.rbuf.bytes
                  then (err eof, t)
                  else (let out = take k (drop t.roff t.rbuf.bytes) in
                      (ok out, record t { roff = t.roff + length out })))
        taken t f = rw (==_false t.roff (length t.rbuf.bytes) (lt→ltb _ _ f.some_left)) (
            let out = take k (drop t.roff t.rbuf.bytes) in
            let short = length-take k (drop t.roff t.rbuf.bytes) in
            let left = length-drop t.roff t.rbuf.bytes in
            returns (
              sym f.same_unread ∙ front_split t out (take-drop_split k (drop t.roff t.rbuf.bytes)),
              omega (arith, short),
              (λ pos. omega (arith, short, left, f.some_left)),
              moved t (t.roff + length out) f.inv (omega (arith, short, left, f.some_left)),
            ))

    -- ReadByte takes the first of the unread bytes; if it fails, nothing was left, or the buffer
    -- keeps the error.
    pub read_byte_takes_first :
        Post S
          (λ c s'. (unread S s ≡ c ∷ unread S s') × Inv S n s' × CanUnread S s s')
          (NoData n s)
          (read_byte S s)
    unfolding read_byte
    read_byte_takes_first =
        unless_failed-Post S _ s v.no_error
          (Post-bind S (rbuf_fill S) _ s rbuf_fill-Post λ _ t f. taken t f)
      where
        taken :
            (t : Buffer S)
            → Filled n s t
            → Post S
                (λ c s'. (unread S s ≡ c ∷ unread S s') × Inv S n s' × CanUnread S s s')
                (NoData n s)
                (elim (get_elem? t.rbuf.bytes t.roff) [
                  | none ↦ (err panic, t)
                  | some c ↦ (ok c, record t { roff = t.roff + 1 })
                ])
        taken t f =
            let (c, e, d) = drop-eq-cons t.rbuf.bytes t.roff f.some_left in
            rw e (
              returns (
                sym f.same_unread ∙ ap (λ u. u ++ (pages S t.conn t.blobs ++ t.wbuf.bytes)) d,
                moved t (t.roff + 1) f.inv (omega (arith, f.some_left)),
                (t.roff, omega arith, f.same_unread),
              ))
