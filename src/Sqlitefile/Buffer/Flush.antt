-- ===== src/Sqlitefile/Buffer/Flush.antt =====
-- alloc, and the flush of a full write buffer to a blob.
use mathlib.Core.List.{Mem, Perm, mem-cons_self, perm_middle}
use mathlib.Core.List.Perm
use go_sqlite.Base.{
  ℕ, ◌≤◌, ◌<◌, ◌≡◌, ◌≢◌, refl, sym, ap, ap₂, subst, ◌∙◌, some, List, [], ◌∷◌, ◌++◌, arith, length,
  drop, drop-length, inl, inr, Option-cases, Bool-cases, true, ltb, ◌==◌, ◌&&◌, tests, is_empty,
  is_empty-eq, append_assoc, append-nil,
}
use go_sqlite.Sqlitefile.Slice.{cap_of, clear, cap_of-clear}
use go_sqlite.Sqlitefile.Blobs.{Error, Result, ok, err, BlobStore, BlobLaws, IsLive, KeepsOthers}
use go_sqlite.Sqlitefile.Buffer.{
  Buffer, TBlob, continue, recording, alloc, alloc_new, flush_to, flush, wbuf_ensure_space,
  split_last, swap,
}
use go_sqlite.Sqlitefile.Buffer.Pages.{
  pages, handles, Owned, Owned-perm, Owned-Keeps, Owned-tail, Owned-head_fresh, Owned-cons,
  pages-Keeps, pages-KeepsOthers, pages-append, split_last-eq,
}
use go_sqlite.Sqlitefile.Buffer.Invariant.{
  unread, Inv, Post, returns, fails, Post-bind, Post-on_conn, Post-recording, Post-weaken,
}

module _ (S : BlobStore) (laws : BlobLaws S) where
  open S use {content}

  -- What `alloc` returns: a blob that no list of the buffer holds any more.
  record Allocated (n : ℕ) (s : Buffer S) (t : TBlob S) (s' : Buffer S) : Type 0 where
    shape : s' ≡ record s { freelist = s'.freelist; conn = s'.conn }
    live : IsLive S s'.conn t.blob
    new_size : s.freelist ≡ [] → length (content s'.conn t.blob) ≡ length s.rbuf.bytes
    size_le : length (content s'.conn t.blob) ≤ n
    fresh : ¬ Mem t.blob (handles S (s.blobs ++ s'.freelist))
    owned : Owned S s'.conn n (s.blobs ++ s'.freelist)
    kept : pages S s'.conn s.blobs ≡ pages S s.conn s.blobs

  abbrev Anything : Error → Buffer S → Type 0
  Anything e s = Unit

  alloc_new-Post :
      (n : ℕ) (s : Buffer S) → Inv S n s → Post S (Allocated n s) Anything (alloc_new S s)
  unfolding alloc_new
  alloc_new-Post n s v = inserted (S.insert_zero_blob (length s.rbuf.bytes) s.conn).0 refl
    where
      c : S.Conn
      c = (S.insert_zero_blob (length s.rbuf.bytes) s.conn).1

      opened :
          (r : Result S.Blob) (rowid : ℕ)
          → (S.insert_zero_blob (length s.rbuf.bytes) s.conn).0 ≡ ok rowid
          → (S.open_blob rowid c).0 ≡ r
          → Post S (Allocated n s) Anything (
              continue S r
                (λ blob s'. (ok (record { blob = blob; rowid = rowid }), s'))
                (record s { conn = (S.open_blob rowid c).1 }))
      opened (err e) rowid p q = fails tt
      opened (ok b) rowid p q =
          let (new, live, size, keeps) = laws.opened (length s.rbuf.bytes) s.conn rowid b p q in
          returns (record {
            shape = refl;
            live = live;
            new_size = λ _. size;
            size_le = omega arith;
            fresh = λ m. new (v.owned.live b m);
            owned = Owned-Keeps S (s.blobs ++ s.freelist) keeps v.owned;
            kept = pages-Keeps S s.blobs s.freelist keeps v.owned;
          })

      inserted :
          (r : Result ℕ)
          → (S.insert_zero_blob (length s.rbuf.bytes) s.conn).0 ≡ r
          → Post S (Allocated n s) Anything (
              continue S r
                (λ rowid. λ s1.
                  continue S
                    (S.open_blob rowid s1.conn).0
                    (λ blob s'. (ok (record { blob = blob; rowid = rowid }), s'))
                    (record s1 { conn = (S.open_blob rowid s1.conn).1 }))
                (record s { conn = c }))
      inserted (err e) p = fails tt
      inserted (ok rowid) p = opened (S.open_blob rowid c).0 rowid p refl

  pub front-perm :
      (ts rest : List (TBlob S)) (t : TBlob S) → Perm (ts ++ (rest ++ t ∷ [])) (t ∷ (ts ++ rest))
  front-perm ts rest t = rw (← append_assoc) (
      subst (λ us. Perm ((ts ++ rest) ++ t ∷ []) (t ∷ us)) (append-nil (ts ++ rest))
        (perm_middle (ts ++ rest) []))

  not_empty : (ts : List (TBlob S)) (t : TBlob S) → ts ++ t ∷ [] ≢ []
  not_empty [] t e = cc
  not_empty (x ∷ ts) t e = cc

  popped :
      (n : ℕ) (s : Buffer S) (rest : List (TBlob S)) (t : TBlob S)
      → s.freelist ≡ rest ++ t ∷ []
      → Inv S n s
      → Allocated n s t (record s { freelist = rest })
  popped n s rest t e v = record {
    shape = refl;
    live = o.live t.blob mem-cons_self;
    new_size = λ none_free. absurd (not_empty rest t (sym e ∙ none_free));
    size_le = omega (arith, o.sized t.blob mem-cons_self);
    fresh = Owned-head_fresh S t (s.blobs ++ rest) o;
    owned = Owned-tail S t (s.blobs ++ rest) o;
    kept = refl;
  }
    where
      o : Owned S s.conn n (t ∷ (s.blobs ++ rest))
      o =
          Owned-perm S (front-perm s.blobs rest t)
            (subst (λ us. Owned S s.conn n (s.blobs ++ us)) e v.owned)

  alloc-Post : (n : ℕ) (s : Buffer S) → Inv S n s → Post S (Allocated n s) Anything (alloc S s)
  unfolding alloc
  alloc-Post n s v = elim (Option-cases (split_last s.freelist)) [
    | inl e ↦ rw (e, alloc) (alloc_new-Post n s v)
    | inr ((rest, t), e) ↦
        rw (e, alloc) (returns (popped n s rest t (split_last-eq s.freelist rest t e) v))
  ]

  -- The write buffer is full.
  abbrev pub IsFull : Buffer S → Type 0
  IsFull s = cap_of s.wbuf ≤ length s.wbuf.bytes

  -- After room was made: the same bytes are unread, and there is room.
  pub record Roomy (n : ℕ) (s s' : Buffer S) : Type 0 where
    pub inv : Inv S n s'
    pub same_unread : unread S s' ≡ unread S s
    pub room : length s'.wbuf.bytes < n

  module _ (n : ℕ) (s : Buffer S) (v : Inv S n s) (full : IsFull s) where
    -- The flush succeeds only if a blob is free or the read buffer has a whole page: a new blob is
    -- as long as the read buffer.
    abbrev Flushed : Unit {0} → Buffer S → Type 0
    Flushed _ s' = Roomy n s s' × (s.freelist ≡ [] → n ≤ length s.rbuf.bytes)

    in_shape :
        (t : TBlob S) (s1 : Buffer S)
        → Allocated n s t s1
        → Allocated n s t (record s { freelist = s1.freelist; conn = s1.conn })
    in_shape t s1 a = record {
      shape = refl;
      live = a.live;
      new_size = a.new_size;
      size_le = a.size_le;
      fresh = a.fresh;
      owned = a.owned;
      kept = a.kept;
    }

    module _ (t : TBlob S) (fs : List (TBlob S)) (c : S.Conn)
        (a : Allocated n s t (record s { freelist = fs; conn = c })) where
      pushed :
          (S.seek_start t.blob c).0 ≡ ok tt
          → (S.write t.blob s.wbuf.bytes (S.seek_start t.blob c).1).0 ≡ ok tt
          → Flushed tt (record s {
            blobs = s.blobs ++ t ∷ [];
            wbuf = clear s.wbuf;
            freelist = fs;
            conn = (S.write t.blob s.wbuf.bytes (S.seek_start t.blob c).1).1;
          })
      pushed p q = (
        record {
          inv = record {
            no_error = v.no_error;
            page_pos = v.page_pos;
            rbuf_cap = v.rbuf_cap;
            wbuf_cap = cap_of-clear s.wbuf ∙ v.wbuf_cap;
            roff_le = v.roff_le;
            owned = rw append_assoc (
                Owned-perm S (Perm.symm (perm_middle s.blobs fs)) (
                  Owned-cons S t (s.blobs ++ fs) a.owned a.fresh law.3 law.0
                    (ap length holds ∙ omega (arith, full, v.wbuf_cap))));
          };
          same_unread =
              ap (λ r. drop s.roff s.rbuf.bytes ++ r)
                (append-nil (pages S d (s.blobs ++ t ∷ []))
                  ∙ pages-append S d s.blobs (t ∷ [])
                  ∙ ap₂ ◌++◌ (pages-KeepsOthers S t s.blobs fs law.3 a.owned a.fresh ∙ a.kept)
                      (append-nil (content d t.blob) ∙ holds));
          room = v.page_pos;
        },
        page_fits,
      )
        where
          d : S.Conn
          d = (S.write t.blob s.wbuf.bytes (S.seek_start t.blob c).1).1

          law :
              IsLive S d t.blob
              × (length s.wbuf.bytes ≤ length (content c t.blob))
              × (content d t.blob ≡ s.wbuf.bytes ++ drop (length s.wbuf.bytes) (content c t.blob))
              × KeepsOthers S t.blob c d
          law = laws.written t.blob s.wbuf.bytes c a.live p q

          holds : content d t.blob ≡ s.wbuf.bytes
          holds =
              law.2
              ∙ ap (λ r. s.wbuf.bytes ++ r)
                  (drop-length (length s.wbuf.bytes) (content c t.blob)
                    (omega (arith, a.size_le, v.wbuf_cap)))
              ∙ append-nil s.wbuf.bytes

          -- A new blob can take the page only if it has the page size.
          page_fits : s.freelist ≡ [] → n ≤ length s.rbuf.bytes
          page_fits none_free = omega (arith, law.1, a.new_size none_free, v.wbuf_cap)

    pub flush-Post : Post S Flushed (λ e s'. s'.error ≡ some e) (flush S s)
    unfolding flush
    flush-Post =
        Post-bind S (recording S (alloc S)) _ s (Post-recording S (alloc-Post n s v)) λ t s1 a.
          subst (λ u. Post S Flushed (λ e s'. s'.error ≡ some e) (flush_to S t u)) (sym a.shape)
            (Post-on_conn S (S.seek_start t.blob) _ _
              (λ _ p.
                Post-on_conn S (S.write t.blob s.wbuf.bytes) _ _
                  (λ _ q. returns (pushed t s1.freelist s1.conn (in_shape t s1 a) p q)) (λ e. refl))
              (λ e. refl))

  -- The read buffer is used up and there are no blobs: the write buffer takes its place.
  module _ (n : ℕ) (s : Buffer S) (v : Inv S n s) (none_left : s.blobs ≡ [])
      (used_up : s.roff ≡ length s.rbuf.bytes) where
    pub swap-Inv : Inv S n (swap S s)
    swap-Inv = record {
      no_error = v.no_error;
      page_pos = v.page_pos;
      rbuf_cap = v.wbuf_cap;
      wbuf_cap = cap_of-clear s.rbuf ∙ v.rbuf_cap;
      roff_le = omega arith;
      owned = v.owned;
    }

    no_pages : pages S s.conn s.blobs ≡ []
    no_pages = ap (pages S s.conn) none_left

    pub unread-used_up : unread S s ≡ s.wbuf.bytes
    unread-used_up =
        ap₂ ◌++◌ (drop-length s.roff s.rbuf.bytes (omega (arith, used_up)))
          (ap (λ r. r ++ s.wbuf.bytes) no_pages)

    pub unread-swap : unread S (swap S s) ≡ unread S s
    unread-swap =
        ap (λ r. s.wbuf.bytes ++ r) (append-nil (pages S s.conn s.blobs) ∙ no_pages)
        ∙ append-nil s.wbuf.bytes
        ∙ sym unread-used_up

  swap_test :
      (s : Buffer S)
      → (is_empty s.blobs && s.roff == length s.rbuf.bytes) ≡ true
      → (s.blobs ≡ []) × (s.roff ≡ length s.rbuf.bytes)
  swap_test s h = (is_empty-eq s.blobs (ground arith), ground arith)

  -- Where Buffer makes room for a byte, it keeps what is unread, whichever way it takes; if it
  -- fails, the error is in the buffer.
  pub wbuf_ensure_space-Post :
      (n : ℕ) (s : Buffer S)
      → Inv S n s
      → Post S (λ _ s'. Roomy n s s') (λ e s'. s'.error ≡ some e) (wbuf_ensure_space S s)
  unfolding wbuf_ensure_space
  wbuf_ensure_space-Post n s v = elim (Bool-cases (ltb (length s.wbuf.bytes) (cap_of s.wbuf))) [
    | inl room ↦
        rw room (returns (record { inv = v; same_unread = refl; room = omega (tests, v.wbuf_cap) }))
    | inr full ↦ rw full (elim (Bool-cases (is_empty s.blobs && s.roff == length s.rbuf.bytes)) [
      | inl used_up ↦ rw used_up (
          let e : (s.blobs ≡ []) × (s.roff ≡ length s.rbuf.bytes) = swap_test s used_up in
          returns (record {
            inv = swap-Inv n s v e.0 e.1;
            same_unread = unread-swap n s v e.0 e.1;
            room = v.page_pos;
          }))
      | inr kept ↦ rw kept (Post-weaken S (λ _ _ f. f.0) (flush-Post n s v (ground arith)))
    ])
  ]
