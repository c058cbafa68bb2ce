-- ===== src/Sqlitefile/Buffer.antt =====
-- sqlitefile/buffer.go: the first and the last page in memory, the pages between them in blobs.
-- A Go slice that is only ever re-sliced from its start is its bytes and the spare bytes behind
-- them in the same array. Sizes are not bounded: `int` and `int64` do not overflow here.

pub mod Pages
pub mod Invariant
pub mod Flush
pub mod Write
pub mod Read
pub mod Sizes
pub mod Unread
pub mod Failures
mod Tests
use go_sqlite.Sqlitefile.Slice.{Slice, cap_of, make, clear, extend, append_bytes, overwrite}
use go_sqlite.Sqlitefile.Blobs.{
  Bytes, Error, eof, no_byte_to_unread, panic, Result, ok, err, BlobStore,
}
use go_sqlite.Base.{
  ℕ, zero, suc, ◌+◌, ◌-◌, ◌*◌, ◌&&◌, Option, none, some, List, [], ◌∷◌, ◌++◌, min, length, take,
  drop, get_elem?, ltb, ◌==◌, if◌then◌else◌, is_empty,
}

-- The last element of a slice, and the slice without it.
abbrev pub split_last {ℓ} : {A : Type ℓ} → List A → Option (List A × A)
split_last [] = none
split_last (x ∷ xs) = elim (split_last xs) [ none ↦ some ([], x) | some (ys, y) ↦ some (x ∷ ys, y) ]

module _ (S : BlobStore) where
  open S use {
    Conn, Blob, create_table, insert_zero_blob, open_blob, seek_start, write as write_blob,
    read_full, close as close_blob, delete_row,
  }

  pub record TBlob : Type 0 where
    pub blob : Blob
    pub rowid : ℕ

  pub record Buffer : Type 0 where
    pub error : Option Error
    pub rbuf : Slice
    pub roff : ℕ
    pub blobs : List TBlob
    pub wbuf : Slice
    pub freelist : List TBlob
    -- The connection, with all that SQLite keeps for it.
    pub conn : Conn

  -- A method that may fail, with the buffer as it leaves it in both cases.
  abbrev pub Op : Type 0 → Type 0
  Op A = Buffer → Result A × Buffer

  abbrev pub continue : {A B : Type 0} → Result A → (A → Op B) → Op B
  continue (ok a) f s = f a s
  continue (err e) f s = (err e, s)

  infixl 5 ◌>>=◌ ◌>>◌
  abbrev pub ◌>>=◌ : {A B : Type 0} → Op A → (A → Op B) → Op B
  ◌>>=◌ m f s = continue (m s).0 f (m s).1

  abbrev pub ◌>>◌ : {B : Type 0} → Op (Unit {0}) → Op B → Op B
  m >> k = m >>= λ _. k

  -- A call on the connection.
  abbrev pub on_conn : {A : Type 0} → (Conn → Result A × Conn) → Op A
  on_conn call s = ((call s.conn).0, record s { conn = (call s.conn).1 })

  abbrev pub modify : (Buffer → Buffer) → Op (Unit {0})
  modify f s = (ok tt, f s)

  -- if err != nil { bb.err = err; return err }
  abbrev pub sticky : {A : Type 0} → Result A → Op A
  sticky (ok a) s = (ok a, s)
  sticky (err e) s = (err e, record s { error = some e })

  abbrev pub recording : {A : Type 0} → Op A → Op A
  recording m s = sticky (m s).0 (m s).1

  -- if bb.err != nil { return bb.err }
  abbrev pub pass : Option Error → Op (Unit {0})
  pass none s = (ok tt, s)
  pass (some e) s = (err e, s)

  abbrev pub unless_failed : Op (Unit {0})
  unless_failed s = pass s.error s

  pub alloc_new : Op TBlob
  alloc_new s =
      (do
        rowid ← on_conn (insert_zero_blob (length s.rbuf.bytes))
        blob ← on_conn (open_blob rowid)
        λ s'. (ok (record { blob = blob; rowid = rowid }), s'))
        s

  pub alloc : Op TBlob
  alloc s = elim (split_last s.freelist) [
    | some (rest, b) ↦ (ok b, record s { freelist = rest })
    | none ↦ alloc_new s
  ]

  pub free : TBlob → Op (Unit {0})
  free b = modify (λ s. record s { freelist = s.freelist ++ b ∷ [] })

  abbrev pub flush_to : TBlob → Op (Unit {0})
  flush_to b = do
    recording (on_conn (seek_start b.blob))
    recording (λ s. on_conn (write_blob b.blob s.wbuf.bytes) s)
    modify (λ s. record s { blobs = s.blobs ++ b ∷ []; wbuf = clear s.wbuf })

  -- The write buffer is full: move it to a blob.
  pub flush : Op (Unit {0})
  flush = do b ← recording alloc; flush_to b

  -- bb.rbuf, bb.wbuf = bb.wbuf, bb.rbuf[:0]; bb.roff = 0
  abbrev pub swap : Buffer → Buffer
  swap s = record s { rbuf = s.wbuf; wbuf = clear s.rbuf; roff = 0 }

  pub wbuf_ensure_space : Op (Unit {0})
  wbuf_ensure_space s =
      if ltb (length s.wbuf.bytes) (cap_of s.wbuf)
      then (ok tt, s)
      else if is_empty s.blobs && s.roff == length s.rbuf.bytes
      then (ok tt, swap s)
      else flush s

  pub write_byte : ℕ → Op (Unit {0})
  write_byte c = do
    unless_failed
    wbuf_ensure_space
    modify (λ s. record s { wbuf = append_bytes s.wbuf (c ∷ []) })

  pub unread_byte : Op (Unit {0})
  unread_byte = do
    unless_failed
    λ s. elim s.roff [ zero ↦ (err no_byte_to_unread, s) | suc k ↦ (ok tt, record s { roff = k }) ]

  -- The loop of Write and WriteString: `n` bytes are written, `p` is left. `none` means that the
  -- fuel ran out.
  pub write_loop : ℕ → ℕ → Bytes → Buffer → Option ((ℕ × Result (Unit {0})) × Buffer)
  write_loop zero n p s = none
  write_loop (suc fuel) n [] s = some ((n, ok tt), s)
  write_loop (suc fuel) n (x ∷ xs) s =
      let r = wbuf_ensure_space s in
      elim r.0 [
        | err e ↦ some ((n, err e), r.1)
        | ok _ ↦
            let nn = min (length (x ∷ xs)) (cap_of r.1.wbuf - length r.1.wbuf.bytes) in
            write_loop fuel (n + nn) (drop nn (x ∷ xs))
              (record (r.1) { wbuf = append_bytes r.1.wbuf (take nn (x ∷ xs)) })
      ]

  -- Each round writes a byte at least, if pages are not empty.
  pub write : Bytes → Buffer → Option ((ℕ × Result (Unit {0})) × Buffer)
  write p s = elim s.error [
    | some e ↦ some ((0, err e), s)
    | none ↦ write_loop (suc (length p)) 0 p s
  ]

  -- The body is that of Write, over the bytes of a string.
  pub write_string : Bytes → Buffer → Option ((ℕ × Result (Unit {0})) × Buffer)
  write_string p s = write p s

  -- io.ReadFull(tblob.blob, bb.rbuf)
  pub read_page : TBlob → Op (Unit {0})
  read_page b s =
      let r = read_full b.blob (length s.rbuf.bytes) s.conn in
      (r.1, record s { rbuf = overwrite s.rbuf r.0; conn = r.2 })

  pub refill_from : TBlob → List TBlob → Op (Unit {0})
  refill_from b rest = do
    modify (λ s. record s { roff = 0; rbuf = extend s.rbuf; blobs = rest })
    recording (on_conn (seek_start b.blob))
    recording (read_page b)
    free b

  -- The tail of rbufFill, where there are no blobs.
  pub refill_from_wbuf : Op (Unit {0})
  refill_from_wbuf s =
      let s' = (if ltb 0 (length s.wbuf.bytes) then swap s else s) in
      if s'.roff == length s'.rbuf.bytes then (err eof, s') else (ok tt, s')

  pub rbuf_fill : Op (Unit {0})
  rbuf_fill s =
      if ltb s.roff (length s.rbuf.bytes)
      then (ok tt, s)
      else elim s.blobs [ b ∷ rest ↦ refill_from b rest s | [] ↦ refill_from_wbuf s ]

  pub read_byte : Op ℕ
  read_byte = do
    unless_failed
    rbuf_fill
    λ s. elim (get_elem? s.rbuf.bytes s.roff) [
      | none ↦ (err panic, s)
      | some c ↦ (ok c, record s { roff = s.roff + 1 })
    ]

  -- Read(p) for a p of `k` bytes: the bytes copied into p.
  pub read : ℕ → Op Bytes
  read k = do
    unless_failed
    rbuf_fill
    λ s.
        if s.roff == length s.rbuf.bytes
        then (err eof, s)
        else (let out = take k (drop s.roff s.rbuf.bytes) in
            (ok out, record s { roff = s.roff + length out }))

  pub len : Buffer → ℕ
  len s = length s.rbuf.bytes - s.roff + cap_of s.rbuf * length s.blobs + length s.wbuf.bytes

  pub cap : Buffer → ℕ
  cap s = (2 + (length s.blobs + length s.freelist)) * cap_of s.rbuf

  pub reset : Buffer → Buffer
  reset s = record s {
    rbuf = clear s.rbuf;
    wbuf = clear s.wbuf;
    roff = 0;
    freelist = s.freelist ++ s.blobs;
    blobs = [];
  }

  -- if bb.err == nil { bb.err = err }
  abbrev pub keep_first : Option Error → Result (Unit {0}) → Option Error
  keep_first (some e) r = some e
  keep_first none (ok _) = none
  keep_first none (err e) = some e

  -- Run a call for each blob, whatever came of those before.
  pub for_each : (TBlob → Conn → Result (Unit {0}) × Conn) → List TBlob → Buffer → Buffer
  for_each call [] s = s
  for_each call (b ∷ bs) s =
      let r = call b s.conn in
      for_each call bs (record s { error = keep_first s.error r.0; conn = r.1 })

  pub close : Op (Unit {0})
  close s =
      let all = s.blobs ++ s.freelist in
      let s' = for_each (λ b. delete_row b.rowid) all (for_each (λ b. close_blob b.blob) all s) in
      unless_failed (record s' { blobs = []; freelist = [] })

  abbrev pub fresh : ℕ → Conn → Buffer
  fresh page_size c = record {
    error = none;
    rbuf = make page_size;
    roff = 0;
    blobs = [];
    wbuf = make page_size;
    freelist = [];
    conn = c;
  }

  abbrev pub created : ℕ → Result (Unit {0}) × Conn → Result Buffer × Conn
  created page_size (ok _, c) = (ok (fresh page_size c), c)
  created page_size (err e, c) = (err e, c)

  pub new_buffer_size : ℕ → Conn → Result Buffer × Conn
  new_buffer_size page_size c = created page_size (create_table c)

  pub new_buffer : Conn → Result Buffer × Conn
  new_buffer = new_buffer_size (16 * 1024)
