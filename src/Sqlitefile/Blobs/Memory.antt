-- ===== src/Sqlitefile/Blobs/Memory.antt =====
-- A temporary table kept in memory: rows are numbered from 0, and a row's number is its handle.
-- It shows that `BlobLaws` can be met, and runs the tests.
use go_sqlite.Base.{
  ℕ, suc, ◌≤◌, ◌≡◌, refl, [], ◌++◌, arith, length, take, drop, replicate, length-replicate, ltb,
  leb, ◌==◌, if◌then◌else◌,
}
use go_sqlite.Sqlitefile.Blobs.{
  Bytes, eof, sqlite, Result, ok, err, BlobStore, BlobLaws, IsLive, Keeps, KeepsOthers,
}

pub record Table : Type 0 where
  pub next : ℕ
  pub row : ℕ → Bytes

abbrev update : (ℕ → Bytes) → ℕ → Bytes → ℕ → Bytes
update f a p b = if a == b then p else f b

abbrev insert_row : ℕ → Table → Result ℕ × Table
insert_row n t =
    (ok t.next, record { next = suc t.next; row = update t.row t.next (replicate n 0) })

-- SQLITE_ERROR is 1.
abbrev open_row : ℕ → Table → Result ℕ × Table
open_row r t = (if ltb r t.next then ok r else err (sqlite 1), t)

abbrev write_row : ℕ → Bytes → Table → Result (Unit {0}) × Table
write_row b p t =
    if leb (length p) (length (t.row b))
    then (ok tt, record t { row = update t.row b (p ++ drop (length p) (t.row b)) })
    else (err (sqlite 1), t)

abbrev read_row : ℕ → ℕ → Table → Bytes × Result (Unit {0}) × Table
read_row b n t = (take n (t.row b), if leb n (length (t.row b)) then ok tt else err eof, t)

abbrev pub memory : BlobStore
memory = record {
  Conn = Table;
  Blob = ℕ;
  create_table = λ t. (ok tt, t);
  insert_zero_blob = insert_row;
  open_blob = open_row;
  seek_start = λ b t. (ok tt, t);
  write = write_row;
  read_full = read_row;
  close = λ b t. (ok tt, t);
  delete_row = λ r t. (ok tt, t);
  is_live = λ t b. ltb b t.next;
  content = λ t b. t.row b;
}

abbrev pub empty_table : Table
empty_table = record { next = 0; row = λ r. [] }

opened :
    (n : ℕ) (c : Table) (r : ℕ) (b : ℕ)
    → (insert_row n c).0 ≡ ok r
    → (open_row r (insert_row n c).1).0 ≡ ok b
    → (¬ IsLive memory c b)
      × IsLive memory (insert_row n c).1 b
      × (length ((insert_row n c).1.row b) ≡ n)
      × Keeps memory c (insert_row n c).1
opened n c r b p q = (
  λ l. ground arith,
  ground arith,
  ground (arith, length-replicate {A = ℕ} n 0),
  (λ b' l. (ground arith, ground arith)),
)

written :
    (b : ℕ) (p : Bytes) (c : Table)
    → IsLive memory c b
    → (write_row b p c).0 ≡ ok tt
    → IsLive memory (write_row b p c).1 b
      × (length p ≤ length (c.row b))
      × ((write_row b p c).1.row b ≡ p ++ drop (length p) (c.row b))
      × KeepsOthers memory b c (write_row b p c).1
written b p c l q =
    (ground arith, ground arith, ground arith, (λ b' ne l'. (ground arith, ground arith)))

was_read : (b n : ℕ) (c : Table) → (read_row b n c).1 ≡ ok tt → n ≤ length (c.row b)
was_read b n c q = ground arith

pub memory_laws : BlobLaws memory
memory_laws = record {
  opened = opened;
  written = λ b p c l _ q. written b p c l q;
  was_read = λ b n c l _ q. (was_read b n c q, refl, λ b' l'. (l', refl));
}
