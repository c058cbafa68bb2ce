-- ===== src/Sqlitex/Pool.antt =====
-- sqlitex/pool.go: a pool of connections that goroutines share. A connection is a number, as pointers are
-- compared only. What a goroutine does in one go is one function: to receive from a channel, to send,
-- or the body between Lock and Unlock. Pool.System has the goroutines and how their steps interleave.
pub mod Counts
pub mod System
pub mod Moves
pub mod Invariant
pub mod Closing
pub mod Opening
mod Tests
use Prim.Native.String.{String}
use go_sqlite.Base.{
  ℕ, zero, suc, Bool, true, false, not, ◌&&◌, Option, none, some, List, [], ◌∷◌, ◌++◌, length, ltb,
  ◌==◌, if◌then◌else◌,
}
use go_sqlite.Errors.{Error, message, Result, ok, err}

-- How often a number is in a list, and the list without its first occurrence.
abbrev pub count : ℕ → List ℕ → ℕ
count c [] = 0
count c (x ∷ xs) = let rest = count c xs in if x == c then suc rest else rest

abbrev pub member : ℕ → List ℕ → Bool
member c xs = ltb 0 (count c xs)

abbrev pub remove : ℕ → List ℕ → List ℕ
remove c [] = []
remove c (x ∷ xs) = let rest = remove c xs in if x == c then xs else x ∷ rest

-- `all` has the keys of the map, and `cancels` those whose function is not empty; `inited` has the keys
-- of its map. `prepares`: there is a function to prepare connections. `capacity` is that of `free`.
pub record Pool : Type 0 where
  pub free : List ℕ
  pub capacity : ℕ
  pub closed : Bool
  pub prepares : Bool
  pub all : List ℕ
  pub cancels : List ℕ
  pub inited : List ℕ

-- case conn := <-p.free, where there is one
abbrev pub receive_from : Pool → List ℕ → Option (ℕ × Pool)
receive_from p [] = none
receive_from p (c ∷ cs) = some (c, record p { free = cs })

unfoldable pub receive : Pool → Option (ℕ × Pool)
receive p = receive_from p p.free

-- p.free <- conn
unfoldable pub send : ℕ → Pool → Pool
send c p = record p { free = p.free ++ (c ∷ []) }

-- p.all[conn] = cancel
unfoldable pub register : ℕ → Pool → Pool
register c p = record p { cancels = c ∷ remove c p.cancels }

-- !inited, in Take
abbrev pub needs_prepare : ℕ → Pool → Bool
needs_prepare c p = p.prepares && not (member c p.inited)

-- p.inited[conn] = struct{}{}
unfoldable pub mark_inited : ℕ → Pool → Pool
mark_inited c p = record p { inited = if member c p.inited then p.inited else c ∷ p.inited }

-- The part of put before it sends; `none` is the panic on a connection of another pool.
unfoldable pub release : ℕ → Pool → Option Pool
release c p = if member c p.all then some (record p { cancels = remove c p.cancels }) else none

-- What Put ends with, for the connection and whether a statement of it is active.
pub data PutEnd : Type 0 where
  ignored panics_active panics_foreign : PutEnd
  released : ℕ → Pool → PutEnd

abbrev pub released_or_panics : ℕ → Option Pool → PutEnd
released_or_panics c none = panics_foreign
released_or_panics c (some p) = released c p

-- Put, before it sends; nil is `none`.
unfoldable pub put : Bool → Option ℕ → Pool → PutEnd
put active none p = ignored
put true (some c) p = panics_active
put false (some c) p = released_or_panics c (release c p)

-- Close, before its loop: the number of connections to wait for, and the pool; a second Close panics.
unfoldable pub begin_close : Pool → Option (ℕ × Pool)
begin_close p =
    if p.closed then none else some (length p.all, record p { closed = true; cancels = [] })

-- if err2 := conn.Close(); err == nil { err = err2 }
abbrev pub first_of : Option Error → Option Error → Option Error
first_of none e = e
first_of (some e) e2 = some e

-- poolSize < 1; a size below 1 is 0 here.
abbrev pub pool_size : ℕ → ℕ
pool_size zero = 10
pool_size (suc n) = suc n

abbrev pub empty_pool : ℕ → Bool → Pool
empty_pool n prepares = record {
  free = [];
  capacity = n;
  closed = false;
  prepares = prepares;
  all = [];
  cancels = [];
  inited = [];
}

abbrev pub with_conn : ℕ → Pool → Pool
with_conn c p = record p { free = p.free ++ (c ∷ []); all = c ∷ p.all }

-- for i := 0; i < poolSize; i++, with the rounds that are left; what OpenConn returns the i-th time is
-- an argument. Where it fails, the pool so far is closed.
abbrev pub opened_by : (Pool → Result Pool × List ℕ) → Pool → Result ℕ → Result Pool × List ℕ
opened_by rest p (err e) = (err e, p.free)
opened_by rest p (ok c) = rest (with_conn c p)

unfoldable pub open_conns : (ℕ → Result ℕ) → ℕ → ℕ → Pool → Result Pool × List ℕ
open_conns open_conn i zero p = (ok p, [])
open_conns open_conn i (suc k) p = opened_by (open_conns open_conn (suc i) k) p (open_conn i)

-- NewPool, with the connections that it closes where it fails
unfoldable pub new_pool : Bool → ℕ → Bool → (ℕ → Result ℕ) → Result Pool × List ℕ
new_pool true size prepares open_conn =
    (err (message "sqlite: \":memory:\" does not work with multiple connections"), [])
new_pool false size prepares open_conn =
    open_conns open_conn 0 (pool_size size) (empty_pool (pool_size size) prepares)
