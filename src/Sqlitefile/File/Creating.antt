-- ===== src/Sqlitefile/File/Creating.antt =====
-- What NewFileSize makes.
use go_sqlite.Base.{
  ◌≡◌, refl, ℕ, zero, suc, ◌<◌, none, some, Option, Option-cases, [], ◌∷◌, replicate,
  length-replicate, arith, inl, inr,
}
use go_sqlite.Errors.{Error}
use go_sqlite.Sqlitefile.File.{
  File, Faults, cap_of, no_file, at_start, add_blob, created_by, new_file_size,
}
use go_sqlite.Sqlitefile.File.Tape.{IsFull}
use go_sqlite.Sqlitefile.File.Invariant.{contents, offset_of, Inv}

module _ (S : Faults) where
  open S use {World, fault}

  -- An empty file of a capacity, at its start; or an error.
  pub data Made (n : ℕ) : Option Error × File × World → Type 0 where
    made :
        {f : File} {w : World}
        → Inv f
        → contents f ≡ []
        → offset_of f ≡ 0
        → cap_of f ≡ n
        → Made n (none, f, w)
    not_made : {f : File} {w : World} (e : Error) → f.blobs ≡ [] → Made n (some e, f, w)

  fresh : ℕ → File
  fresh n = record { error = none; blobs = replicate n 0 ∷ []; off = at_start; len = at_start }

  fresh-Inv : (n : ℕ) → 0 < n → Inv (fresh n)
  unfolding fresh
  fresh-Inv n more = record {
    no_error = refl;
    full = one_blob;
    off_in = record { there = omega arith; fits = omega arith };
    len_in = record { there = omega arith; fits = omega arith };
  }
    where
      one_blob : IsFull (replicate n 0 ∷ [])
      one_blob zero lt = omega (arith, more, length-replicate {A = ℕ} n 0)
      one_blob (suc i) lt = absurd (omega arith)

  added : (n : ℕ) (w : World) → 0 < n → Made n (add_blob S n no_file w)
  unfolding fresh
  added n w more = elim (Option-cases (fault w).0) [
    | inl q ↦
        simp (q) (made (fresh-Inv n more) refl refl (omega (arith, length-replicate {A = ℕ} n 0)))
    | inr ((k, e), q) ↦ simp (q) (not_made e refl)
  ]

  from_table : (n : ℕ) (r : Option (ℕ × Error) × World) → 0 < n → Made n (created_by S n r)
  from_table n (some (k, e), w) more = not_made e refl
  from_table n (none, w) more = added n w more

  -- NewFileSize of a capacity of a byte or more gives a well-formed file with no bytes, at its start,
  -- and of that capacity; or the error of a call that failed, and no blob is kept.
  pub new_file_size-Made : (n : ℕ) (w : World) → 0 < n → Made n (new_file_size S n w)
  unfolding new_file_size fresh
  new_file_size-Made n w more = from_table n (fault w) more
