-- ===== src/Sqlitefile/File/Reading.antt =====
-- What Read copies.
use go_sqlite.Base.{
  ◌≡◌, refl, sym, ap, ap₂, ◌∙◌, ℕ, zero, suc, ◌+◌, ◌-◌, ◌≤◌, ◌<◌, min, true, false, none, some,
  Option, Bool-cases, [], ◌∷◌, ◌++◌, length, get_or, take, drop, drop-drop, drop-length,
  length-append, length-take, length-drop, arith, le→leb, ◌⊎◌, inl, inr,
}
use go_sqlite.Base.Bytes.{take-take-drop, take-drop-take, take_nothing}
use go_sqlite.Errors.{Error}
use go_sqlite.Sqlitefile.File.{
  Bytes, Position, File, Faults, returned, Method, size_of, sizes, len_of, eq, gt, ahead, past_end,
  read_size, got, got_before, read_loop, or_eof, read, read_blob, eof,
}
use go_sqlite.Sqlitefile.File.Tape.{
  flat, start, InBlob, sizes-suc, get_elem?-get_or, take-drop-flat,
}
use go_sqlite.Sqlitefile.File.Positions.{
  gt-false, gt-total, gt-same, FalselyEqual, FalselyEqual-eq, FalselyEqual-gt,
}
use go_sqlite.Sqlitefile.File.Invariant.{contents, offset_of, Inv}
use go_sqlite.Sqlitefile.File.Steps.{Step, past_end-Step, at, Far, read_size-Far}

-- The bytes of the file from its position on.
abbrev pub ahead_of : File → Bytes
ahead_of f = drop (offset_of f) (contents f)

nothing_ahead : (f : File) (n : ℕ) → len_of f ≤ offset_of f → take n (ahead_of f) ≡ []
nothing_ahead f n le =
    ap (take n) (
      drop-length (offset_of f) (contents f)
        (omega (arith, le, length-take (len_of f) (flat f.blobs))))
    ∙ take_nothing n

module _ (S : Faults) where
  open S use {World, fault}

  -- What the loop of Read ends with.
  data LoopEnd (f : File) (n : ℕ) : Method S Bytes → Type 0 where
    loop_done :
        {bs : Bytes} {w' : World} (q : Position)
        → bs ≡ take n (ahead_of f)
        → InBlob f.blobs q
        → (¬ FalselyEqual f.blobs f.len q)
        → start f.blobs q ≡ offset_of f + length bs
        → (length bs ≡ n) ⊎ (gt f.blobs f.len q ≡ false)
        → LoopEnd f n (returned bs none, at f q, w')
    loop_failed :
        {bs : Bytes} {w' : World} {e : Error} (q : Position) (k : ℕ)
        → k ≤ n
        → bs ≡ take k (ahead_of f)
        → start f.blobs q ≡ offset_of f + length bs
        → LoopEnd f n (returned bs (some e), record f { off = q; error = some e }, w')

  window :
      (f : File) (q : Position) (k : ℕ)
      → start f.blobs q ≡ offset_of f
      → q.offset + k ≤ size_of f.blobs q.index
      → offset_of f + k ≤ len_of f
      → take k (drop q.offset (get_or f.blobs q.index [])) ≡ take k (ahead_of f)
  window f q k e fits within =
      sym (take-drop-flat f.blobs q.index q.offset k fits)
      ∙ ap (λ n. take k (drop n (flat f.blobs))) e
      ∙ sym (take-drop-take k (offset_of f) (len_of f) (flat f.blobs) within)

  further :
      (f : File) (k m n : ℕ)
      → k + m ≡ n
      → take k (ahead_of f) ++ take m (drop (offset_of f + k) (contents f)) ≡ take n (ahead_of f)
  further f k m n e =
      ap (λ xs. take k (ahead_of f) ++ take m xs) (sym (drop-drop (offset_of f) k (contents f)))
      ∙ take-take-drop k m (ahead_of f)
      ∙ ap (λ j. take j (ahead_of f)) e

  -- A chunk before what is read behind it.
  LoopEnd-append :
      (f : File) (q : Position) (bs : Bytes) (m n : ℕ) (r : Method S Bytes)
      → start f.blobs q ≡ offset_of f + length bs
      → bs ≡ take (length bs) (ahead_of f)
      → length bs + m ≡ n
      → LoopEnd (at f q) m r
      → LoopEnd f n (got_before S bs r)
  LoopEnd-append f q bs m n r s here e (loop_done {bs = cs} q' a v apart b c) =
      loop_done q'
        (ap₂ (◌++◌) here (a ∙ ap (λ o. take m (drop o (contents f))) s)
          ∙ further f (length bs) m n e)
        v apart (omega (arith, s, b, length-append bs cs)) (all_or c)
    where
      all_or :
          (length cs ≡ m) ⊎ (gt f.blobs f.len q' ≡ false)
          → (length (bs ++ cs) ≡ n) ⊎ (gt f.blobs f.len q' ≡ false)
      all_or (inl h) = inl (omega (arith, h, e, length-append bs cs))
      all_or (inr h) = inr h
  LoopEnd-append f q bs m n r s here e (loop_failed {bs = cs} q' k le a b) =
      loop_failed q' (length bs + k) (omega (arith, le, e))
        (ap₂ (◌++◌) here (a ∙ ap (λ o. take k (drop o (contents f))) s)
          ∙ further f (length bs) k (length bs + k) refl)
        (omega (arith, s, b, length-append bs cs))

  abbrev Again : ℕ → Type 0
  Again fuel =
      (n : ℕ) (f : File) (w : World)
      → (n < fuel) ⊎ (gt f.blobs f.len f.off ≡ false)
      → Inv f
      → (¬ FalselyEqual f.blobs f.len f.off)
      → LoopEnd f n (read_loop S fuel n f w)

  -- One turn of the loop, where the blob has the bytes.
  chunk-LoopEnd :
      (fuel n k : ℕ) (f : File) (q : Position) (w : World) (flt : Option (ℕ × Error))
      → n ≤ fuel
      → 0 < n
      → Inv f
      → Step f q
      → Far f q n k
      → Again fuel
      → LoopEnd f n (
          got S
            (read_loop S fuel)
            n
            (at f q)
            (read_blob (get_or f.blobs q.index []) q.offset k flt)
            w)
  chunk-LoopEnd fuel n k f q w (some (j, e)) short more v s far again =
      loop_failed (ahead q (length bs)) (min j k) (omega (arith, far.asked))
        (window f q (min j k) s.same_start (omega (arith, far.fits))
          (omega (arith, far.within, s.same_start)))
        (omega (arith, s.same_start))
    where
      bs : Bytes
      bs = take (min j k) (drop q.offset (get_or f.blobs q.index []))
  chunk-LoopEnd fuel n k f q w none short more v s far again = rw (le→leb _ _ far.fits) (
      LoopEnd-append f (ahead q (length bs)) bs (n - length bs) n
        (read_loop S fuel (n - length bs) (at f (ahead q (length bs))) w)
        (omega (arith, s.same_start))
        (window f q k s.same_start far.fits (omega (arith, far.within, s.same_start))
          ∙ ap (λ j. take j (ahead_of f)) (sym count))
        (omega (arith, count, far.asked))
        (again (n - length bs) (at f (ahead q (length bs))) w (on far.onward) there apart))
    where
      bs : Bytes
      bs = take k (drop q.offset (get_or f.blobs q.index []))

      count : length bs ≡ k
      count = omega (
        arith,
        length-take k (drop q.offset (get_or f.blobs q.index [])),
        length-drop q.offset (get_or f.blobs q.index []),
        far.fits,
      )

      there : Inv (at f (ahead q (length bs)))
      there = record {
        no_error = v.no_error;
        full = v.full;
        off_in = record { there = s.there; fits = omega (arith, count, far.fits) };
        len_in = v.len_in;
      }

      on :
          (0 < k) ⊎ ((q.index ≡ f.len.index) × (q.offset + k ≡ f.len.offset))
          → ((n - length bs) < fuel) ⊎ (gt f.blobs f.len (ahead q (length bs)) ≡ false)
      on (inl h) = inl (omega (arith, h, count, short))
      on (inr (a, b)) =
          inr (gt-same f.blobs f.len (ahead q (length bs)) a (omega (arith, b, count)))

      apart : ¬ FalselyEqual f.blobs f.len (ahead q (length bs))
      apart h = ground (arith, far.onward, h.follows, h.at_start, count)

  read_loop-LoopEnd : (fuel : ℕ) → Again fuel
  unfolding read_loop
  read_loop-LoopEnd fuel zero f w _ v apart =
      loop_done f.off refl v.off_in apart (omega arith) (inl refl)
  read_loop-LoopEnd zero (suc n) f w (inl lt) v apart = absurd (omega arith)
  read_loop-LoopEnd zero (suc n) f w (inr e) v apart = simp (e) (
      loop_done f.off
        (sym
          (nothing_ahead f (suc n) (gt-false f.blobs f.len f.off v.full v.len_in v.off_in apart e)))
        v.off_in apart (omega arith) (inr e))
  read_loop-LoopEnd (suc fuel) (suc n) f w enough v apart =
      elim (Bool-cases (gt f.blobs f.len f.off)) [
        | inr e ↦ simp (e) (
            loop_done f.off
              (sym (
                nothing_ahead f (suc n)
                  (gt-false f.blobs f.len f.off v.full v.len_in v.off_in apart e)))
              v.off_in apart (omega arith) (inr e))
        | inl e ↦
            let s = past_end-Step f v e in
            rw (e, get_elem?-get_or f.blobs (past_end f.blobs f.off).index s.there)
              (chunk-LoopEnd fuel (suc n) (read_size (suc n) (at f (past_end f.blobs f.off))) f
                (past_end f.blobs f.off) (fault w).1 (fault w).0 (ground (arith, enough, e))
                (omega arith) v s
                (read_size-Far f (past_end f.blobs f.off) (suc n) (omega arith) v s)
                (λ m g w' lt u a. read_loop-LoopEnd fuel m g w' lt u a))
      ]

  -- What Read of `n` bytes ends with. At the end of the file and behind it, io.EOF. Else the bytes from the
  -- position on, as many as asked for and there are, or a first part of them with an error that the file
  -- keeps; the position is behind them, and the rest of the file is the same.
  pub data FileRead (f : File) (n : ℕ) : Method S Bytes → Type 0 where
    read_all :
        {bs : Bytes} {w' : World} (q : Position)
        → offset_of f < len_of f
        → bs ≡ take n (ahead_of f)
        → start f.blobs q ≡ offset_of f + length bs
        → Inv (at f q)
        → FileRead f n (returned bs none, at f q, w')
    at_end :
        {w' : World} (q : Position)
        → len_of f ≤ offset_of f
        → start f.blobs q ≡ offset_of f
        → Inv (at f q)
        → FileRead f n (returned [] (some eof), at f q, w')
    read_some :
        {bs : Bytes} {w' : World} {e : Error} (q : Position) (k : ℕ)
        → k ≤ n
        → bs ≡ take k (ahead_of f)
        → start f.blobs q ≡ offset_of f + length bs
        → FileRead f n (returned bs (some e), record f { off = q; error = some e }, w')

  from_loop :
      (f : File) (n : ℕ) (r : Method S Bytes)
      → 0 < n
      → Inv f
      → LoopEnd f n r
      → FileRead f n (or_eof S r)
  from_loop f n r more v (loop_failed {bs = []} q k le a b) = read_some q k le a b
  from_loop f n r more v (loop_failed {bs = x ∷ xs} q k le a b) = read_some q k le a b
  from_loop f n r more v (loop_done {bs = []} q a u apart b (inl c)) = absurd (omega arith)
  from_loop f n r more v (loop_done {bs = []} q a u apart b (inr c)) =
      rw (gt-total f.blobs f.len q c) (
        at_end q (omega (arith, b, gt-false f.blobs f.len q v.full v.len_in u apart c))
          (omega (arith, b))
          (record { no_error = v.no_error; full = v.full; off_in = u; len_in = v.len_in }))
  from_loop f n r more v (loop_done {bs = x ∷ xs} q a u apart b c) =
      read_all q (by_order (leb-or (len_of f) (offset_of f))) a b
        (record { no_error = v.no_error; full = v.full; off_in = u; len_in = v.len_in })
    where
      leb-or : (k m : ℕ) → (k ≤ m) ⊎ (m < k)
      leb-or k m = ground arith

      by_order : (len_of f ≤ offset_of f) ⊎ (offset_of f < len_of f) → offset_of f < len_of f
      by_order (inl le) = let e = a ∙ nothing_ahead f n le in cc
      by_order (inr lt) = lt

  -- Read of one byte or more returns, with what FileRead says. Conditions: the file is well-formed, the
  -- fuel is more than the length of p, and the position is not one that eq takes for the end by mistake.
  pub read-FileRead :
      (fuel n : ℕ) (f : File) (w : World)
      → 0 < n
      → n < fuel
      → Inv f
      → (¬ FalselyEqual f.blobs f.len f.off)
      → FileRead f n (read S fuel n f w)
  unfolding read
  read-FileRead fuel n f w more short v apart = simp (v.no_error) (
      from_loop f n (read_loop S fuel n f w) more v
        (read_loop-LoopEnd fuel n f w (inl short) v apart))

  loop_end :
      (m k : ℕ) (f : File) (w : World)
      → gt f.blobs f.len f.off ≡ false
      → read_loop S m k f w ≡ (returned [] none, f, w)
  unfolding read_loop
  loop_end m zero f w e = refl
  loop_end zero (suc k) f w e = simp (e) refl
  loop_end (suc m) (suc k) f w e = simp (e) refl

  -- Where, in a well-formed file, eq takes the position at the start of a blob for the end of the file,
  -- which is at the end of the next blob, Read returns io.EOF at once, though there are bytes ahead.
  pub read-eof_before_end :
      (fuel n : ℕ) (f : File) (w : World)
      → Inv f
      → FalselyEqual f.blobs f.len f.off
      → (offset_of f < len_of f) × (read S fuel n f w ≡ (returned [] (some eof), f, w))
  unfolding read
  read-eof_before_end fuel n f w v h =
      (bytes_ahead, simp (v.no_error) (simp (loop_stops fuel n) (simp (taken) refl)))
    where
      bytes_ahead : offset_of f < len_of f
      bytes_ahead =
          let e : sizes f.len.index f.blobs ≡ sizes (suc f.off.index) f.blobs =
            ap (λ i. sizes i f.blobs) h.follows in
          omega
            (arith, e, sizes-suc f.off.index f.blobs, v.full f.off.index v.off_in.there, h.at_start)

      taken : eq f.blobs f.off f.len ≡ true
      taken = FalselyEqual-eq f.blobs f.len f.off h

      loop_stops : (m k : ℕ) → read_loop S m k f w ≡ (returned [] none, f, w)
      loop_stops m k = loop_end m k f w (FalselyEqual-gt f.blobs f.len f.off h)
