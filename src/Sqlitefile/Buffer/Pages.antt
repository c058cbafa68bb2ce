-- ===== src/Sqlitefile/Buffer/Pages.antt =====
-- The blobs that a Buffer owns: distinct open handles, a page each, and the bytes that they hold.
use mathlib.Core.List.{
  Mem, Nodup, Perm, mem-append_left, mem-cons_self, mem-cons_of_mem, mem-cons, Nodup-cons,
  map-append,
}
use mathlib.Core.List.Perm
use mathlib.Core.Logic.Or
use go_sqlite.Base.{
  ℕ, ◌*◌, ◌≡◌, refl, ap, ◌≢◌, ◌∙◌, subst, List, [], ◌∷◌, ◌++◌, map, append_assoc, arith, length,
  length-append, some, Bool, Option-cases, inl, inr,
}
use go_sqlite.Sqlitefile.Blobs.{Bytes, BlobStore, Keeps, KeepsOthers, IsLive}
use go_sqlite.Sqlitefile.Buffer.{TBlob, split_last}

Bool-eq_prop : {a b : Bool} → IsProp (a ≡ b)
Bool-eq_prop = hlevel

ℕ-eq_prop : {a b : ℕ} → IsProp (a ≡ b)
ℕ-eq_prop = hlevel

pub split_last-eq {ℓ} :
    {A : Type ℓ} (ts rest : List A) (t : A) → split_last ts ≡ some (rest, t) → ts ≡ rest ++ t ∷ []
split_last-eq [] rest t e = cc
split_last-eq (x ∷ []) rest t e = ground arith
split_last-eq (x ∷ y ∷ ys) rest t e = elim (Option-cases (split_last (y ∷ ys))) [
  | inl p ↦ ground arith
  | inr ((zs, z), p) ↦ ground (arith, split_last-eq (y ∷ ys) zs z p)
]

module _ (S : BlobStore) where
  open S use {Conn, Blob, content}

  abbrev pub handles : List (TBlob S) → List Blob
  handles = map (λ t. t.blob)

  abbrev pub pages : Conn → List (TBlob S) → Bytes
  pages c [] = []
  pages c (t ∷ ts) = content c t.blob ++ pages c ts

  -- The blobs are open and distinct, and each has `n` bytes.
  pub record Owned (c : Conn) (n : ℕ) (ts : List (TBlob S)) : Type 0 where
    pub distinct : Nodup (handles ts)
    pub live : (b : Blob) → Mem b (handles ts) → IsLive S c b
    pub sized : (b : Blob) → Mem b (handles ts) → length (content c b) ≡ n

  pub Owned-perm :
      {c : Conn} {n : ℕ} {ts us : List (TBlob S)} → Perm ts us → Owned c n ts → Owned c n us
  Owned-perm p o = record {
    distinct = Perm.nodup (Perm.map _ p) o.distinct;
    live = λ b m. o.live b ((Perm.mem_iff (Perm.map _ p)).1 m);
    sized = λ b m. o.sized b ((Perm.mem_iff (Perm.map _ p)).1 m);
  }

  pub Owned-tail :
      {c : Conn} {n : ℕ} (t : TBlob S) (ts : List (TBlob S)) → Owned c n (t ∷ ts) → Owned c n ts
  Owned-tail t ts o = record {
    distinct = (Nodup-cons.0 o.distinct).1;
    live = λ b m. o.live b (mem-cons_of_mem _ m);
    sized = λ b m. o.sized b (mem-cons_of_mem _ m);
  }

  pub Owned-head_fresh :
      {c : Conn} {n : ℕ} (t : TBlob S) (ts : List (TBlob S))
      → Owned c n (t ∷ ts)
      → ¬ Mem t.blob (handles ts)
  Owned-head_fresh t ts o = (Nodup-cons.0 o.distinct).0

  pub Owned-Keeps :
      {c d : Conn} {n : ℕ} (ts : List (TBlob S)) → Keeps S c d → Owned c n ts → Owned d n ts
  Owned-Keeps ts k o = record {
    distinct = o.distinct;
    live = λ b m. (k b (o.live b m)).0;
    sized = λ b m. ap length (k b (o.live b m)).1 ∙ o.sized b m;
  }

  pub pages-eq :
      {c d : Conn} (ts : List (TBlob S))
      → ((b : Blob) → Mem b (handles ts) → content d b ≡ content c b)
      → pages d ts ≡ pages c ts
  pages-eq [] h = refl
  pages-eq (t ∷ ts) h = rw (h t.blob mem-cons_self, pages-eq ts (λ b m. h b (mem-cons_of_mem _ m)))

  pub pages-append :
      (c : Conn) (ts us : List (TBlob S)) → pages c (ts ++ us) ≡ pages c ts ++ pages c us
  pages-append c [] us = refl
  pages-append c (t ∷ ts) us = rw (pages-append c ts us, append_assoc)

  -- One more blob, written while the others were kept.
  pub Owned-cons :
      {c d : Conn} {n : ℕ} (t : TBlob S) (ts : List (TBlob S))
      → Owned c n ts
      → (¬ Mem t.blob (handles ts))
      → KeepsOthers S t.blob c d
      → IsLive S d t.blob
      → length (content d t.blob) ≡ n
      → Owned d n (t ∷ ts)
  Owned-cons {d = d} {n = n} t ts o new k l e = record {
    distinct = Nodup-cons.1 (new, o.distinct);
    live = λ b m.
        Or.elim Bool-eq_prop (mem-cons.0 m) (λ p. rw p l)
          (λ m'. (k b (other b m') (o.live b m')).0);
    sized = λ b m.
        Or.elim ℕ-eq_prop (mem-cons.0 m) (λ p. rw p e)
          (λ m'. ap length (k b (other b m') (o.live b m')).1 ∙ o.sized b m');
  }
    where
      other : (b : Blob) → Mem b (handles ts) → b ≢ t.blob
      other b m p = new (subst (λ x. Mem x (handles ts)) p m)

  pub pages-Keeps :
      {c d : Conn} {n : ℕ} (ts us : List (TBlob S))
      → Keeps S c d
      → Owned c n (ts ++ us)
      → pages d ts ≡ pages c ts
  pages-Keeps ts us k o =
      pages-eq ts
        λ b m. (k b (o.live b (rw (map-append _ ts us) (mem-append_left (handles us) m)))).1

  -- Writing to a blob that is not among them leaves their bytes.
  pub pages-KeepsOthers :
      {c d : Conn} {n : ℕ} (t : TBlob S) (ts us : List (TBlob S))
      → KeepsOthers S t.blob c d
      → Owned c n (ts ++ us)
      → (¬ Mem t.blob (handles (ts ++ us)))
      → pages d ts ≡ pages c ts
  pages-KeepsOthers t ts us k o new = pages-eq ts λ b m.
      let m' : Mem b (handles (ts ++ us)) =
        rw (map-append _ ts us) (mem-append_left (handles us) m) in
      (k b (λ p. new (subst (λ x. Mem x (handles (ts ++ us))) p m')) (o.live b m')).1

  pub length-pages :
      {c : Conn} {n : ℕ} (ts us : List (TBlob S))
      → Owned c n (ts ++ us)
      → length (pages c ts) ≡ n * length ts
  length-pages [] us o = omega arith
  length-pages {c} {n} (t ∷ ts) us o = omega (
    arith,
    length-append (content c t.blob) (pages c ts),
    length-pages ts us (Owned-tail t (ts ++ us) o),
    o.sized t.blob mem-cons_self,
  )
