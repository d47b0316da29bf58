-- ===== src/HeaderCache/Invalidation.antt =====
-- The invalidations, the eviction and the expiry of BlockHeaderCache.ts keep its two indexes in
-- agreement.
use wallet_toolbox_rocksdb.Base.{
  List-cases, ℕ, zero, suc, ◌+◌, subst, none, List, [], ◌∷◌, leb, ltb, length, ◌≡◌, ap, ◌∙◌, inl,
  inr, Bool-cases, Option-cases,
}
use Prim.Native.String.{String}
use wallet_toolbox_rocksdb.HeaderCache.{
  Key, height_key, hash_key, Store, HeaderCache, invalidate_hash, invalidate_height,
  invalidate_each, invalidate_from_height, evict_loop, remove_header_indexes, expire,
}
use wallet_toolbox_rocksdb.HeaderCache.Coherent.{
  none-some, Coherent, same-Coherent, del-absent, del_pair-Coherent,
}

module _ {C : Type 0} (N : Store C) where
  pub invalidate_hash-Coherent :
      (hash : String) (s : HeaderCache C)
      → Coherent N s.cache
      → Coherent N (invalidate_hash N hash s).cache
  unfolding invalidate_hash
  invalidate_hash-Coherent hash s v = elim (Option-cases (N.get (hash_key hash) s.cache)) [
    | inl e ↦ rw e (
        same-Coherent N s.cache (N.del (hash_key hash) s.cache)
          (del-absent N (hash_key hash) s.cache e) v)
    | inr (x, e) ↦
        let (hashed, twin) = v.by_hash hash x e in
        rw e (
          subst
            (λ (t : String). Coherent N (N.del (height_key x.height) (N.del (hash_key t) s.cache)))
            hashed
            (del_pair-Coherent N x s.cache v twin
              (ap (λ (t : String). N.get (hash_key t) s.cache) hashed ∙ e)).0)
  ]

  pub invalidate_height-Coherent :
      (height : ℕ) (s : HeaderCache C)
      → Coherent N s.cache
      → Coherent N (invalidate_height N height s).cache
  unfolding invalidate_height
  invalidate_height-Coherent height s v = elim (Option-cases (N.get (height_key height) s.cache)) [
    | inl e ↦
        rw (invalidate_height, e)
          (same-Coherent N s.cache (N.del (height_key height) s.cache)
            (del-absent N (height_key height) s.cache e) v)
    | inr (x, e) ↦
        let (high, twin) = v.by_height height x e in
        rw (invalidate_height, e)
          (subst (λ (g : ℕ). Coherent N (N.del (hash_key x.hash) (N.del (height_key g) s.cache)))
            high
            (del_pair-Coherent N x s.cache v (ap (λ (g : ℕ). N.get (height_key g) s.cache) high ∙ e)
              twin).1)
  ]

  invalidate_each-Coherent :
      (height : ℕ) (hashes : List String) (removed : ℕ) (s : HeaderCache C)
      → Coherent N s.cache
      → Coherent N (invalidate_each N height hashes removed s).0.cache
  unfolding invalidate_each
  invalidate_each-Coherent height [] removed s v = v
  invalidate_each-Coherent height (hash ∷ hashes) removed s v =
      elim (Option-cases (N.get (hash_key hash) s.cache)) [
        | inl e ↦ rw (invalidate_each, e) (invalidate_each-Coherent height hashes removed s v)
        | inr (x, e) ↦ elim (Bool-cases (leb height x.height)) [
          | inl above ↦
              rw (invalidate_each, e, above)
                (invalidate_each-Coherent height hashes (removed + 1) (invalidate_hash N hash s)
                  (invalidate_hash-Coherent hash s v))
          | inr below ↦
              rw (invalidate_each, e, below) (invalidate_each-Coherent height hashes removed s v)
        ]
      ]

  pub evict_loop-Coherent :
      (fuel : ℕ) (s : HeaderCache C) → Coherent N s.cache → Coherent N (evict_loop N fuel s).cache
  unfolding evict_loop
  evict_loop-Coherent zero s v = v
  evict_loop-Coherent (suc fuel) s v =
      elim (Bool-cases (ltb s.max_entries (length s.header_hashes))) [
        | inr fits ↦ rw (evict_loop, fits) v
        | inl over ↦ elim (List-cases s.header_hashes) [
          | inl e ↦ rw (evict_loop, over, e) v
          | inr (oldest, rest, e) ↦
              rw (evict_loop, over, e)
                (evict_loop-Coherent fuel (invalidate_hash N oldest s)
                  (invalidate_hash-Coherent oldest s v))
        ]
      ]

  pub empty-Coherent : (c : C) → ((k : Key) → N.get k c ≡ none) → Coherent N c
  empty-Coherent c none_there = record {
    by_height = λ h x e. absurd (none-some (none_there (height_key h)) e);
    by_hash = λ s x e. absurd (none-some (none_there (hash_key s)) e);
  }

  pub invalidate_from_height-Coherent :
      (height : ℕ) (s : HeaderCache C)
      → Coherent N s.cache
      → Coherent N (invalidate_from_height N height s).0.cache
  unfolding invalidate_from_height
  invalidate_from_height-Coherent height s v = invalidate_each-Coherent height s.header_hashes 0 s v

  pub expire-Coherent :
      (k : Key) (s : HeaderCache C) → Coherent N s.cache → Coherent N (expire N k s).cache
  unfolding expire remove_header_indexes
  expire-Coherent (height_key h) s v = elim (Option-cases (N.get (height_key h) s.cache)) [
    | inl e ↦
        rw (expire, e)
          (same-Coherent N s.cache (N.del (height_key h) s.cache)
            (del-absent N (height_key h) s.cache e) v)
    | inr (x, e) ↦
        let (high, twin) = v.by_height h x e in
        rw (expire, e)
          (subst (λ (g : ℕ). Coherent N (N.del (hash_key x.hash) (N.del (height_key g) s.cache)))
            high
            (del_pair-Coherent N x s.cache v (ap (λ (g : ℕ). N.get (height_key g) s.cache) high ∙ e)
              twin).1)
  ]
  expire-Coherent (hash_key t) s v = elim (Option-cases (N.get (hash_key t) s.cache)) [
    | inl e ↦
        rw (expire, e)
          (same-Coherent N s.cache (N.del (hash_key t) s.cache)
            (del-absent N (hash_key t) s.cache e) v)
    | inr (x, e) ↦
        let (hashed, twin) = v.by_hash t x e in
        rw (expire, e)
          (subst
            (λ (u : String). Coherent N (N.del (height_key x.height) (N.del (hash_key u) s.cache)))
            hashed
            (del_pair-Coherent N x s.cache v twin
              (ap (λ (u : String). N.get (hash_key u) s.cache) hashed ∙ e)).0)
  ]
