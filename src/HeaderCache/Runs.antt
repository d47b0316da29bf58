-- ===== src/HeaderCache/Runs.antt =====
-- Sequences of operations on the cache of BlockHeaderCache.ts.
use wallet_toolbox_rocksdb.Base.{
  List-cases, ℕ, zero, suc, ◌≤◌, not, Option, none, some, List, [], ◌∷◌, ltb, length, ◌≡◌, refl,
  arith, Bool, false, Bool-cases, inl, inr, keep_if, ltb→ge, ap,
}
use Prim.Native.String.{String}
use text.Mathlib.Text.{◌==◌ as str_eq}
use text.Mathlib.TextEquality.{eq_iff}
use wallet_toolbox_rocksdb.BlockHeader.{BlockHeader}
use wallet_toolbox_rocksdb.HeaderCache.{
  Key, Store, HeaderCache, delete_hash, get_by_height, get_by_hash, count_request, invalidate_hash,
  invalidate_height, invalidate_from_height, evict_loop, evict_old_headers, store_header, set,
  clear, expire, on_block_mined, invalidate_hashes, on_reorg, replace_at_hash, replace_at_height,
}
use wallet_toolbox_rocksdb.HeaderCache.Coherent.{Coherent}
use wallet_toolbox_rocksdb.HeaderCache.Invalidation.{
  invalidate_hash-Coherent, invalidate_height-Coherent, invalidate_from_height-Coherent,
  expire-Coherent, empty-Coherent,
}
use wallet_toolbox_rocksdb.HeaderCache.Setting.{set-Coherent}

-- What the users of the cache, its events and the expiry of entries do to it.
pub data Op : Type 0 where
  looks_up_height : ℕ → Op
  looks_up_hash : String → Op
  sets : BlockHeader → Op
  drops_height : ℕ → Op
  drops_hash : String → Op
  drops_from : ℕ → Op
  clears : Op
  expires : Key → Op
  mines : Option ℕ → Option BlockHeader → Op
  reorganises : Option ℕ → Option BlockHeader → List BlockHeader → Op

module _ {C : Type 0} (N : Store C) where
  pub apply : Op → HeaderCache C → HeaderCache C
  apply (looks_up_height h) s = (get_by_height N h s).1
  apply (looks_up_hash t) s = (get_by_hash N t s).1
  apply (sets b) s = set N b s
  apply (drops_height h) s = invalidate_height N h s
  apply (drops_hash t) s = invalidate_hash N t s
  apply (drops_from h) s = (invalidate_from_height N h s).0
  apply clears s = clear N s
  apply (expires k) s = expire N k s
  apply (mines height header) s = on_block_mined N height header s
  apply (reorganises depth tip headers) s = on_reorg N depth tip headers s

  pub run : List Op → HeaderCache C → HeaderCache C
  unfolding apply
  run [] s = s
  run (o ∷ os) s = run os (apply o s)

  count_request-cache :
      (o : Option BlockHeader) (s : HeaderCache C)
      → Coherent N s.cache
      → Coherent N (count_request N o s).cache
  unfolding count_request
  count_request-cache none s v = v
  count_request-cache (some b) s v = v

  invalidate_hashes-Coherent :
      (bs : List BlockHeader) (s : HeaderCache C)
      → Coherent N s.cache
      → Coherent N (invalidate_hashes N bs s).cache
  unfolding invalidate_hashes
  invalidate_hashes-Coherent [] s v = v
  invalidate_hashes-Coherent (b ∷ bs) s v =
      invalidate_hashes-Coherent bs (invalidate_hash N b.hash s)
        (invalidate_hash-Coherent N b.hash s v)

  clear-Coherent : (s : HeaderCache C) → Coherent N (clear N s).cache
  unfolding clear
  clear-Coherent s = empty-Coherent N (N.flush s.cache) (λ k. N.get-flush k s.cache)

  on_block_mined-Coherent :
      (height : Option ℕ) (header : Option BlockHeader) (s : HeaderCache C)
      → Coherent N s.cache
      → Coherent N (on_block_mined N height header s).cache
  unfolding on_block_mined
  on_block_mined-Coherent height (some b) s v =
      set-Coherent N b (invalidate_from_height N b.height s).0
        (invalidate_from_height-Coherent N b.height s v)
  on_block_mined-Coherent (some h) none s v = invalidate_from_height-Coherent N h s v
  on_block_mined-Coherent none none s v = v

  on_reorg-Coherent :
      (depth : Option ℕ) (tip : Option BlockHeader) (bs : List BlockHeader) (s : HeaderCache C)
      → Coherent N s.cache
      → Coherent N (on_reorg N depth tip bs s).cache
  unfolding on_reorg
  on_reorg-Coherent depth tip (b ∷ bs) s v = invalidate_hashes-Coherent (b ∷ bs) s v
  on_reorg-Coherent (some d) (some t) [] s v = invalidate_from_height-Coherent N _ s v
  on_reorg-Coherent none tip [] s v = clear-Coherent s
  on_reorg-Coherent (some d) none [] s v = clear-Coherent s

  apply-Coherent : (o : Op) (s : HeaderCache C) → Coherent N s.cache → Coherent N (apply o s).cache
  unfolding apply get_by_height get_by_hash
  apply-Coherent (looks_up_height h) s v = count_request-cache _ s v
  apply-Coherent (looks_up_hash t) s v = count_request-cache _ s v
  apply-Coherent (sets b) s v = set-Coherent N b s v
  apply-Coherent (drops_height h) s v = invalidate_height-Coherent N h s v
  apply-Coherent (drops_hash t) s v = invalidate_hash-Coherent N t s v
  apply-Coherent (drops_from h) s v = invalidate_from_height-Coherent N h s v
  apply-Coherent clears s v = clear-Coherent s
  apply-Coherent (expires k) s v = expire-Coherent N k s v
  apply-Coherent (mines height header) s v = on_block_mined-Coherent height header s v
  apply-Coherent (reorganises d t bs) s v = on_reorg-Coherent d t bs s v

  -- For any store with the laws of node-cache: from a cache whose two indexes agree, any sequence of
  -- lookups, settings, invalidations, expiries and events leaves two indexes that agree, in that a
  -- header found under a height has it and is found under its hash, and the other way round.
  pub run-Coherent :
      (os : List Op) (s : HeaderCache C) → Coherent N s.cache → Coherent N (run os s).cache
  unfolding run
  run-Coherent [] s v = v
  run-Coherent (o ∷ os) s v = run-Coherent os (apply o s) (apply-Coherent o s v)

  length-keep_if : {A : Type 0} (p : A → Bool) (xs : List A) → length (keep_if p xs) ≤ length xs
  length-keep_if p [] = omega arith
  length-keep_if p (x ∷ xs) = ground (arith, length-keep_if p xs)

  keep_if-first :
      {A : Type 0} (p : A → Bool) (x : A) (xs : List A)
      → p x ≡ false
      → length (keep_if p (x ∷ xs)) ≤ length xs
  keep_if-first p x xs e = ground (arith, e, length-keep_if p xs)

  delete_hash-first : (t : String) (ts : List String) → length (delete_hash t (t ∷ ts)) ≤ length ts
  unfolding delete_hash
  delete_hash-first t ts = keep_if-first (λ u. not (str_eq u t)) t ts (ap not ((eq_iff t t).1 refl))

  shorter :
      (fuel : ℕ) (oldest : String) (rest : List String) (s : HeaderCache C)
      → s.header_hashes ≡ oldest ∷ rest
      → length s.header_hashes ≤ suc fuel
      → length (invalidate_hash N oldest s).header_hashes ≤ fuel
  unfolding invalidate_hash
  shorter fuel oldest rest s e h =
      let size : length s.header_hashes ≡ suc (length rest) = ap length e in
      let fewer : length (delete_hash oldest s.header_hashes) ≤ length rest =
        rw e (delete_hash-first oldest rest) in
      omega (arith, h, size, fewer)

  evict_loop-bound :
      (fuel : ℕ) (s : HeaderCache C)
      → length s.header_hashes ≤ fuel
      → length (evict_loop N fuel s).header_hashes ≤ s.max_entries
  unfolding evict_loop
  evict_loop-bound zero s h = omega (arith, h)
  evict_loop-bound (suc fuel) s h = elim (Bool-cases (ltb s.max_entries (length s.header_hashes))) [
    | inr fits ↦ rw (evict_loop, fits) (ltb→ge s.max_entries (length s.header_hashes) fits)
    | inl over ↦ elim (List-cases s.header_hashes) [
      | inl e ↦ absurd (ground (arith, over, ap length e))
      | inr (oldest, rest, e) ↦
          rw (evict_loop, over, e)
            (evict_loop-bound fuel (invalidate_hash N oldest s) (shorter fuel oldest rest s e h))
    ]
  ]

  prepared-max_entries :
      (b : BlockHeader) (s : HeaderCache C)
      → (replace_at_hash N b (replace_at_height N b s)).max_entries ≡ s.max_entries
  unfolding replace_at_hash replace_at_height
  prepared-max_entries b s = ground arith

  -- Whatever the cache was, after a header is set it has no more hashes than the given number of
  -- entries.
  pub set-bounded :
      (b : BlockHeader) (s : HeaderCache C) → length (set N b s).header_hashes ≤ s.max_entries
  unfolding set evict_old_headers store_header
  set-bounded b s =
      let after = store_header N b (replace_at_hash N b (replace_at_height N b s)) in
      let bound = evict_loop-bound (length after.header_hashes) after (omega arith) in
      omega (arith, bound, prepared-max_entries b s)

unfoldable pub operations_run : Unit {0}
unfolding run apply
operations_run = tt
