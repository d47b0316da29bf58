-- ===== src/HeaderCache/Setting.antt =====
-- Setting a header in BlockHeaderCache.ts keeps its two indexes in agreement: what was cached under
-- the same height or the same hash goes, with its other key.
use wallet_toolbox_rocksdb.Base.{
  subst, some, length, ◌≡◌, ◌≢◌, refl, sym, ap, ◌∙◌, ◌⊎◌, inl, inr, Option-cases,
}
use wallet_toolbox_rocksdb.BlockHeader.{BlockHeader}
use wallet_toolbox_rocksdb.HeaderCache.{
  Key, height_key, hash_key, Store, HeaderCache, evict_old_headers, replace_at_height,
  replace_at_hash, store_header, set,
}
use wallet_toolbox_rocksdb.HeaderCache.Coherent.{
  height_key-injective, hash_key-injective, height-not-hash, hash-not-height, str-cases, nat-cases,
  key-cases, same-some, none-some, Coherent, Removes, del-Removes, none-Removes,
}
use wallet_toolbox_rocksdb.HeaderCache.Invalidation.{evict_loop-Coherent}

module _ {C : Type 0} (N : Store C) where
  -- The keys that the two steps before the storing of a header delete.
  abbrev AtHeight : BlockHeader → C → Key → Type 0
  AtHeight b c k =
      (p : BlockHeader) × (N.get (height_key b.height) c ≡ some p)
      × (p.hash ≢ b.hash)
      × (k ≡ hash_key p.hash)

  abbrev AtHash : BlockHeader → C → Key → Type 0
  AtHash b c k =
      (q : BlockHeader) × (N.get (hash_key b.hash) c ≡ some q)
      × (q.height ≢ b.height)
      × (k ≡ height_key q.height)

  replace_at_height-Removes :
      (b : BlockHeader) (s : HeaderCache C)
      → Removes N (AtHeight b s.cache) s.cache (replace_at_height N b s).cache
  unfolding replace_at_height
  replace_at_height-Removes b s =
      let P : C → Type 0 = λ d. Removes N (AtHeight b s.cache) s.cache d in
      elim (Option-cases (N.get (height_key b.height) s.cache)) [
        | inl e ↦
            let eq : (replace_at_height N b s).cache ≡ s.cache = rw (replace_at_height, e) refl in
            subst P (sym eq) (
              none-Removes N (AtHeight b s.cache) s.cache
                (λ k out. let (_, f, _, _) = out in none-some e f))
        | inr (p, e) ↦ elim (str-cases p.hash b.hash) [
          | inl (t, same) ↦
              let eq : (replace_at_height N b s).cache ≡ s.cache =
                rw (replace_at_height, e, t) refl in
              subst P (sym eq) (
                none-Removes N (AtHeight b s.cache) s.cache (λ k out.
                  let (_, f, n, _) = out in
                  n (ap (λ (z : BlockHeader). z.hash) (same-some f e) ∙ same)))
          | inr (t, other) ↦
              let eq : (replace_at_height N b s).cache ≡ N.del (hash_key p.hash) s.cache =
                rw (replace_at_height, e, t) refl in
              let (back, keep) = del-Removes N (hash_key p.hash) s.cache in
              subst P (sym eq) (
                λ k y f.
                    let (was, n) = back k y f in
                    (
                      was,
                      λ out.
                          let (_, g, _, at) = out in
                          n (at ∙ ap (λ (z : BlockHeader). hash_key z.hash) (same-some g e)),
                    ),
                λ k n. keep k (λ f. n (p, e, other, f)),
              )
        ]
      ]

  replace_at_hash-Removes :
      (b : BlockHeader) (s : HeaderCache C)
      → Removes N (AtHash b s.cache) s.cache (replace_at_hash N b s).cache
  unfolding replace_at_hash
  replace_at_hash-Removes b s =
      let P : C → Type 0 = λ d. Removes N (AtHash b s.cache) s.cache d in
      elim (Option-cases (N.get (hash_key b.hash) s.cache)) [
        | inl e ↦
            let eq : (replace_at_hash N b s).cache ≡ s.cache = rw (replace_at_hash, e) refl in
            subst P (sym eq) (
              none-Removes N (AtHash b s.cache) s.cache
                (λ k out. let (_, f, _, _) = out in none-some e f))
        | inr (p, e) ↦ elim (nat-cases p.height b.height) [
          | inl (t, same) ↦
              let eq : (replace_at_hash N b s).cache ≡ s.cache = rw (replace_at_hash, e, t) refl in
              subst P (sym eq) (
                none-Removes N (AtHash b s.cache) s.cache (λ k out.
                  let (_, f, n, _) = out in
                  n (ap (λ (z : BlockHeader). z.height) (same-some f e) ∙ same)))
          | inr (t, other) ↦
              let eq : (replace_at_hash N b s).cache ≡ N.del (height_key p.height) s.cache =
                rw (replace_at_hash, e, t) refl in
              let (back, keep) = del-Removes N (height_key p.height) s.cache in
              subst P (sym eq) (
                λ k y f.
                    let (was, n) = back k y f in
                    (
                      was,
                      λ out.
                          let (_, g, _, at) = out in
                          n (at ∙ ap (λ (z : BlockHeader). height_key z.height) (same-some g e)),
                    ),
                λ k n. keep k (λ f. n (p, e, other, f)),
              )
        ]
      ]

  -- The store between the deletions and the storing: it is the old one but for the keys deleted.
  prepared-Removes :
      (b : BlockHeader) (s : HeaderCache C)
      → Removes N
          (λ k. AtHeight b s.cache k ⊎ AtHash b s.cache k)
          s.cache
          (replace_at_hash N b (replace_at_height N b s)).cache
  prepared-Removes b s =
      let mid = replace_at_height N b s in
      let (back₁, keep₁) = replace_at_height-Removes b s in
      let (back₂, keep₂) = replace_at_hash-Removes b mid in
      let found : N.get (hash_key b.hash) mid.cache ≡ N.get (hash_key b.hash) s.cache =
        keep₁ (hash_key b.hash)
          (λ out. let (p, _, n, at) = out in n (sym (hash_key-injective b.hash p.hash at))) in
      (
        λ k y e.
            let (e₁, n₂) = back₂ k y e in
            let (e₀, n₁) = back₁ k y e₁ in
            (
              e₀,
              λ out. elim out [
                | inl h ↦ n₁ h
                | inr h ↦ let (q, f, n, at) = h in n₂ (q, found ∙ f, n, at)
              ],
            ),
        λ k n.
            keep₂ k (λ h. let (q, f, m, at) = h in n (inr (q, sym found ∙ f, m, at)))
            ∙ keep₁ k (λ h. n (inl h)),
      )

  module _ (b : BlockHeader) (d : C) where
    abbrev stored : C
    stored = N.put (hash_key b.hash) b (N.put (height_key b.height) b d)

    stored_at_hash : N.get (hash_key b.hash) stored ≡ some b
    stored_at_hash = N.get-put (hash_key b.hash) b (N.put (height_key b.height) b d)

    stored_at_height : N.get (height_key b.height) stored ≡ some b
    stored_at_height =
        N.get-put_other (height_key b.height) (hash_key b.hash) b (N.put (height_key b.height) b d)
          (height-not-hash b.height b.hash)
        ∙ N.get-put (height_key b.height) b d

    stored_other :
        (k : Key) → k ≢ height_key b.height → k ≢ hash_key b.hash → N.get k stored ≡ N.get k d
    stored_other k n m =
        N.get-put_other k (hash_key b.hash) b (N.put (height_key b.height) b d) m
        ∙ N.get-put_other k (height_key b.height) b d n

  stored-Coherent :
      (b : BlockHeader) (c d : C)
      → Coherent N c
      → Removes N (λ k. AtHeight b c k ⊎ AtHash b c k) c d
      → Coherent N (stored b d)
  stored-Coherent b c d v (back, keep) = record {
    by_height = λ h y e. elim (key-cases (height_key h) (height_key b.height)) [
      | inl same ↦
          let yb =
            same-some e (ap (λ (k : Key). N.get k (stored b d)) same ∙ stored_at_height b d) in
          (
            ap (λ (z : BlockHeader). z.height) yb ∙ sym (height_key-injective h b.height same),
            ap (λ (z : BlockHeader). N.get (hash_key z.hash) (stored b d)) yb
                ∙ stored_at_hash b d
                ∙ ap (λ (z : BlockHeader). some z) (sym yb),
          )
      | inr n ↦
          let (was, left) =
            back (height_key h) y
              (sym (stored_other b d (height_key h) n (height-not-hash h b.hash)) ∙ e) in
          let (high, twin) = v.by_height h y was in
          (
            high,
            stored_other b d (hash_key y.hash) (hash-not-height b.height y.hash) (λ f. left (
                  inr (
                    y,
                    rw f at twin,
                    λ g. n (ap height_key (sym high ∙ g)),
                    ap height_key (sym high),
                  )))
                ∙ keep (hash_key y.hash) (λ out. elim out [
                  | inl t ↦
                      let (p, f, _, here) = t in
                      let (ph, ptwin) = v.by_height b.height p f in
                      let same = same-some (rw here at twin) ptwin in
                      n (ap height_key (sym high ∙ ap (λ (z : BlockHeader). z.height) same ∙ ph))
                  | inr t ↦ let (q, _, _, here) = t in hash-not-height q.height y.hash here
                ])
                ∙ twin,
          )
    ];
    by_hash = λ s y e. elim (key-cases (hash_key s) (hash_key b.hash)) [
      | inl same ↦
          let yb = same-some e (ap (λ (k : Key). N.get k (stored b d)) same ∙ stored_at_hash b d) in
          (
            ap (λ (z : BlockHeader). z.hash) yb ∙ sym (hash_key-injective s b.hash same),
            ap (λ (z : BlockHeader). N.get (height_key z.height) (stored b d)) yb
                ∙ stored_at_height b d
                ∙ ap (λ (z : BlockHeader). some z) (sym yb),
          )
      | inr n ↦
          let (was, left) =
            back (hash_key s) y
              (sym (stored_other b d (hash_key s) (hash-not-height b.height s) n) ∙ e) in
          let (hashed, twin) = v.by_hash s y was in
          (
            hashed,
            stored_other b d (height_key y.height)
                  (λ f. left (
                    inl (
                      y,
                      rw f at twin,
                      λ g. n (ap hash_key (sym hashed ∙ g)),
                      ap hash_key (sym hashed),
                    )))
                  (height-not-hash y.height b.hash)
                ∙ keep (height_key y.height) (λ out. elim out [
                  | inl t ↦ let (p, _, _, here) = t in height-not-hash y.height p.hash here
                  | inr t ↦
                      let (q, f, _, here) = t in
                      let (qh, qtwin) = v.by_hash b.hash q f in
                      let same = same-some (rw here at twin) qtwin in
                      n (ap hash_key (sym hashed ∙ ap (λ (z : BlockHeader). z.hash) same ∙ qh))
                ])
                ∙ twin,
          )
    ];
  }

  pub set-Coherent :
      (b : BlockHeader) (s : HeaderCache C) → Coherent N s.cache → Coherent N (set N b s).cache
  unfolding set evict_old_headers store_header
  set-Coherent b s v =
      let prepared = replace_at_hash N b (replace_at_height N b s) in
      let after = store_header N b prepared in
      evict_loop-Coherent N (length after.header_hashes) after
        (stored-Coherent b s.cache prepared.cache v (prepared-Removes b s))
