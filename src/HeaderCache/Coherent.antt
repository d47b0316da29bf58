-- ===== src/HeaderCache/Coherent.antt =====
-- The two indexes of BlockHeaderCache.ts agree: what is cached under a height is cached under its
-- hash, and the other way round.
use wallet_toolbox_rocksdb.Base.{
  ℕ, true, false, Option, none, some, ◌==◌, ◌≡◌, ◌≢◌, refl, sym, ap, ◌∙◌, ◌⊎◌, inl, inr, arith,
  Bool-cases,
}
use Prim.Native.String.{String}
use text.Mathlib.Text.{◌==◌ as str_eq}
use text.Mathlib.TextEquality.{eq_iff}
use wallet_toolbox_rocksdb.BlockHeader.{BlockHeader}
use wallet_toolbox_rocksdb.HeaderCache.{Key, height_key, hash_key, Store}

pub height_key-injective : (h g : ℕ) → height_key h ≡ height_key g → h ≡ g
height_key-injective h g e = cc

pub hash_key-injective : (s t : String) → hash_key s ≡ hash_key t → s ≡ t
hash_key-injective s t e = cc

pub height-not-hash : (h : ℕ) (s : String) → height_key h ≢ hash_key s
height-not-hash h s e = ground arith

pub hash-not-height : (h : ℕ) (s : String) → hash_key s ≢ height_key h
hash-not-height h s e = ground arith

pub str-cases : (s t : String) → ((str_eq s t ≡ true) × (s ≡ t)) ⊎ ((str_eq s t ≡ false) × (s ≢ t))
str-cases s t = elim (Bool-cases (str_eq s t)) [
  | inl e ↦ inl (e, (eq_iff s t).0 e)
  | inr e ↦ inr (e, λ same. ground (arith, e, (eq_iff s t).1 same))
]

pub nat-cases : (h g : ℕ) → (((h == g) ≡ true) × (h ≡ g)) ⊎ (((h == g) ≡ false) × (h ≢ g))
nat-cases h g = ground arith

pub key-cases : (k l : Key) → (k ≡ l) ⊎ (k ≢ l)
key-cases (height_key h) (height_key g) = elim (nat-cases h g) [
  | inl (_, e) ↦ inl (ap height_key e)
  | inr (_, n) ↦ inr (λ e. n (height_key-injective h g e))
]
key-cases (height_key h) (hash_key t) = inr (height-not-hash h t)
key-cases (hash_key s) (height_key g) = inr (hash-not-height g s)
key-cases (hash_key s) (hash_key t) = elim (str-cases s t) [
  | inl (_, e) ↦ inl (ap hash_key e)
  | inr (_, n) ↦ inr (λ e. n (hash_key-injective s t e))
]

pub same-some : {A : Type 0} {x y : A} {o : Option A} → o ≡ some x → o ≡ some y → x ≡ y
same-some e f = cc

pub none-some : {A : Type 0} {x : A} {o : Option A} → o ≡ none → o ≡ some x → ⊥
none-some e f = ground arith

module _ {C : Type 0} (N : Store C) where
  -- A header found under a height has it and is found under its hash; one found under a hash has it
  -- and is found under its height.
  pub record Coherent (c : C) : Type 0 where
    pub by_height :
        (h : ℕ) (x : BlockHeader)
        → N.get (height_key h) c ≡ some x
        → (x.height ≡ h) × (N.get (hash_key x.hash) c ≡ some x)
    pub by_hash :
        (s : String) (x : BlockHeader)
        → N.get (hash_key s) c ≡ some x
        → (x.hash ≡ s) × (N.get (height_key x.height) c ≡ some x)

  -- `d` is `c` without the keys of `Out`.
  abbrev pub Removes : (Key → Type 0) → C → C → Type 0
  Removes Out c d =
      ((k : Key) (y : BlockHeader) → N.get k d ≡ some y → (N.get k c ≡ some y) × (Out k → ⊥))
      × ((k : Key) → (Out k → ⊥) → N.get k d ≡ N.get k c)

  pub del-Removes : (l : Key) (c : C) → Removes (λ k. k ≡ l) c (N.del l c)
  del-Removes l c = (
    λ k y e. elim (key-cases k l) [
      | inl same ↦ absurd (none-some (rw same (N.get-del l c)) e)
      | inr other ↦ (sym (N.get-del_other k l c other) ∙ e, other)
    ],
    λ k n. N.get-del_other k l c n,
  )

  pub none-Removes : (Out : Key → Type 0) (c : C) → ((k : Key) → Out k → ⊥) → Removes Out c c
  none-Removes Out c n = (λ k y e. (e, n k), λ k _. refl)

  -- Removing a header under both of its keys.
  pub pair-Coherent :
      (x : BlockHeader) (c d : C)
      → Coherent c
      → N.get (height_key x.height) c ≡ some x
      → N.get (hash_key x.hash) c ≡ some x
      → Removes (λ k. (k ≡ height_key x.height) ⊎ (k ≡ hash_key x.hash)) c d
      → Coherent d
  pair-Coherent x c d v at_height at_hash (back, keep) = record {
    by_height = λ h y e.
        let (was, left) = back (height_key h) y e in
        let (high, twin) = v.by_height h y was in
        (
          high,
          keep (hash_key y.hash) (λ out. elim out [
            | inl f ↦ hash-not-height x.height y.hash f
            | inr f ↦
                let same = same-some (rw f at twin) at_hash in
                left (inl (ap height_key (sym high ∙ ap (λ (z : BlockHeader). z.height) same)))
          ])
              ∙ twin,
        );
    by_hash = λ s y e.
        let (was, left) = back (hash_key s) y e in
        let (hashed, twin) = v.by_hash s y was in
        (
          hashed,
          keep (height_key y.height) (λ out. elim out [
            | inl f ↦
                let same = same-some (rw f at twin) at_height in
                left (inr (ap hash_key (sym hashed ∙ ap (λ (z : BlockHeader). z.hash) same)))
            | inr f ↦ height-not-hash y.height x.hash f
          ])
              ∙ twin,
        );
  }

  pub same-Coherent : (c d : C) → ((k : Key) → N.get k d ≡ N.get k c) → Coherent c → Coherent d
  same-Coherent c d same v = record {
    by_height = λ h x e.
        let (high, twin) = v.by_height h x (sym (same (height_key h)) ∙ e) in
        (high, same (hash_key x.hash) ∙ twin);
    by_hash = λ s x e.
        let (hashed, twin) = v.by_hash s x (sym (same (hash_key s)) ∙ e) in
        (hashed, same (height_key x.height) ∙ twin);
  }

  pub del-absent :
      (l : Key) (c : C) → N.get l c ≡ none → (k : Key) → N.get k (N.del l c) ≡ N.get k c
  del-absent l c gone k = elim (key-cases k l) [
    | inl same ↦ rw same (N.get-del l c ∙ sym gone)
    | inr other ↦ N.get-del_other k l c other
  ]

  pub dels-Removes : (l m : Key) (c : C) → Removes (λ k. (k ≡ l) ⊎ (k ≡ m)) c (N.del l (N.del m c))
  dels-Removes l m c = (
    λ k y e.
        let (e₁, n₁) = (del-Removes l (N.del m c)).0 k y e in
        let (e₂, n₂) = (del-Removes m c).0 k y e₁ in
        (e₂, λ out. elim out [ inl f ↦ n₁ f | inr f ↦ n₂ f ]),
    λ k n.
        N.get-del_other k l (N.del m c) (λ f. n (inl f)) ∙ N.get-del_other k m c (λ f. n (inr f)),
  )

  -- The two deletions of a cached header, in either order.
  pub del_pair-Coherent :
      (x : BlockHeader) (c : C)
      → Coherent c
      → N.get (height_key x.height) c ≡ some x
      → N.get (hash_key x.hash) c ≡ some x
      → Coherent (N.del (height_key x.height) (N.del (hash_key x.hash) c))
        × Coherent (N.del (hash_key x.hash) (N.del (height_key x.height) c))
  del_pair-Coherent x c v at_height at_hash =
      let (back, keep) = dels-Removes (hash_key x.hash) (height_key x.height) c in
      (
        pair-Coherent x c (N.del (height_key x.height) (N.del (hash_key x.hash) c)) v at_height
            at_hash (dels-Removes (height_key x.height) (hash_key x.hash) c),
        pair-Coherent x c (N.del (hash_key x.hash) (N.del (height_key x.height) c)) v at_height
            at_hash
            (
              λ k y e.
                  let (was, left) = back k y e in
                  (was, λ out. elim out [ inl f ↦ left (inr f) | inr f ↦ left (inl f) ]),
              λ k n. keep k (λ out. elim out [ inl f ↦ n (inr f) | inr f ↦ n (inl f) ]),
            ),
      )
