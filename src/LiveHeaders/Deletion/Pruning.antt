-- ===== src/LiveHeaders/Deletion/Pruning.antt =====
-- The headers that `deleteOlderLiveBlockHeaders` of ChaintracksStorageNoDb.ts leaves, and their links.
use Prim.Native.String.{String}
use wallet_toolbox_rocksdb.Base.{
  ℕ, ◌≤◌, ◌<◌, Bool, true, not, none, some, List, [], ◌∷◌, map, leb, if◌then◌else◌, ◌≡◌, refl, sym,
  ap, ◌∙◌, ◌⊎◌, inl, inr, arith, Bool-cases, Option-cases, leb→gt,
}
use wallet_toolbox_rocksdb.BlockHeader.{BlockHeader}
use wallet_toolbox_rocksdb.LiveHeaders.{
  LiveBlockHeader, get_header, get_previous, unlink, linked_id,
}
use wallet_toolbox_rocksdb.LiveHeaders.Store.{Distinct}
use wallet_toolbox_rocksdb.LiveHeaders.Deletion.{
  filtered, get-filtered-none, get-filtered, filtered-Distinct, is_deleted,
}

-- The header is the same but that it may have lost its link.
pub record IsUnlinked (h k : LiveBlockHeader) : Type 0 where
  pub same_base : k.base ≡ h.base
  pub same_work : k.chain_work ≡ h.chain_work
  pub same_id : k.header_id ≡ h.header_id
  pub same_active : k.is_active ≡ h.is_active
  pub same_tip : k.is_chain_tip ≡ h.is_chain_tip

pub unlink-IsUnlinked :
    (max_height : ℕ) (hs : List LiveBlockHeader) (h : LiveBlockHeader)
    → IsUnlinked h (unlink max_height hs h)
unfolding unlink
unlink-IsUnlinked max_height hs h = record {
  same_base = ground arith;
  same_work = ground arith;
  same_id = ground arith;
  same_active = ground arith;
  same_tip = ground arith;
}

-- A link that is left is the old one, and leads to a header that is not deleted.
pub unlink-link :
    (max_height p : ℕ) (hs : List LiveBlockHeader) (h : LiveBlockHeader)
    → (unlink max_height hs h).previous_header_id ≡ some p
    → h.previous_header_id ≡ some p
unfolding unlink
unlink-link max_height p hs h e = ground (arith, get_previous)

pub unlink-above :
    (max_height p : ℕ) (hs : List LiveBlockHeader) (h q : LiveBlockHeader)
    → (unlink max_height hs h).previous_header_id ≡ some p
    → get_header p hs ≡ some q
    → 0 < p
    → max_height < q.base.height
unfolding unlink
unlink-above max_height p hs h q e f pos = ground (arith, get_previous)

-- A header without a link had none, or its link led to a header that is deleted.
pub unlink-root :
    (max_height : ℕ) (hs : List LiveBlockHeader) (h : LiveBlockHeader)
    → (unlink max_height hs h).previous_header_id ≡ none
    → (h.previous_header_id ≡ none)
      ⊎ ((p : ℕ) × (q : LiveBlockHeader) × (h.previous_header_id ≡ some p)
          × (get_header p hs ≡ some q)
          × (q.base.height ≤ max_height))
unfolding unlink
unlink-root max_height hs h e = elim (Option-cases h.previous_header_id) [
  | inl root ↦ inl root
  | inr (p, l) ↦ elim (Option-cases (get_previous (linked_id h.previous_header_id) hs)) [
    | inl lost ↦ inl (ground arith)
    | inr (q, f) ↦ inr (p, q, l, ground arith, ground arith)
  ]
]

-- The hashes that are deleted do not depend on the links.
pub is_deleted-unlink :
    (max_height : ℕ) (x : String) (all hs : List LiveBlockHeader)
    → is_deleted max_height x (map (unlink max_height all) hs) ≡ is_deleted max_height x hs
is_deleted-unlink max_height x all [] = refl
is_deleted-unlink max_height x all (h ∷ hs) =
    let same = (unlink-IsUnlinked max_height all h).same_base in
    let rest = is_deleted-unlink max_height x all hs in rw (same, rest) refl

abbrev pub is_above : (max_height : ℕ) → LiveBlockHeader → Bool
is_above max_height h = not (leb h.base.height max_height)

-- The headers `ks` are those of `hs` above the height, each the same but for a link that is lost.
pub record IsPruned (max_height : ℕ) (hs ks : List LiveBlockHeader) : Type 0 where
  pub back :
      (i : ℕ) (k : LiveBlockHeader)
      → get_header i ks ≡ some k
      → (h : LiveBlockHeader) × (get_header i hs ≡ some h)
        × (max_height < h.base.height)
        × (k ≡ unlink max_height hs h)
  pub forth :
      (i : ℕ) (h : LiveBlockHeader)
      → get_header i hs ≡ some h
      → max_height < h.base.height
      → get_header i ks ≡ some (unlink max_height hs h)

module _ (max_height : ℕ) (hs : List LiveBlockHeader) (d : Distinct hs) where
  abbrev pub above : List LiveBlockHeader
  above =
      filtered (is_above max_height) (unlink max_height hs)
        (λ h. (unlink-IsUnlinked max_height hs h).same_id) hs

  pub above-Distinct : Distinct above
  above-Distinct =
      filtered-Distinct (is_above max_height) (unlink max_height hs)
        (λ h. (unlink-IsUnlinked max_height hs h).same_id) hs d

  above-true : (height : ℕ) → max_height < height → not (leb height max_height) ≡ true
  above-true height high = ground arith

  above-cases :
      (h k : LiveBlockHeader)
      → some k ≡ (
          if is_above max_height (unlink max_height hs h)
          then some (unlink max_height hs h)
          else none)
      → (max_height < h.base.height) × (k ≡ unlink max_height hs h)
  above-cases h k e =
      let same = ap (λ (z : BlockHeader). z.height) (unlink-IsUnlinked max_height hs h).same_base in
      elim (Bool-cases (leb (unlink max_height hs h).base.height max_height)) [
        | inl low ↦
            let gone : some k ≡ none =
              e ∙ ap (λ c. if not c then some (unlink max_height hs h) else none) low in
            cc
        | inr high ↦
            let left : some k ≡ some (unlink max_height hs h) =
              e ∙ ap (λ c. if not c then some (unlink max_height hs h) else none) high in
            (omega (arith, leb→gt _ _ high, same), cc)
      ]

  above-back :
      (i : ℕ) (k : LiveBlockHeader)
      → get_header i above ≡ some k
      → (h : LiveBlockHeader) × (get_header i hs ≡ some h)
        × (max_height < h.base.height)
        × (k ≡ unlink max_height hs h)
  above-back i k e = elim (Option-cases (get_header i hs)) [
    | inl gone ↦
        let none_left =
          get-filtered-none (is_above max_height) (unlink max_height hs)
            (λ h. (unlink-IsUnlinked max_height hs h).same_id) i hs gone in
        cc
    | inr (h, f) ↦
        let now =
          get-filtered (is_above max_height) (unlink max_height hs)
            (λ z. (unlink-IsUnlinked max_height hs z).same_id) i hs d f in
        let (high, is) = above-cases h k (sym e ∙ now) in (h, f, high, is)
  ]

  above-forth :
      (i : ℕ) (h : LiveBlockHeader)
      → get_header i hs ≡ some h
      → max_height < h.base.height
      → get_header i above ≡ some (unlink max_height hs h)
  above-forth i h f high =
      let now =
        get-filtered (is_above max_height) (unlink max_height hs)
          (λ z. (unlink-IsUnlinked max_height hs z).same_id) i hs d f in
      let same = (unlink-IsUnlinked max_height hs h).same_base in
      let kept : is_above max_height (unlink max_height hs h) ≡ true =
        rw same (above-true h.base.height high) in
      now ∙ ap (λ c. if c then some (unlink max_height hs h) else none) kept

  pub above-IsPruned : IsPruned max_height hs above
  above-IsPruned = record { back = above-back; forth = above-forth }
