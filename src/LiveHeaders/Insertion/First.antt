-- ===== src/LiveHeaders/Insertion/First.antt =====
-- The first live header: the state behind it satisfies the invariant.
use Prim.Native.String.{String}
use wallet_toolbox_rocksdb.Base.{
  ℕ, ◌+◌, true, none, some, [], ◌≡◌, refl, sym, ap, ◌∙◌, inl, inr, arith,
}
use wallet_toolbox_rocksdb.LiveHeaders.{
  LiveBlockHeader, LiveData, get_header, set_header, get_id, find_by_hash,
}
use wallet_toolbox_rocksdb.LiveHeaders.Tree.{set_self}
use wallet_toolbox_rocksdb.LiveHeaders.Growth.{IsTree-add, get-new-cases}
use wallet_toolbox_rocksdb.LiveHeaders.Insertion.{add_live_header}
use wallet_toolbox_rocksdb.LiveHeaders.Insertion.Acceptance.{IsIndex-add}
use wallet_toolbox_rocksdb.LiveHeaders.Insertion.Sound.{HasTip, IsSound}

pub get-nil : (i : ℕ) (h : LiveBlockHeader) → get_header i [] ≡ some h → ⊥
unfolding get_header
get-nil i h e = ground arith

pub find_by_hash-nil :
    (hash : String) (s : LiveData) {o : LiveBlockHeader}
    → s.live_headers ≡ []
    → find_by_hash hash s.live_headers ≡ some o
    → ⊥
unfolding find_by_hash
find_by_hash-nil hash s {o} empty e =
    let gone : none ≡ some o = ap (find_by_hash hash) (sym empty) ∙ e in ground arith

-- The first header is a tree, a chain and its tip.
module _ (s : LiveData) (new : LiveBlockHeader) (v : IsSound s) (empty : s.live_headers ≡ [])
    (unknown : get_id new.base.hash s.hash_to_header_id ≡ none)
    (fresh : new.header_id ≡ s.max_header_id + 1) (root : new.previous_header_id ≡ none)
    (active : new.is_active ≡ true) (at_end : new.is_chain_tip ≡ true) where
  only_first :
      (i : ℕ) (h : LiveBlockHeader)
      → get_header i (set_header new s.live_headers) ≡ some h
      → (i ≡ new.header_id) × (h ≡ new)
  only_first i h e = elim (get-new-cases s.max_header_id s.live_headers new v.tree fresh i h e) [
    | inl hit ↦ hit
    | inr old ↦ absurd (get-nil i h (ap (get_header i) (sym empty) ∙ old))
  ]

  pub first-HasTip : HasTip new (add_live_header new (record s { max_header_id = new.header_id }))
  unfolding add_live_header
  first-HasTip = (
    record {
      found = set_self new s.live_headers;
      active = active;
      at_end = at_end;
      chain = record {
        level = λ i j h k e f ah ak lv. (only_first i h e).0 ∙ sym (only_first j k f).0;
        upward = λ i p h q e ah l f. let is_new = (only_first i h e).1 in cc;
        root = λ i j h k e ah l f ak.
            let same : h.base.height ≡ k.base.height =
              ap (λ z. z.base.height) ((only_first i h e).1 ∙ sym (only_first j k f).1) in
            omega (arith, same);
      };
      top = λ i h e ah.
          let same : h.base.height ≡ new.base.height =
            ap (λ z. z.base.height) (only_first i h e).1 in
          omega (arith, same);
      lone = λ i h e ah ch. (only_first i h e).0;
      most = λ i h e.
          let same : h.chain_work ≡ new.chain_work = ap (λ z. z.chain_work) (only_first i h e).1 in
          omega (arith, same);
    },
    rw active refl,
  )

  pub first-IsSound : IsSound (add_live_header new (record s { max_header_id = new.header_id }))
  unfolding add_live_header
  first-IsSound = record {
    tree = IsTree-add s.max_header_id s.live_headers new v.tree fresh (inl root);
    index =
        IsIndex-add s.max_header_id s.live_headers new s.hash_to_header_id v.tree fresh unknown
          v.index;
    tip = inr (new, first-HasTip);
  }
