-- ===== src/LiveHeaders/Deletion/Sound.antt =====
-- `deleteOlderLiveBlockHeaders` of ChaintracksStorageNoDb.ts keeps the tree, the index of hashes and the
-- active chain.
use wallet_toolbox_rocksdb.Base.{ℕ, ◌<◌, [], map, keep_if, ◌≡◌, refl, sym, ap, ◌∙◌, inl, inr, subst}
use wallet_toolbox_rocksdb.LiveHeaders.{
  LiveBlockHeader, LiveData, unlink, delete_ids, delete_older_live_block_headers, id_of,
  find_chain_tip_header_or_undefined,
}
use wallet_toolbox_rocksdb.LiveHeaders.Store.{Distinct}
use wallet_toolbox_rocksdb.LiveHeaders.Tree.{IsTree}
use wallet_toolbox_rocksdb.LiveHeaders.Insertion.Switch.{find-tip}
use wallet_toolbox_rocksdb.LiveHeaders.Insertion.Acceptance.{IsIndex}
use wallet_toolbox_rocksdb.LiveHeaders.Insertion.Sound.{HasTip, IsSound}
use wallet_toolbox_rocksdb.LiveHeaders.Deletion.Pruning.{
  IsPruned, above, is_above, above-Distinct, above-IsPruned,
}
use wallet_toolbox_rocksdb.LiveHeaders.Deletion.Kept.{
  pruned-IsTree, pruned-IsActiveChain, pruned-IsIndex,
}

abbrev pub deleted : (max_height : ℕ) → LiveData → LiveData
deleted max_height s = (delete_older_live_block_headers max_height s).0

module _ (s : LiveData) (v : IsSound s) (max_height : ℕ) where
  deleted_headers :
      (deleted max_height s).live_headers ≡ above max_height s.live_headers v.tree.distinct
  unfolding delete_older_live_block_headers
  deleted_headers = refl

  deleted_ids :
      (deleted max_height s).hash_to_header_id
      ≡ delete_ids max_height
          (map (unlink max_height s.live_headers) s.live_headers)
          s.hash_to_header_id
  unfolding delete_older_live_block_headers
  deleted_ids = refl

  deleted_tip_id :
      (deleted max_height s).tip_header_id
      ≡ id_of (find_chain_tip_header_or_undefined (deleted max_height s))
  unfolding delete_older_live_block_headers find_chain_tip_header_or_undefined
  deleted_tip_id = refl

  deleted_last : (deleted max_height s).max_header_id ≡ s.max_header_id
  unfolding delete_older_live_block_headers
  deleted_last = refl

  deleted-IsPruned : IsPruned max_height s.live_headers (deleted max_height s).live_headers
  deleted-IsPruned =
      subst (IsPruned max_height s.live_headers) (sym deleted_headers)
        (above-IsPruned max_height s.live_headers v.tree.distinct)

  deleted-IsTree : IsTree (deleted max_height s).max_header_id (deleted max_height s).live_headers
  deleted-IsTree =
      subst (λ n. IsTree n (deleted max_height s).live_headers) (sym deleted_last)
        (pruned-IsTree s.max_header_id max_height s.live_headers (deleted max_height s).live_headers
          v.tree deleted-IsPruned
          (subst Distinct (sym deleted_headers)
            (above-Distinct max_height s.live_headers v.tree.distinct)))

  deleted-HasTip :
      (tip : LiveBlockHeader)
      → HasTip tip s
      → max_height < tip.base.height
      → HasTip (unlink max_height s.live_headers tip) (deleted max_height s)
  deleted-HasTip tip has high =
      let act =
        pruned-IsActiveChain s.max_header_id max_height s.live_headers
          (deleted max_height s).live_headers v.tree deleted-IsPruned tip has.0 high in
      (
        act,
        deleted_tip_id
            ∙ ap id_of (
                find-tip (deleted max_height s).max_header_id (unlink max_height s.live_headers tip)
                  (deleted max_height s) deleted-IsTree act),
      )

  deleted-empty : s.live_headers ≡ [] → (deleted max_height s).live_headers ≡ []
  deleted-empty none_live =
      deleted_headers
      ∙ ap (λ hs. keep_if (is_above max_height) (map (unlink max_height s.live_headers) hs))
          none_live

  -- From a state that satisfies the invariant, when the active tip is above the height: the deletion
  -- returns a state that satisfies the invariant (a tree without dangling links, an index of exactly
  -- the hashes left, an active chain of most work that ends in the tip of the state), and its headers
  -- are those above the height, each the same but that it has no link to a deleted one.
  pub delete_older_live_block_headers-IsSound :
      ((tip : LiveBlockHeader) → HasTip tip s → max_height < tip.base.height)
      → IsSound (deleted max_height s)
        × IsPruned max_height s.live_headers (deleted max_height s).live_headers
  delete_older_live_block_headers-IsSound low = (
    record {
      tree = deleted-IsTree;
      index = subst (IsIndex (deleted max_height s).live_headers) (sym deleted_ids) (
          pruned-IsIndex s.max_header_id max_height s.live_headers
            (deleted max_height s).live_headers v.tree deleted-IsPruned s.hash_to_header_id
            v.index);
      tip = elim v.tip [
        | inl none_live ↦ inl (deleted-empty none_live)
        | inr (tip, has) ↦
            inr (unlink max_height s.live_headers tip, deleted-HasTip tip has (low tip has))
      ];
    },
    deleted-IsPruned,
  )
