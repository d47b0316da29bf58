-- ===== src/LiveHeaders/Tests.antt =====
-- Instances of what is proved of the deletion of old headers and of sequences of calls.
use wallet_toolbox_rocksdb.Base.{
  Bool-cases, ◌<◌, ◌≤◌, true, none, some, [], ◌∷◌, ◌≡◌, refl, inl, inr, ◌==◌, arith,
}
use wallet_toolbox_rocksdb.LiveHeaders.{
  LiveBlockHeader, find_live_header_for_block_hash, find_live_header_for_height,
  delete_older_live_block_headers, get_header, find_by_hash, find_chain_tip_header_or_undefined,
}
use wallet_toolbox_rocksdb.LiveHeaders.Insertion.Sound.{IsSound, HasTip}
use wallet_toolbox_rocksdb.LiveHeaders.Deletion.Pruning.{IsPruned}
use wallet_toolbox_rocksdb.LiveHeaders.Deletion.Sound.{
  deleted, delete_older_live_block_headers-IsSound,
}
use wallet_toolbox_rocksdb.LiveHeaders.Runs.{Reach, initial, inserted, pruned, reach-served}
use wallet_toolbox_rocksdb.LiveHeaders.Insertion.Tests.{
  flip_bits, block, easy, live, g, a, b, forked, bulk, forked-cases, forked-IsSound, one, two,
  one_run, two_run,
}

forked_tip : (tip : LiveBlockHeader) → HasTip tip forked → 100 < tip.base.height
forked_tip tip (act, at) = elim (forked-cases true tip.header_id tip act.found) [
  | inl (same, _) ↦ let live = act.active in absurd (cc (same, live))
  | inr (inl (same, _)) ↦ let live = act.active in absurd (cc (same, live))
  | inr (inr (same, _)) ↦ rw same (omega arith)
]

delete_older_live_block_headers-IsSound_example :
    IsSound (deleted 100 forked) × IsPruned 100 (g ∷ a ∷ b ∷ []) (deleted 100 forked).live_headers
delete_older_live_block_headers-IsSound_example =
    delete_older_live_block_headers-IsSound forked (forked-IsSound true) 100 forked_tip

one_reached : Reach flip_bits one
unfolding find_by_hash
one_reached =
    inserted bulk (block "g" "bulk" 100 easy) initial
      (λ o tip found at_tip more. absurd (ground arith)) one_run

two_tip : (tip : LiveBlockHeader) → HasTip tip two → 100 < tip.base.height
unfolding get_header
two_tip tip (act, at) = elim (Bool-cases (1 == tip.header_id)) [
  | inl low ↦ let e = act.at_end in let f = act.found in absurd (ground arith)
  | inr other ↦ let f = act.found in ground arith
]

two_reached : Reach flip_bits two
unfolding find_by_hash
two_reached =
    inserted bulk (block "a" "g" 101 easy) one_reached
      (λ o tip found at_tip more.
        let is_g : live (block "g" "bulk" 100 easy) 10 1 none true true ≡ o = cc in
        rw (← is_g) refl)
      two_run

reach-served_example :
    (find_live_header_for_block_hash "a" (deleted 100 two)
      ≡ some (live (block "a" "g" 101 easy) 12 2 none true true))
    × ((tip : LiveBlockHeader) × (find_chain_tip_header_or_undefined (deleted 100 two) ≡ some tip)
        × ((deleted 100 two).tip_header_id ≡ tip.header_id)
        × (12 ≤ tip.chain_work)
        × (find_live_header_for_height tip.base.height (deleted 100 two) ≡ some tip))
unfolding get_header delete_older_live_block_headers
reach-served_example =
    reach-served flip_bits (deleted 100 two) (pruned 100 two_reached two_tip) 2
      (live (block "a" "g" 101 easy) 12 2 none true true) refl
