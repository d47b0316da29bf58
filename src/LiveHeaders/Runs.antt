-- ===== src/LiveHeaders/Runs.antt =====
-- Sequences of the calls that change the live headers of ChaintracksStorageNoDb.ts, and what the calls
-- that look for a header return after them.
use wallet_toolbox_rocksdb.Base.{
  ℕ, ◌+◌, ◌≤◌, ◌<◌, true, false, ◌&&◌, some, [], ◌==◌, ◌≡◌, refl, sym, ap, ◌∙◌, inl, inr, arith,
  subst, ==_iff,
}
use wallet_toolbox_rocksdb.BlockHeader.{BlockHeader}
use wallet_toolbox_rocksdb.ChainWork.{convert_bits_to_work}
use wallet_toolbox_rocksdb.LiveHeaders.{
  LiveBlockHeader, LiveData, get_header, get_id, find_by_hash, find_chain_tip_header_or_undefined,
  find_live_header_for_block_hash, find_live_header_for_height, delete_live_block_headers,
}
use wallet_toolbox_rocksdb.LiveHeaders.Store.{find_first-get, get-find_first}
use wallet_toolbox_rocksdb.LiveHeaders.Insertion.{
  Result, ok, InsertHeaderResult, BulkFile, insert_header,
}
use wallet_toolbox_rocksdb.LiveHeaders.Insertion.Switch.{find-tip}
use wallet_toolbox_rocksdb.LiveHeaders.Insertion.Sound.{IsSound, HasTip}
use wallet_toolbox_rocksdb.LiveHeaders.Insertion.Outcome.{insert_header-IsSound}
use wallet_toolbox_rocksdb.LiveHeaders.Insertion.First.{get-nil}
use wallet_toolbox_rocksdb.LiveHeaders.Deletion.Sound.{
  deleted, delete_older_live_block_headers-IsSound,
}

-- `chainData` before any call.
abbrev pub no_data : LiveData
no_data = record { live_headers = []; max_header_id = 0; tip_header_id = 0; hash_to_header_id = [] }

module _ (notn : ℕ → ℕ → ℕ) where
  -- A header of more work than the tip is on a header that is active and a chain tip, or neither.
  abbrev pub IsRegular : BlockHeader → LiveData → Type 0
  IsRegular h s =
      (o tip : LiveBlockHeader)
      → find_by_hash h.previous_hash s.live_headers ≡ some o
      → HasTip tip s
      → tip.chain_work < o.chain_work + convert_bits_to_work notn h.bits
      → o.is_active ≡ o.is_chain_tip

  -- The states after calls, in any order, of which each insertion returned and is of a regular header
  -- and each deletion is below the tip.
  pub data Reach : LiveData → Type 0 where
    initial : Reach no_data
    inserted :
        {s s' : LiveData} {r : InsertHeaderResult} (file : BulkFile) (h : BlockHeader)
        → Reach s
        → IsRegular h s
        → insert_header notn (some file) h s ≡ ok (s', r)
        → Reach s'
    pruned :
        {s : LiveData} (max_height : ℕ)
        → Reach s
        → ((tip : LiveBlockHeader) → HasTip tip s → max_height < tip.base.height)
        → Reach (deleted max_height s)
    cleared : {s : LiveData} → Reach s → Reach (delete_live_block_headers s)

  no_data-IsSound : IsSound no_data
  unfolding get_header get_id
  no_data-IsSound = record {
    tree = record {
      distinct = tt;
      bounded = λ i h e. cc;
      positive = λ i h e. cc;
      linked = λ i p h e l. cc;
      childless = λ i p h q e l f. cc;
    };
    index = record { known = λ i h e. cc; stored = λ hash i e. cc };
    tip = inl refl;
  }

  cleared-no_data : (s : LiveData) → delete_live_block_headers s ≡ no_data
  unfolding delete_live_block_headers
  cleared-no_data s = refl

  ok-state :
      {s t : LiveData} {r q : InsertHeaderResult} {m : Result (LiveData × InsertHeaderResult)}
      → m ≡ ok (s, r)
      → m ≡ ok (t, q)
      → s ≡ t
  ok-state e f = cc

  reach-IsSound : {s : LiveData} → Reach s → IsSound s
  reach-IsSound initial = no_data-IsSound
  reach-IsSound (inserted {s} file h before regular run) =
      let (t, q, run', sound) =
        insert_header-IsSound notn file h s (reach-IsSound before) regular in
      subst IsSound (ok-state run' run) sound
  reach-IsSound (pruned {s} max_height before low) =
      (delete_older_live_block_headers-IsSound s (reach-IsSound before) max_height low).0
  reach-IsSound (cleared {s} before) = subst IsSound (sym (cleared-no_data s)) no_data-IsSound

-- What the calls that look for a header return in a sound state.
module _ (s : LiveData) (v : IsSound s) where
  by_hash-found :
      (i : ℕ) (h : LiveBlockHeader)
      → get_header i s.live_headers ≡ some h
      → find_live_header_for_block_hash h.base.hash s ≡ some h
  unfolding find_live_header_for_block_hash
  by_hash-found i h e =
      let id = v.index.known i h e in
      let above = v.tree.positive i h e in
      let not_zero : (i == 0) ≡ false = ground arith in
      rw (find_live_header_for_block_hash, id, not_zero) e

  by_height-tip :
      (t : LiveBlockHeader) → HasTip t s → find_live_header_for_height t.base.height s ≡ some t
  unfolding find_live_header_for_height
  by_height-tip t (act, at) =
      let p = λ (h : LiveBlockHeader). (h.base.height == t.base.height) && h.is_active in
      let live = act.active in
      let hit : p t ≡ true = ground (arith, (==_iff t.base.height t.base.height).1 refl) in
      let (k, f) = get-find_first p t.header_id s.live_headers act.found hit in
      let (g, both) = find_first-get p s.live_headers v.tree.distinct f in
      let level : k.base.height ≡ t.base.height = ground arith in
      let live_k : k.is_active ≡ true = ground arith in
      let at_t = act.chain.level k.header_id t.header_id k t g act.found live_k act.active level in
      f ∙ (sym g ∙ ap (λ i. get_header i s.live_headers) at_t ∙ act.found)

  found-served :
      (i : ℕ) (h : LiveBlockHeader)
      → get_header i s.live_headers ≡ some h
      → (find_live_header_for_block_hash h.base.hash s ≡ some h)
        × ((tip : LiveBlockHeader) × (find_chain_tip_header_or_undefined s ≡ some tip)
            × (s.tip_header_id ≡ tip.header_id)
            × (h.chain_work ≤ tip.chain_work)
            × (find_live_header_for_height tip.base.height s ≡ some tip))
  found-served i h e = elim v.tip [
    | inl empty ↦ absurd (get-nil i h (ap (get_header i) (sym empty) ∙ e))
    | inr (tip, has) ↦ (
      by_hash-found i h e,
      (
        tip,
        find-tip s.max_header_id tip s v.tree has.0,
        has.1,
        has.0.most i h e,
        by_height-tip tip has,
      ),
    )
  ]

-- After any calls of `insertHeader`, `deleteOlderLiveBlockHeaders` and `deleteLiveBlockHeaders` from no
-- data, where each insertion returned and is of a regular header (one of more work than the tip is on a
-- header that is active and marked as a chain tip, or neither) and each deletion is below the tip: every
-- live header is found by its own hash, a chain tip is found that no live header exceeds in work, it is
-- the tip of the state, and it is the header found at its height.
pub reach-served :
    (notn : ℕ → ℕ → ℕ) (s : LiveData)
    → Reach notn s
    → (i : ℕ) (h : LiveBlockHeader) → get_header i s.live_headers ≡ some h
    → (find_live_header_for_block_hash h.base.hash s ≡ some h)
      × ((tip : LiveBlockHeader) × (find_chain_tip_header_or_undefined s ≡ some tip)
          × (s.tip_header_id ≡ tip.header_id)
          × (h.chain_work ≤ tip.chain_work)
          × (find_live_header_for_height tip.base.height s ≡ some tip))
reach-served notn s reached = found-served s (reach-IsSound notn reached)
