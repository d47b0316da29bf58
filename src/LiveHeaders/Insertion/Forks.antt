-- ===== src/LiveHeaders/Insertion/Forks.antt =====
-- The two insertions of `insertHeader` that leave flags which do not describe a chain.
use wallet_toolbox_rocksdb.Base.Results.{Fallible-cases}
use wallet_toolbox_rocksdb.Base.{
  ℕ, zero, suc, ◌+◌, ◌<◌, Bool, true, false, Option, none, some, List, [], ◌∷◌, ◌≡◌, ◌≢◌, refl, sym,
  ap, ◌∙◌, inl, inr, arith, Bool-cases, find_first, lt→ltb,
}
use wallet_toolbox_rocksdb.BlockHeader.{BlockHeader}
use wallet_toolbox_rocksdb.ChainWork.{convert_bits_to_work}
use wallet_toolbox_rocksdb.LiveHeaders.{
  LiveBlockHeader, LiveData, get_header, set_header, get_id, active_tip,
  find_chain_tip_header_or_undefined, find_by_hash,
}
use wallet_toolbox_rocksdb.LiveHeaders.Tree.{get-set-cases, set_self}
use wallet_toolbox_rocksdb.LiveHeaders.Growth.{get-fresh}
use wallet_toolbox_rocksdb.LiveHeaders.Insertion.{
  ok, err, InsertHeaderResult, BulkFile, accept, retire_tip, become_tip, switch_chain,
  find_active_ancestor, insert_header, live_header,
}
use wallet_toolbox_rocksdb.LiveHeaders.Insertion.Search.{find_active_ancestor-total}
use wallet_toolbox_rocksdb.LiveHeaders.Insertion.Switch.{find-tip}
use wallet_toolbox_rocksdb.LiveHeaders.Insertion.Sound.{
  HasTip, IsSound, child_of, insert_after-heavy, become_tip-some, switch_chain_self, bare-retire,
  adopted,
}
use wallet_toolbox_rocksdb.LiveHeaders.Insertion.Outcome.{find_by_hash-named, insert_header-after}

find_first-append :
    (p : LiveBlockHeader → Bool) (new : LiveBlockHeader) (hs : List LiveBlockHeader)
    {k : LiveBlockHeader}
    → find_first p hs ≡ some k
    → get_header new.header_id hs ≡ none
    → find_first p (set_header new hs) ≡ some k
unfolding get_header set_header
find_first-append p new [] e gone = ground arith
find_first-append p new (h ∷ hs) {k} e gone = ground (arith, find_first-append p new hs {k = k})

find-live :
    (fuel : ℕ) (hs : List LiveBlockHeader) (o : LiveBlockHeader)
    → 0 < fuel
    → o.is_active ≡ true
    → find_active_ancestor fuel hs o ≡ ok (some o)
unfolding find_active_ancestor
find-live zero hs o lt live = elim lt [ ]
find-live (suc fuel) hs o lt live = ground arith

module _ (notn : ℕ → ℕ → ℕ) (s : LiveData) (v : IsSound s) (h : BlockHeader)
    (unknown : get_id h.hash s.hash_to_header_id ≡ none) (o tip : LiveBlockHeader)
    (found : find_by_hash h.previous_hash s.live_headers ≡ some o) (at_tip : HasTip tip s)
    (below : o.base.height + 1 ≡ h.height)
    (heavy : tip.chain_work < o.chain_work + convert_bits_to_work notn h.bits) where
  abbrev new : LiveBlockHeader
  new = child_of notn o h s true

  -- The previous header is active and not the tip.
  module _ (live : o.is_active ≡ true) (apart : o.header_id ≢ tip.header_id) where
    -- A header of more work than the tip, on an active header `o` other than the tip: the insertion
    -- makes it the tip of the state, but it deactivates nothing, so that both it and the old tip are
    -- active chain tips and the search for the tip finds the old one.
    pub insert_header-two_tips :
        (file : Option BulkFile)
        → (s' : LiveData) × (r : InsertHeaderResult) × (insert_header notn file h s ≡ ok (s', r))
          × (r.is_active_tip ≡ true)
          × (s'.tip_header_id ≡ s.max_header_id + 1)
          × (find_chain_tip_header_or_undefined s' ≡ some tip)
          × (get_header (s.max_header_id + 1) s'.live_headers ≡ some new)
          × (active_tip new ≡ true)
    unfolding accept live_header find_chain_tip_header_or_undefined
    insert_header-two_tips file =
        let (o_found, named) = find_by_hash-named h.previous_hash s v.tree found in
        let act = at_tip.0 in
        let bare : o.is_chain_tip ≡ false = elim (Bool-cases o.is_chain_tip) [
          | inl ends ↦ absurd (apart (act.lone o.header_id o o_found live ends))
          | inr bare ↦ bare
        ] in
        let run = find-live (s.max_header_id + 2) s.live_headers o (omega arith) live in
        let eq =
          insert_header-after notn s v h unknown o tip found at_tip below file
          ∙ insert_after-heavy notn s v o tip h o_found at_tip below named unknown
              (lt→ltb _ _ heavy) run
          ∙ become_tip-some notn s v o tip h o_found at_tip below named unknown o s.live_headers []
              (switch_chain_self notn s v o tip h o_found at_tip below named unknown) in
        let kept =
          bare-retire notn s v o tip h o_found at_tip below named unknown s.live_headers bare in
        let fresh = get-fresh s.max_header_id s.live_headers new v.tree refl in
        (
          accept o new s.live_headers s,
          adopted notn s v o tip h o_found at_tip below named unknown o [],
          eq,
          refl,
          refl,
          ap (λ hs. find_first active_tip (set_header new hs)) kept
              ∙ find_first-append active_tip new s.live_headers
                  (find-tip s.max_header_id tip s v.tree act) fresh,
          ap (λ hs. get_header (s.max_header_id + 1) (set_header new hs)) kept
              ∙ set_self new s.live_headers,
          refl,
        )

  -- The previous header is an old tip that a reorganisation has deactivated.
  module _ (idle : o.is_active ≡ false) (ends : o.is_chain_tip ≡ true) where
    -- A header of more work than the tip, on a header `o` that is not active and still marked as a
    -- chain tip: if it is added, it is active and `o`, its previous header, is not.
    pub insert_header-detached :
        (file : Option BulkFile) (s' : LiveData) (r : InsertHeaderResult)
        → insert_header notn file h s ≡ ok (s', r)
        → r.added ≡ true
        → (get_header (s.max_header_id + 1) s'.live_headers ≡ some new)
          × (get_header o.header_id s'.live_headers ≡ some (record o { is_chain_tip = false }))
          × (new.is_active ≡ true)
          × (new.previous_header_id ≡ some o.header_id)
    unfolding accept live_header become_tip retire_tip
    insert_header-detached file s' r run added =
        let (o_found, named) = find_by_hash-named h.previous_hash s v.tree found in
        let bound = v.tree.bounded o.header_id o o_found in
        let after = insert_header-after notn s v h unknown o tip found at_tip below file in
        elim (find_active_ancestor-total s.max_header_id s.live_headers v.tree (s.max_header_id + 2)
          o o_found (omega (arith, bound))) [
            | inl (lost, cut) ↦
                let eq =
                  after
                  ∙ insert_after-heavy notn s v o tip h o_found at_tip below named unknown
                      (lt→ltb _ _ heavy) lost in
                let same : r.added ≡ false = ground arith in cc
            | inr (a, way, trail) ↦ elim (Fallible-cases (switch_chain o a s)) [
              | inr (e, failed) ↦
                  let eq =
                    after
                    ∙ insert_after-heavy notn s v o tip h o_found at_tip below named unknown
                        (lt→ltb _ _ heavy) way in
                  let stops : become_tip o tip new s (some a) ≡ err e = rw failed refl in
                  let bad : ok (s', r) ≡ err e = sym run ∙ eq ∙ stops in cc
              | inl ((ks, gone), switched) ↦
                  let eq =
                    after
                    ∙ insert_after-heavy notn s v o tip h o_found at_tip below named unknown
                        (lt→ltb _ _ heavy) way
                    ∙ become_tip-some notn s v o tip h o_found at_tip below named unknown a ks gone
                        switched in
                  let pair : ok (s', r)
                      ≡ ok (
                        accept o new ks s,
                        adopted notn s v o tip h o_found at_tip below named unknown a gone,
                      ) =
                    sym run ∙ eq in
                  let state : s' ≡ accept o new ks s = cc in
                  let bare = record o { is_chain_tip = false } in
                  let lists : s'.live_headers ≡ set_header new (set_header bare ks) =
                    ap (λ z. z.live_headers) state ∙ rw ends refl in
                  (
                    ap (get_header (s.max_header_id + 1)) lists ∙ set_self new (set_header bare ks),
                    ap (get_header o.header_id) lists
                        ∙ elim (get-set-cases o.header_id new (set_header bare ks)) [
                          | inl hit ↦ absurd (omega (arith, hit.0, bound))
                          | inr miss ↦ miss.1 ∙ set_self bare ks
                        ],
                    refl,
                    refl,
                  )
            ]
          ]
