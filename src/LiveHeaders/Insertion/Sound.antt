-- ===== src/LiveHeaders/Insertion/Sound.antt =====
-- `insertHeader` as a whole: it returns, and keeps the tree, the index of hashes and the active
-- chain of most work.
use wallet_toolbox_rocksdb.Base.{
  ℕ, ◌+◌, ◌≤◌, ◌<◌, Bool, true, false, Option, none, some, List, [], ◌≡◌, refl, sym, ap, ◌∙◌, ◌⊎◌,
  inl, inr, arith, ltb, if◌then◌else◌, Bool-cases, ltb→lt, ltb→ge, subst,
}
use wallet_toolbox_rocksdb.Base.Int.{pos}
use wallet_toolbox_rocksdb.BlockHeader.{BlockHeader}
use wallet_toolbox_rocksdb.ChainWork.{convert_bits_to_work}
use wallet_toolbox_rocksdb.LiveHeaders.{LiveBlockHeader, LiveData, get_header, get_id, active_tip}
use wallet_toolbox_rocksdb.LiveHeaders.Store.{Distinct}
use wallet_toolbox_rocksdb.LiveHeaders.Tree.{IsTree, Reflags, Reflags-refl}
use wallet_toolbox_rocksdb.LiveHeaders.Chain.{IsActiveChain, IsReady}
use wallet_toolbox_rocksdb.LiveHeaders.Insertion.{
  ok, InsertHeaderResult, retire_tip, accept, become_tip, live_header, switch_chain, insert_after,
  find_active_ancestor, depth_of, result_after,
}
use wallet_toolbox_rocksdb.LiveHeaders.Insertion.Search.{
  Trail, arrived, IsCutOff, Trail-self, Trail-found, find_active_ancestor-total,
}
use wallet_toolbox_rocksdb.LiveHeaders.Insertion.Switch.{switch_chain-total}
use wallet_toolbox_rocksdb.LiveHeaders.Insertion.Acceptance.{
  IsIndex, Follows, accept-IsTree, accept-IsIndex, accept-IsActiveChain,
}
use wallet_toolbox_rocksdb.LiveHeaders.Insertion.Extension.{tip-IsReady, passive-IsActiveChain}

-- There is an active chain that ends in the tip of the state, or no header yet.
abbrev pub HasTip : LiveBlockHeader → LiveData → Type 0
HasTip tip s = IsActiveChain tip s.live_headers × (s.tip_header_id ≡ tip.header_id)

pub record IsSound (s : LiveData) : Type 0 where
  pub tree : IsTree s.max_header_id s.live_headers
  pub index : IsIndex s.live_headers s.hash_to_header_id
  pub tip : (s.live_headers ≡ []) ⊎ ((t : LiveBlockHeader) × HasTip t s)

module _ (notn : ℕ → ℕ → ℕ) where
  -- The header that `insertHeader` makes of `h` on `o`.
  abbrev pub child_of : LiveBlockHeader → BlockHeader → LiveData → (is_tip : Bool) → LiveBlockHeader
  child_of o h s is_tip =
      live_header h (s.max_header_id + 1) (o.chain_work + convert_bits_to_work notn h.bits)
        (some o.header_id) is_tip

  -- What the insertion of a header does: it has the most work, an active ancestor, and becomes the tip,
  -- or joins beside the chain, or has the most work and no active ancestor, which leaves the headers.
  abbrev pub Inserted :
      LiveData → (o tip : LiveBlockHeader) → BlockHeader → LiveData → InsertHeaderResult → Type 0
  Inserted s o tip h s' r =
      ((r.added ≡ true)
        × (r.is_active_tip ≡ true)
        × (tip.chain_work < o.chain_work + convert_bits_to_work notn h.bits)
        × ((a : LiveBlockHeader) × Trail s.live_headers a o)
        × HasTip (child_of o h s true) s')
      ⊎ ((r.added ≡ true)
          × (r.is_active_tip ≡ false)
          × (o.chain_work + convert_bits_to_work notn h.bits ≤ tip.chain_work)
          × HasTip tip s')
      ⊎ ((r.added ≡ false)
          × (r.no_active_ancestor ≡ true)
          × (tip.chain_work < o.chain_work + convert_bits_to_work notn h.bits)
          × IsCutOff s.live_headers o
          × HasTip tip s'
          × (s' ≡ record s { max_header_id = s.max_header_id + 1 }))

  work_pos : (bits : ℕ) → 0 < convert_bits_to_work notn bits
  unfolding convert_bits_to_work
  work_pos bits = omega arith

  module _ (s : LiveData) (v : IsSound s) (o tip : LiveBlockHeader) (h : BlockHeader)
      (o_found : get_header o.header_id s.live_headers ≡ some o) (at_tip : HasTip tip s)
      (below : o.base.height + 1 ≡ h.height) (named : o.base.hash ≡ h.previous_hash)
      (unknown : get_id h.hash s.hash_to_header_id ≡ none) where
    child-Follows :
        (is_tip : Bool) → Follows o (child_of o h s is_tip) s.max_header_id s.hash_to_header_id
    unfolding live_header
    child-Follows is_tip = record {
      fresh = refl;
      link = refl;
      below = below;
      less = omega (arith, work_pos h.bits);
      named = named;
      unknown = unknown;
    }

    accepted-IsSound :
        (ks : List LiveBlockHeader) (is_tip : Bool) (t : LiveBlockHeader)
        → Reflags s.live_headers ks
        → Distinct ks
        → HasTip t (accept o (child_of o h s is_tip) ks s)
        → IsSound (accept o (child_of o h s is_tip) ks s)
    accepted-IsSound ks is_tip t r d has = record {
      tree =
          accept-IsTree s ks o (child_of o h s is_tip) v.tree v.index o_found (child-Follows is_tip)
            r d;
      index =
          accept-IsIndex s ks o (child_of o h s is_tip) v.tree v.index o_found
            (child-Follows is_tip) r d;
      tip = inr (t, has);
    }

    -- The chain is ready for a new tip.
    ready-HasTip :
        (ks : List LiveBlockHeader)
        → Reflags s.live_headers ks
        → Distinct ks
        → IsReady o (retire_tip o ks)
        → tip.chain_work < o.chain_work + convert_bits_to_work notn h.bits
        → HasTip (child_of o h s true) (accept o (child_of o h s true) ks s)
    unfolding accept live_header
    ready-HasTip ks r d ready more = (
      accept-IsActiveChain s ks o (child_of o h s true) v.tree v.index o_found (child-Follows true)
          r d ready refl refl (λ i k e. let m = at_tip.0.most i k e in omega (arith, m, more)),
      refl,
    )

    passive-HasTip :
        o.chain_work + convert_bits_to_work notn h.bits ≤ tip.chain_work
        → HasTip tip (accept o (child_of o h s false) s.live_headers s)
    unfolding accept live_header
    passive-HasTip less = (
      passive-IsActiveChain s.max_header_id s.live_headers v.tree tip o at_tip.0 o_found s
          (child_of o h s false) refl refl refl
          (λ same.
            let o_is : some o ≡ some tip =
              sym o_found ∙ ap (λ i. get_header i s.live_headers) same ∙ at_tip.0.found in
            let work : o.chain_work ≡ tip.chain_work = cc in
            omega (arith, work, less, work_pos h.bits))
          less,
      at_tip.1,
    )

    insert_after-light :
        ltb tip.chain_work (o.chain_work + convert_bits_to_work notn h.bits) ≡ false
        → (s' : LiveData) × (r : InsertHeaderResult) × (insert_after notn o tip h s ≡ ok (s', r))
          × IsSound s'
          × Inserted s o tip h s' r
    unfolding insert_after live_header
    insert_after-light light =
        let less = ltb→ge _ _ light in
        (
          accept o (child_of o h s false) s.live_headers s,
          record (result_after tip false) { added = true },
          rw light refl,
          accepted-IsSound s.live_headers false tip (Reflags-refl s.live_headers) v.tree.distinct
              (passive-HasTip less),
          inr (inl (refl, refl, less, passive-HasTip less)),
        )

    pub insert_after-heavy :
        {found : Option LiveBlockHeader}
        → ltb tip.chain_work (o.chain_work + convert_bits_to_work notn h.bits) ≡ true
        → find_active_ancestor (s.max_header_id + 2) s.live_headers o ≡ ok found
        → insert_after notn o tip h s ≡ become_tip o tip (child_of o h s true) s found
    unfolding insert_after live_header
    insert_after-heavy heavy run = rw (heavy, run) refl

    abbrev pub adopted : (ancestor : LiveBlockHeader) → List LiveBlockHeader → InsertHeaderResult
    adopted ancestor gone = record (result_after tip true) {
      added = true;
      reorg_depth = if active_tip o then pos 0 else depth_of tip ancestor h;
      deactivated_headers = gone;
    }

    pub become_tip-some :
        (a : LiveBlockHeader) (ks gone : List LiveBlockHeader)
        → switch_chain o a s ≡ ok (ks, gone)
        → become_tip o tip (child_of o h s true) s (some a)
          ≡ ok (accept o (child_of o h s true) ks s, adopted a gone)
    unfolding become_tip live_header
    become_tip-some a ks gone run = rw run refl

    pub switch_chain_self : switch_chain o o s ≡ ok (s.live_headers, [])
    unfolding switch_chain
    switch_chain_self = ground arith

    pub bare-retire : (ks : List LiveBlockHeader) → o.is_chain_tip ≡ false → retire_tip o ks ≡ ks
    unfolding retire_tip
    bare-retire ks bare = ground arith

    -- The header of most work, on an active ancestor.
    adopted-outcome :
        (a : LiveBlockHeader) (ks gone : List LiveBlockHeader)
        → ltb tip.chain_work (o.chain_work + convert_bits_to_work notn h.bits) ≡ true
        → find_active_ancestor (s.max_header_id + 2) s.live_headers o ≡ ok (some a)
        → Trail s.live_headers a o
        → switch_chain o a s ≡ ok (ks, gone)
        → Reflags s.live_headers ks
        → Distinct ks
        → IsReady o (retire_tip o ks)
        → (s' : LiveData) × (r : InsertHeaderResult) × (insert_after notn o tip h s ≡ ok (s', r))
          × IsSound s'
          × Inserted s o tip h s' r
    adopted-outcome a ks gone heavy run trail switched r d ready =
        let more = ltb→lt _ _ heavy in
        let has = ready-HasTip ks r d ready more in
        (
          accept o (child_of o h s true) ks s,
          adopted a gone,
          insert_after-heavy heavy run ∙ become_tip-some a ks gone switched,
          accepted-IsSound ks true (child_of o h s true) r d has,
          inl (refl, refl, more, (a, trail), has),
        )

    lost-IsSound : IsSound (record s { max_header_id = s.max_header_id + 1 })
    lost-IsSound = record {
      tree = record {
        distinct = v.tree.distinct;
        bounded = λ i k e. omega (arith, v.tree.bounded i k e);
        positive = v.tree.positive;
        linked = v.tree.linked;
        childless = v.tree.childless;
      };
      index = v.index;
      tip = v.tip;
    }

    lost-outcome :
        ltb tip.chain_work (o.chain_work + convert_bits_to_work notn h.bits) ≡ true
        → find_active_ancestor (s.max_header_id + 2) s.live_headers o ≡ ok none
        → IsCutOff s.live_headers o
        → (s' : LiveData) × (r : InsertHeaderResult) × (insert_after notn o tip h s ≡ ok (s', r))
          × IsSound s'
          × Inserted s o tip h s' r
    unfolding become_tip live_header
    lost-outcome heavy run cut = (
      record s { max_header_id = s.max_header_id + 1 },
      record (result_after tip true) { no_active_ancestor = true },
      insert_after-heavy heavy run,
      lost-IsSound,
      inr (inr (refl, refl, ltb→lt _ _ heavy, cut, at_tip, refl)),
    )

    pub insert_after-IsSound :
        (tip.chain_work < o.chain_work + convert_bits_to_work notn h.bits
          → o.is_active ≡ o.is_chain_tip)
        → (s' : LiveData) × (r : InsertHeaderResult) × (insert_after notn o tip h s ≡ ok (s', r))
          × IsSound s'
          × Inserted s o tip h s' r
    insert_after-IsSound regular =
        elim (Bool-cases (ltb tip.chain_work (o.chain_work + convert_bits_to_work notn h.bits))) [
          | inr light ↦ insert_after-light light
          | inl heavy ↦
              let same = regular (ltb→lt _ _ heavy) in
              let in_time = v.tree.bounded o.header_id o o_found in
              elim (find_active_ancestor-total s.max_header_id s.live_headers v.tree
                (s.max_header_id + 2) o o_found (omega (arith, in_time))) [
                  | inl (lost, cut) ↦ lost-outcome heavy lost cut
                  | inr (a, run, trail) ↦ elim (Bool-cases o.is_active) [
                    | inr idle ↦
                        let bare : o.is_chain_tip ≡ false = sym same ∙ idle in
                        let (a_found, _) =
                          Trail-found s.max_header_id s.live_headers v.tree trail o_found in
                        let (r, switched, flags, d, ready) =
                          switch_chain-total s v.tree tip at_tip.0 a o a_found trail o_found idle
                            bare in
                        adopted-outcome a r.0 r.1 heavy run trail switched flags d
                          (subst (IsReady o) (sym (bare-retire r.0 bare)) ready)
                    | inl live ↦
                        let is_a : o ≡ a = Trail-self trail live in
                        let on_tip = at_tip.0.lone o.header_id o o_found live (sym same ∙ live) in
                        let is_some : some o ≡ some tip =
                          sym o_found
                          ∙ ap (λ i. get_header i s.live_headers) on_tip
                          ∙ at_tip.0.found in
                        let is_tip : o ≡ tip = cc in
                        adopted-outcome o s.live_headers [] heavy
                          (run ∙ ap (λ z. ok (some z)) (sym is_a)) (arrived live) switch_chain_self
                          (Reflags-refl s.live_headers) v.tree.distinct
                          (tip-IsReady s.max_header_id s.live_headers v.tree tip o at_tip.0 o_found
                            is_tip)
                  ]
                ]
        ]
