-- ===== src/LiveHeaders/Chain.antt =====
-- The active chain among the live headers.
use wallet_toolbox_rocksdb.Base.{
  ℕ, ◌+◌, ◌≤◌, true, false, none, some, List, ◌≡◌, sym, ◌∙◌, inl, inr, arith,
}
use wallet_toolbox_rocksdb.LiveHeaders.{LiveBlockHeader, get_header, set_header}
use wallet_toolbox_rocksdb.LiveHeaders.Tree.{IsTree, set_self}
use wallet_toolbox_rocksdb.LiveHeaders.Growth.{get-kept, get-new-cases}

-- The active headers: one at a height at most, each on an active header, and none on another than
-- the lowest of them is a root.
pub record IsChain (hs : List LiveBlockHeader) : Type 0 where
  pub level :
      (i j : ℕ) (h k : LiveBlockHeader)
      → get_header i hs ≡ some h
      → get_header j hs ≡ some k
      → h.is_active ≡ true
      → k.is_active ≡ true
      → h.base.height ≡ k.base.height
      → i ≡ j
  pub upward :
      (i p : ℕ) (h q : LiveBlockHeader)
      → get_header i hs ≡ some h
      → h.is_active ≡ true
      → h.previous_header_id ≡ some p
      → get_header p hs ≡ some q
      → q.is_active ≡ true
  pub root :
      (i j : ℕ) (h k : LiveBlockHeader)
      → get_header i hs ≡ some h
      → h.is_active ≡ true
      → h.previous_header_id ≡ none
      → get_header j hs ≡ some k
      → k.is_active ≡ true
      → h.base.height ≤ k.base.height

-- The active headers end in `tip`, the only active chain tip, and no header has more work.
pub record IsActiveChain (tip : LiveBlockHeader) (hs : List LiveBlockHeader) : Type 0 where
  pub found : get_header tip.header_id hs ≡ some tip
  pub active : tip.is_active ≡ true
  pub at_end : tip.is_chain_tip ≡ true
  pub chain : IsChain hs
  pub top :
      (i : ℕ) (h : LiveBlockHeader)
      → get_header i hs ≡ some h
      → h.is_active ≡ true
      → h.base.height ≤ tip.base.height
  pub lone :
      (i : ℕ) (h : LiveBlockHeader)
      → get_header i hs ≡ some h
      → h.is_active ≡ true
      → h.is_chain_tip ≡ true
      → i ≡ tip.header_id
  pub most :
      (i : ℕ) (h : LiveBlockHeader) → get_header i hs ≡ some h → h.chain_work ≤ tip.chain_work

-- The active headers end in `last`, and none of them is a chain tip: a new tip can follow.
pub record IsReady (last : LiveBlockHeader) (hs : List LiveBlockHeader) : Type 0 where
  pub chain : IsChain hs
  pub last_active :
      (k : LiveBlockHeader) → get_header last.header_id hs ≡ some k → k.is_active ≡ true
  pub top :
      (i : ℕ) (h : LiveBlockHeader)
      → get_header i hs ≡ some h
      → h.is_active ≡ true
      → h.base.height ≤ last.base.height
  pub no_tip :
      (i : ℕ) (h : LiveBlockHeader)
      → get_header i hs ≡ some h
      → h.is_active ≡ true
      → h.is_chain_tip ≡ false

module _ (last : ℕ) (hs : List LiveBlockHeader) (one_back q new : LiveBlockHeader)
    (t : IsTree last hs) (fresh : new.header_id ≡ last + 1)
    (at : get_header one_back.header_id hs ≡ some q)
    (link : new.previous_header_id ≡ some one_back.header_id)
    (below : one_back.base.height + 1 ≡ new.base.height) where
  IsChain-add : IsReady one_back hs → new.is_active ≡ true → IsChain (set_header new hs)
  IsChain-add r a = record {
    level = λ i j h k e f ah ak same. elim (get-new-cases last hs new t fresh i h e) [
      | inl hit ↦ elim (get-new-cases last hs new t fresh j k f) [
        | inl hit' ↦ hit.0 ∙ sym hit'.0
        | inr old ↦
            let is_new : h ≡ new = hit.1 in
            let same' : new.base.height ≡ k.base.height = cc in
            absurd (omega (arith, r.top j k old ak, below, same'))
      ]
      | inr old ↦ elim (get-new-cases last hs new t fresh j k f) [
        | inl hit ↦
            let is_new : k ≡ new = hit.1 in
            let same' : h.base.height ≡ new.base.height = cc in
            absurd (omega (arith, r.top i h old ah, below, same'))
        | inr old' ↦ r.chain.level i j h k old old' ah ak same
      ]
    ];
    upward = λ i p h k e ah l f. elim (get-new-cases last hs new t fresh i h e) [
      | inl hit ↦
          let is_new : h ≡ new = hit.1 in
          let at_last : p ≡ one_back.header_id = cc in
          let kept : get_header p (set_header new hs) ≡ some q =
            get-kept last hs new t fresh p q (rw at_last at) in
          let is_q : k ≡ q = cc in rw is_q (r.last_active q at)
      | inr old ↦
          let (m, g, _, _, _, _) = t.linked i p h old l in
          let kept : get_header p (set_header new hs) ≡ some m =
            get-kept last hs new t fresh p m g in
          let is_m : k ≡ m = cc in rw is_m (r.chain.upward i p h m old ah l g)
    ];
    root = λ i j h k e ah l f ak. elim (get-new-cases last hs new t fresh i h e) [
      | inl hit ↦ let is_new : h ≡ new = hit.1 in cc
      | inr old ↦ elim (get-new-cases last hs new t fresh j k f) [
        | inl hit ↦
            let is_new : k ≡ new = hit.1 in
            let lower = r.top i h old ah in rw is_new (omega (arith, lower, below))
        | inr old' ↦ r.chain.root i j h k old ah l old' ak
      ]
    ];
  }

  pub IsActiveChain-add :
      IsReady one_back hs
      → new.is_active ≡ true
      → new.is_chain_tip ≡ true
      → ((i : ℕ) (h : LiveBlockHeader) → get_header i hs ≡ some h → h.chain_work ≤ new.chain_work)
      → IsActiveChain new (set_header new hs)
  IsActiveChain-add r a c w = record {
    found = set_self new hs;
    active = a;
    at_end = c;
    chain = IsChain-add r a;
    top = λ i h e ah. elim (get-new-cases last hs new t fresh i h e) [
      | inl hit ↦ rw (hit.1) (omega arith)
      | inr old ↦ let lower = r.top i h old ah in omega (arith, lower, below)
    ];
    lone = λ i h e ah ch. elim (get-new-cases last hs new t fresh i h e) [
      | inl hit ↦ hit.0
      | inr old ↦ let no = r.no_tip i h old ah in cc
    ];
    most = λ i h e. elim (get-new-cases last hs new t fresh i h e) [
      | inl hit ↦ rw (hit.1) (omega arith)
      | inr old ↦ w i h old
    ];
  }
