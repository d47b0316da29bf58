-- ===== src/LiveHeaders/Insertion/Search.antt =====
-- The search for an active ancestor in `insertHeader` ends, and what it finds.
use wallet_toolbox_rocksdb.Base.{
  ℕ, zero, suc, ◌+◌, ◌≤◌, ◌<◌, true, false, none, some, List, ◌≡◌, refl, ap, ◌∙◌, ◌⊎◌, inl, inr,
  arith, Bool-cases, Option-cases,
}
use wallet_toolbox_rocksdb.LiveHeaders.{LiveBlockHeader, get_header, get_previous}
use wallet_toolbox_rocksdb.LiveHeaders.Store.{get-header_id}
use wallet_toolbox_rocksdb.LiveHeaders.Tree.{IsTree}
use wallet_toolbox_rocksdb.LiveHeaders.Insertion.{ok, find_active_ancestor}

-- The way up from a header over inactive ones to the first that is active.
pub data Trail (hs : List LiveBlockHeader) (a : LiveBlockHeader) : LiveBlockHeader → Type 0 where
  arrived : a.is_active ≡ true → Trail hs a a
  via :
      (h q : LiveBlockHeader) (p : ℕ)
      → h.is_active ≡ false
      → h.previous_header_id ≡ some p
      → get_header p hs ≡ some q
      → Trail hs a q
      → Trail hs a h

-- A header with no active ancestor: the way up over inactive ones ends at a header without a link to
-- a live one.
pub data IsCutOff (hs : List LiveBlockHeader) : LiveBlockHeader → Type 0 where
  ends :
      (h : LiveBlockHeader)
      → h.is_active ≡ false
      → get_previous h.previous_header_id hs ≡ none
      → IsCutOff hs h
  goes_on :
      (h q : LiveBlockHeader) (p : ℕ)
      → h.is_active ≡ false
      → h.previous_header_id ≡ some p
      → get_header p hs ≡ some q
      → IsCutOff hs q
      → IsCutOff hs h

pub Trail-active :
    {hs : List LiveBlockHeader} {a h : LiveBlockHeader} → Trail hs a h → a.is_active ≡ true
Trail-active (arrived e) = e
Trail-active (via h q p _ _ _ r) = Trail-active r

-- An active header is its own active ancestor.
pub Trail-self :
    {hs : List LiveBlockHeader} {a h : LiveBlockHeader} → Trail hs a h → h.is_active ≡ true → h ≡ a
Trail-self (arrived _) live = refl
Trail-self (via _ _ _ idle _ _ _) live = cc

module _ (last : ℕ) (hs : List LiveBlockHeader) (t : IsTree last hs) where
  pub Trail-found :
      {a h : LiveBlockHeader}
      → Trail hs a h
      → get_header h.header_id hs ≡ some h
      → (get_header a.header_id hs ≡ some a) × (a.base.height ≤ h.base.height)
  Trail-found (arrived _) e = (e, omega arith)
  Trail-found (via h q p _ l g r) e =
      let (m, n, _, below, _, _) = t.linked h.header_id p h e l in
      let is_m : m ≡ q = cc in
      let id : q.header_id ≡ p = get-header_id p hs g in
      let (f, le) = Trail-found r (ap (λ i. get_header i hs) id ∙ g) in
      let step : q.base.height + 1 ≡ h.base.height = rw (← is_m) below in
      (f, omega (arith, step, le))

  pub Trail-childless :
      {a h : LiveBlockHeader}
      → Trail hs a h
      → get_header h.header_id hs ≡ some h
      → h.is_active ≡ false
      → a.is_chain_tip ≡ false
  Trail-childless (arrived a) e idle = cc
  Trail-childless (via h q p _ l g r) e idle =
      let id : q.header_id ≡ p = get-header_id p hs g in
      let no_tip = t.childless h.header_id p h q e l g in
      elim (Bool-cases q.is_active) [
        | inl yes_active ↦ Trail-ends r yes_active no_tip
        | inr inactive ↦ Trail-childless r (ap (λ i. get_header i hs) id ∙ g) inactive
      ]
    where
      Trail-ends :
          {a h : LiveBlockHeader}
          → Trail hs a h
          → h.is_active ≡ true
          → h.is_chain_tip ≡ false
          → a.is_chain_tip ≡ false
      Trail-ends (arrived _) y c = c
      Trail-ends (via _ _ _ n _ _ _) y c = cc

  -- Enough fuel: the ids go down on the way.
  pub find_active_ancestor-total :
      (fuel : ℕ) (h : LiveBlockHeader)
      → get_header h.header_id hs ≡ some h
      → h.header_id < fuel
      → ((find_active_ancestor fuel hs h ≡ ok none) × IsCutOff hs h)
        ⊎ ((a : LiveBlockHeader) × (find_active_ancestor fuel hs h ≡ ok (some a)) × Trail hs a h)
  unfolding find_active_ancestor get_previous
  find_active_ancestor-total zero h e lt = elim lt [ ]
  find_active_ancestor-total (suc fuel) h e lt = elim (Bool-cases h.is_active) [
    | inl y ↦ inr (h, ground arith, arrived y)
    | inr n ↦ elim (Option-cases h.previous_header_id) [
      | inl root ↦
          let unlinked : get_previous h.previous_header_id hs ≡ none = ground arith in
          inl (ground arith, ends h n unlinked)
      | inr (p, l) ↦
          let (q, g, before, _, _, _) = t.linked h.header_id p h e l in
          let id : q.header_id ≡ p = get-header_id p hs g in
          let step : find_active_ancestor (suc fuel) hs h ≡ find_active_ancestor fuel hs q =
            ground arith in
          elim (find_active_ancestor-total fuel q (ap (λ i. get_header i hs) id ∙ g)
            (omega arith)) [
              | inl (lost, cut) ↦ inl (step ∙ lost, goes_on h q p n l g cut)
              | inr (a, f, r) ↦ inr (a, step ∙ f, via h q p n l g r)
            ]
    ]
  ]
