-- ===== src/LiveHeaders/Insertion/Activation.antt =====
-- The loop that activates headers in `insertHeader`: it goes from the previous header of the new one
-- to their active ancestor, and what it leaves can carry the new tip.
use wallet_toolbox_rocksdb.Base.{
  ℕ, zero, suc, ◌+◌, ◌≤◌, ◌<◌, true, false, none, some, List, ◌≡◌, ◌≢◌, sym, ap, ◌∙◌, ◌⊎◌, inl, inr,
  arith, Bool-cases,
}
use wallet_toolbox_rocksdb.LiveHeaders.{LiveBlockHeader, get_header, set_header, get_previous}
use wallet_toolbox_rocksdb.LiveHeaders.Store.{get-header_id, Distinct, set-Distinct}
use wallet_toolbox_rocksdb.LiveHeaders.Tree.{IsTree, IsAlike, Reflags, get-set-cases, set-Reflags}
use wallet_toolbox_rocksdb.LiveHeaders.Insertion.{ok, activate_headers}
use wallet_toolbox_rocksdb.LiveHeaders.Insertion.Search.{
  Trail, arrived, via, Trail-found, Trail-active,
}

IsAlike-active : (h c : LiveBlockHeader) → IsAlike h c → IsAlike h (record c { is_active = true })
IsAlike-active h c a = record {
  same_base = a.same_base;
  same_work = a.same_work;
  same_id = a.same_id;
  same_link = a.same_link;
  still_tip = a.still_tip;
}

-- `c` is the next header to activate between the ancestor `a` and the previous header `o`.
pub record IsRaised (a o c : LiveBlockHeader) (hs ks : List LiveBlockHeader) : Type 0 where
  pub reflags : Reflags hs ks
  pub distinct : Distinct ks
  pub level :
      (i j : ℕ) (h k : LiveBlockHeader)
      → get_header i ks ≡ some h
      → get_header j ks ≡ some k
      → h.is_active ≡ true
      → k.is_active ≡ true
      → h.base.height ≡ k.base.height
      → i ≡ j
  pub upward :
      (i p : ℕ) (h q : LiveBlockHeader)
      → get_header i ks ≡ some h
      → h.is_active ≡ true
      → h.previous_header_id ≡ some p
      → get_header p ks ≡ some q
      → (q.is_active ≡ true) ⊎ (p ≡ c.header_id)
  pub root :
      (i j : ℕ) (h k : LiveBlockHeader)
      → get_header i ks ≡ some h
      → h.is_active ≡ true
      → h.previous_header_id ≡ none
      → get_header j ks ≡ some k
      → k.is_active ≡ true
      → h.base.height ≤ k.base.height
  pub gap :
      (i : ℕ) (h : LiveBlockHeader)
      → get_header i ks ≡ some h
      → h.is_active ≡ true
      → (h.base.height ≤ a.base.height) ⊎ (c.base.height < h.base.height)
  pub top :
      (i : ℕ) (h : LiveBlockHeader)
      → get_header i ks ≡ some h
      → h.is_active ≡ true
      → h.base.height ≤ o.base.height
  pub no_tip :
      (i : ℕ) (h : LiveBlockHeader)
      → get_header i ks ≡ some h
      → h.is_active ≡ true
      → h.is_chain_tip ≡ false
  pub anchor : (q : LiveBlockHeader) → get_header a.header_id ks ≡ some q → q.is_active ≡ true
  pub reached :
      (q : LiveBlockHeader)
      → get_header o.header_id ks ≡ some q
      → (q.is_active ≡ true) ⊎ (o.header_id ≡ c.header_id)

module _ (last : ℕ) (hs : List LiveBlockHeader) (t : IsTree last hs) (a o : LiveBlockHeader)
    (a_found : get_header a.header_id hs ≡ some a) where
  module _ (c₀ c q : LiveBlockHeader) (p : ℕ) (ks : List LiveBlockHeader)
      (e : get_header c₀.header_id hs ≡ some c₀) (al : IsAlike c₀ c) (v : IsRaised a o c₀ hs ks)
      (l : c₀.previous_header_id ≡ some p) (id : q.header_id ≡ p)
      (below : q.base.height + 1 ≡ c₀.base.height) (high : a.base.height < c₀.base.height)
      (low : c₀.base.height ≤ o.base.height) (bare : c₀.is_chain_tip ≡ false) where
    abbrev turned_on : LiveBlockHeader
    turned_on = record c { is_active = true }

    -- One round of the loop.
    IsRaised-step : IsRaised a o q hs (set_header turned_on ks)
    IsRaised-step =
        let height : turned_on.base.height ≡ c₀.base.height = ap (λ b. b.height) al.same_base in
        let no_equal =
          λ (j : ℕ) (k : LiveBlockHeader) (f : get_header j ks ≡ some k) (ak : k.is_active ≡ true)
              (same : k.base.height ≡ c₀.base.height).
            let apart = v.gap j k f ak in let r : ⊥ = ground arith in r in
        record {
          reflags = set-Reflags c₀ turned_on hs ks v.reflags e (IsAlike-active c₀ c al);
          distinct = set-Distinct turned_on ks v.distinct;
          level = λ i j h k f g ah ak same. elim (get-set-cases i turned_on ks) [
            | inl hit ↦ elim (get-set-cases j turned_on ks) [
              | inl hit' ↦ hit.0 ∙ sym hit'.0
              | inr miss ↦
                  let is_on : h ≡ turned_on = cc in
                  let at_c : k.base.height ≡ c₀.base.height = cc in
                  absurd (no_equal j k (sym miss.1 ∙ g) ak at_c)
            ]
            | inr miss ↦ elim (get-set-cases j turned_on ks) [
              | inl hit ↦
                  let is_on : k ≡ turned_on = cc in
                  let at_c : h.base.height ≡ c₀.base.height = cc in
                  absurd (no_equal i h (sym miss.1 ∙ f) ah at_c)
              | inr miss' ↦ v.level i j h k (sym miss.1 ∙ f) (sym miss'.1 ∙ g) ah ak same
            ]
          ];
          upward = λ i r h m f ah lr g. elim (get-set-cases r turned_on ks) [
            | inl hit' ↦ let is_on : m ≡ turned_on = cc in inl (ap (λ z. z.is_active) is_on)
            | inr miss' ↦ elim (get-set-cases i turned_on ks) [
              | inl hit ↦
                  let is_on : h ≡ turned_on = cc in
                  let same = al.same_link in inr (let at_p : r ≡ p = cc in at_p ∙ sym id)
              | inr miss ↦ elim (v.upward i r h m (sym miss.1 ∙ f) ah lr (sym miss'.1 ∙ g)) [
                | inl am ↦ inl am
                | inr at_c ↦ absurd (miss'.0 (at_c ∙ sym al.same_id))
              ]
            ]
          ];
          root = λ i j h k f ah none_up g ak. elim (get-set-cases i turned_on ks) [
            | inl hit ↦ let is_on : h ≡ turned_on = cc in let same = al.same_link in cc
            | inr miss ↦
                let (a', fa, ala) = v.reflags.forth a.header_id a a_found in
                let lower =
                  v.root i a.header_id h a' (sym miss.1 ∙ f) ah none_up fa (v.anchor a' fa) in
                let at_a : a'.base.height ≡ a.base.height = ap (λ b. b.height) ala.same_base in
                elim (get-set-cases j turned_on ks) [
                  | inl hit ↦
                      let is_on : k.base.height ≡ turned_on.base.height = cc in
                      omega (arith, lower, at_a, is_on, height, high)
                  | inr miss' ↦ v.root i j h k (sym miss.1 ∙ f) ah none_up (sym miss'.1 ∙ g) ak
                ]
          ];
          gap = λ i h f ah. elim (get-set-cases i turned_on ks) [
            | inl hit ↦
                let is_on : h.base.height ≡ turned_on.base.height = cc in
                inr (omega (arith, is_on, height, below))
            | inr miss ↦ elim (v.gap i h (sym miss.1 ∙ f) ah) [
              | inl under ↦ inl under
              | inr over ↦ inr (omega (arith, over, below))
            ]
          ];
          top = λ i h f ah. elim (get-set-cases i turned_on ks) [
            | inl hit ↦
                let is_on : h.base.height ≡ turned_on.base.height = cc in
                omega (arith, is_on, height, low)
            | inr miss ↦ v.top i h (sym miss.1 ∙ f) ah
          ];
          no_tip = λ i h f ah. elim (get-set-cases i turned_on ks) [
            | inl hit ↦
                let is_on : h.is_chain_tip ≡ c.is_chain_tip = cc in
                elim (Bool-cases c.is_chain_tip) [
                  | inl tip ↦ let was = al.still_tip tip in cc
                  | inr no_tip ↦ is_on ∙ no_tip
                ]
            | inr miss ↦ v.no_tip i h (sym miss.1 ∙ f) ah
          ];
          anchor = λ m f. elim (get-set-cases a.header_id turned_on ks) [
            | inl hit ↦ let is_on : m ≡ turned_on = cc in ap (λ z. z.is_active) is_on
            | inr miss ↦ v.anchor m (sym miss.1 ∙ f)
          ];
          reached = λ m f. elim (get-set-cases o.header_id turned_on ks) [
            | inl hit ↦ let is_on : m ≡ turned_on = cc in inl (ap (λ z. z.is_active) is_on)
            | inr miss ↦ elim (v.reached m (sym miss.1 ∙ f)) [
              | inl am ↦ inl am
              | inr at_c ↦ absurd (miss.0 (at_c ∙ sym al.same_id))
            ]
          ];
        }

  -- The loop ends at the ancestor.
  pub activate_headers-total :
      (c₀ c : LiveBlockHeader) (fuel : ℕ) (ks : List LiveBlockHeader)
      → Trail hs a c₀
      → get_header c₀.header_id hs ≡ some c₀
      → IsAlike c₀ c
      → IsRaised a o c₀ hs ks
      → ((c₀.is_active ≡ true) ⊎ (c₀.is_chain_tip ≡ false))
      → c₀.base.height ≤ o.base.height
      → c₀.header_id < fuel
      → (r : List LiveBlockHeader) × (activate_headers fuel a.header_id c ks ≡ ok r)
        × IsRaised a o a hs r
  unfolding activate_headers get_previous
  activate_headers-total c₀ c zero ks tr e al v tip low lt = elim lt [ ]
  activate_headers-total c₀ c (suc fuel) ks (arrived aa) e al v tip low lt =
      (ks, ground (arith, al.same_id), v)
  activate_headers-total c₀ c (suc fuel) ks (via _ q p idle l g tr) e al v tip low lt =
      let (m, n, before, below, _, _) = t.linked c₀.header_id p c₀ e l in
      let is_q : m ≡ q = cc in
      let id : q.header_id ≡ p = get-header_id p hs g in
      let q_found : get_header q.header_id hs ≡ some q = ap (λ i. get_header i hs) id ∙ g in
      let step : q.base.height + 1 ≡ c₀.base.height =
        ap (λ (z : LiveBlockHeader). z.base.height + 1) (sym is_q) ∙ below in
      let le = (Trail-found last hs t tr q_found).1 in
      let a_active = Trail-active tr in
      let other : c₀.header_id ≢ a.header_id =
        λ same. let is_a : c₀ ≡ a = cc in let r : ⊥ = cc in r in
      let bare : c₀.is_chain_tip ≡ false = elim tip [ inl y ↦ cc | inr b ↦ b ] in
      let high : a.base.height < c₀.base.height = omega (arith, le, step) in
      let v' = IsRaised-step c₀ c q p ks e al v l id step high low bare in
      let (q', g', alq) = v'.reflags.forth p q g in
      let link : c.previous_header_id ≡ some p = al.same_link ∙ l in
      let on = turned_on c₀ c q p ks e al v l id step high low bare in
      let (r, run, done) =
        activate_headers-total q q' fuel (set_header on ks) tr q_found alq v'
          (inr (t.childless c₀.header_id p c₀ q e l g)) (omega (arith, step, low))
          (omega (arith, id, before, lt)) in
      (r, ground (arith, al.same_id), done)
