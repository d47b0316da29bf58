-- ===== src/LiveHeaders/Insertion/Extension.antt =====
-- The insertions of `insertHeader` that reorganise nothing: a header on the active tip, and a header
-- that does not have the most work.
use wallet_toolbox_rocksdb.Base.{
  ℕ, ◌+◌, ◌≤◌, true, false, some, List, ◌≡◌, ◌≢◌, refl, sym, ap, ◌∙◌, inl, inr, arith, Bool-cases,
  subst,
}
use wallet_toolbox_rocksdb.LiveHeaders.{LiveBlockHeader, LiveData, get_header, set_header}
use wallet_toolbox_rocksdb.LiveHeaders.Tree.{
  IsTree, IsAlike, IsAlike-refl, Reflags-refl, IsTree-Reflags, get-set-cases,
}
use wallet_toolbox_rocksdb.LiveHeaders.Growth.{get-new-cases, get-kept}
use wallet_toolbox_rocksdb.LiveHeaders.Chain.{IsChain, IsActiveChain, IsReady}
use wallet_toolbox_rocksdb.LiveHeaders.Insertion.{retire_tip, accept}
use wallet_toolbox_rocksdb.LiveHeaders.Insertion.Acceptance.{
  retire_tip-Reflags, retire_tip-Distinct, retire_tip-found,
}

-- A change of flags that leaves the activity of every header.
abbrev SameActive : List LiveBlockHeader → List LiveBlockHeader → Type 0
SameActive hs ks =
    (i : ℕ) (k : LiveBlockHeader)
    → get_header i ks ≡ some k
    → (h : LiveBlockHeader) × (get_header i hs ≡ some h)
      × IsAlike h k
      × (k.is_active ≡ h.is_active)
      × (k.base.height ≡ h.base.height)

IsChain-SameActive : (hs ks : List LiveBlockHeader) → SameActive hs ks → IsChain hs → IsChain ks
IsChain-SameActive hs ks same ch = record {
  level = λ i j h k e f ah ak lv.
      let (h₀, e₀, _, a₀, eh) = same i h e in
      let (k₀, f₀, _, b₀, ek) = same j k f in
      ch.level i j h₀ k₀ e₀ f₀ (sym a₀ ∙ ah) (sym b₀ ∙ ak) (sym eh ∙ lv ∙ ek);
  upward = λ i p h q e ah l f.
      let (h₀, e₀, al, a₀, _) = same i h e in
      let (q₀, f₀, _, b₀, _) = same p q f in
      b₀ ∙ ch.upward i p h₀ q₀ e₀ (sym a₀ ∙ ah) (sym al.same_link ∙ l) f₀;
  root = λ i j h k e ah l f ak.
      let (h₀, e₀, al, a₀, eh) = same i h e in
      let (k₀, f₀, _, b₀, ek) = same j k f in
      let low = ch.root i j h₀ k₀ e₀ (sym a₀ ∙ ah) (sym al.same_link ∙ l) f₀ (sym b₀ ∙ ak) in
      omega (arith, low, eh, ek);
}

module _ (last : ℕ) (hs : List LiveBlockHeader) (t : IsTree last hs) (tip o : LiveBlockHeader)
    (act : IsActiveChain tip hs) (o_found : get_header o.header_id hs ≡ some o) where
  abbrev pub retired : List LiveBlockHeader
  retired = retire_tip o hs

  retire_tip-SameActive : SameActive hs retired
  unfolding retire_tip
  retire_tip-SameActive i k e = elim (Bool-cases o.is_chain_tip) [
    | inr bare ↦
        let eq : retire_tip o hs ≡ hs = ground arith in
        (k, ap (get_header i) (sym eq) ∙ e, IsAlike-refl k, refl, refl)
    | inl is_tip ↦
        let bare = record o { is_chain_tip = false } in
        let eq : retire_tip o hs ≡ set_header bare hs = ground arith in
        let e' : get_header i (set_header bare hs) ≡ some k = ap (get_header i) (sym eq) ∙ e in
        let (h, f, al) = (retire_tip-Reflags hs hs o (Reflags-refl hs) o_found).back i k e in
        (
          h,
          f,
          al,
          elim (get-set-cases i bare hs) [
            | inl hit ↦
                let at_o : i ≡ o.header_id = hit.0 in
                let is_o : h ≡ o = cc in
                let is_bare : k ≡ bare = cc in
                ap (λ z. z.is_active) is_bare ∙ ap (λ z. z.is_active) (sym is_o)
            | inr miss ↦ let is_h : k ≡ h = cc in ap (λ z. z.is_active) is_h
          ],
          ap (λ b. b.height) al.same_base,
        )
  ]

  -- A new header can follow the active tip.
  pub tip-IsReady : o ≡ tip → IsReady o retired
  tip-IsReady is_tip =
      let (q, g, al, bare) = retire_tip-found hs hs o (Reflags-refl hs) o_found in
      record {
        chain = IsChain-SameActive hs retired retire_tip-SameActive act.chain;
        last_active = λ k f.
            let (h, e, _, same, _) = retire_tip-SameActive o.header_id k f in
            let is_o : h ≡ o = cc in let ao = act.active in cc;
        top = λ i k f ak.
            let (h, e, _, same, height) = retire_tip-SameActive i k f in
            let low = act.top i h e (sym same ∙ ak) in
            let at_tip : o.base.height ≡ tip.base.height = ap (λ z. z.base.height) is_tip in
            omega (arith, low, height, at_tip);
        no_tip = λ i k f ak. elim (Bool-cases k.is_chain_tip) [
          | inr no_tip ↦ no_tip
          | inl yes_tip ↦
              let (h, e, al', same, _) = retire_tip-SameActive i k f in
              let at_tip = act.lone i h e (sym same ∙ ak) (al'.still_tip yes_tip) in
              let at_o : i ≡ o.header_id = at_tip ∙ ap (λ z. z.header_id) (sym is_tip) in
              let is_q : k ≡ q = cc in ap (λ z. z.is_chain_tip) is_q ∙ bare
        ];
      }

  module _ (s : LiveData) (new : LiveBlockHeader) (at_hs : s.live_headers ≡ hs)
      (fresh : new.header_id ≡ last + 1) (passive : new.is_active ≡ false)
      (apart : o.header_id ≢ tip.header_id) (less : new.chain_work ≤ tip.chain_work) where
    retired-IsTree : IsTree last retired
    retired-IsTree =
        IsTree-Reflags last hs retired t (retire_tip-Reflags hs hs o (Reflags-refl hs) o_found)
          (retire_tip-Distinct hs hs o (Reflags-refl hs) o_found t.distinct)

    -- An active header after the insertion was there before it.
    was_active :
        (i : ℕ) (k : LiveBlockHeader)
        → get_header i (set_header new retired) ≡ some k
        → k.is_active ≡ true
        → get_header i retired ≡ some k
    was_active i k e ak = elim (get-new-cases last retired new retired-IsTree fresh i k e) [
      | inl hit ↦ let is_new : k ≡ new = hit.1 in cc
      | inr old ↦ old
    ]

    passive-IsChain : IsChain (set_header new retired)
    passive-IsChain =
        let ch = IsChain-SameActive hs retired retire_tip-SameActive act.chain in
        record {
          level = λ i j h k e f ah ak lv.
              ch.level i j h k (was_active i h e ah) (was_active j k f ak) ah ak lv;
          upward = λ i p h q e ah l f.
              let old = was_active i h e ah in
              let (m, g, _, _, _, _) = retired-IsTree.linked i p h old l in
              let kept : get_header p (set_header new retired) ≡ some m =
                get-kept last retired new retired-IsTree fresh p m g in
              let is_m : q ≡ m = cc in ap (λ z. z.is_active) is_m ∙ ch.upward i p h m old ah l g;
          root = λ i j h k e ah l f ak.
              ch.root i j h k (was_active i h e ah) ah l (was_active j k f ak) ak;
        }

    -- A header with no more work than the tip leaves the active chain alone.
    pub passive-IsActiveChain : IsActiveChain tip (accept o new s.live_headers s).live_headers
    unfolding accept retire_tip
    passive-IsActiveChain =
        let still : get_header tip.header_id retired ≡ some tip = elim (Bool-cases o.is_chain_tip) [
          | inr bare ↦
              let eq : retire_tip o hs ≡ hs = ground arith in
              ap (get_header tip.header_id) eq ∙ act.found
          | inl is_tip ↦
              let off = record o { is_chain_tip = false } in
              let eq : retire_tip o hs ≡ set_header off hs = ground arith in
              ap (get_header tip.header_id) eq ∙ elim (get-set-cases tip.header_id off hs) [
                | inl hit ↦ absurd (apart (sym hit.0))
                | inr miss ↦ miss.1 ∙ act.found
              ]
        ] in
        let act' : IsActiveChain tip (set_header new retired) = record {
          found = get-kept last retired new retired-IsTree fresh tip.header_id tip still;
          active = act.active;
          at_end = act.at_end;
          chain = passive-IsChain;
          top = λ i k e ak.
              let (h, f, _, same, height) = retire_tip-SameActive i k (was_active i k e ak) in
              let low = act.top i h f (sym same ∙ ak) in omega (arith, low, height);
          lone = λ i k e ak ck.
              let (h, f, al, same, _) = retire_tip-SameActive i k (was_active i k e ak) in
              act.lone i h f (sym same ∙ ak) (al.still_tip ck);
          most = λ i k e. elim (get-new-cases last retired new retired-IsTree fresh i k e) [
            | inl hit ↦
                let work : k.chain_work ≡ new.chain_work = ap (λ z. z.chain_work) hit.1 in
                omega (arith, work, less)
            | inr old ↦
                let (h, f, al, _, _) = retire_tip-SameActive i k old in
                omega (arith, act.most i h f, al.same_work)
          ];
        } in
        subst (λ l. IsActiveChain tip (set_header new (retire_tip o l))) (sym at_hs) act'
