-- ===== src/LiveHeaders/Insertion/Switch.antt =====
-- A reorganisation in `insertHeader`: deactivation and activation succeed, and leave a chain that
-- ends in the previous header of the new one.
use wallet_toolbox_rocksdb.Base.{
  ℕ, ◌+◌, ◌≤◌, true, false, some, List, [], ◌≡◌, refl, sym, ap, ◌∙◌, inl, inr, arith, ◌==◌,
  Bool-cases, ==_iff,
}
use wallet_toolbox_rocksdb.LiveHeaders.{
  LiveBlockHeader, LiveData, get_header, active_tip, find_chain_tip_header_or_undefined,
}
use wallet_toolbox_rocksdb.LiveHeaders.Store.{Distinct, find_first-get, get-find_first}
use wallet_toolbox_rocksdb.LiveHeaders.Tree.{IsTree, IsAlike, IsAlike-refl, Reflags}
use wallet_toolbox_rocksdb.LiveHeaders.Chain.{IsActiveChain, IsReady}
use wallet_toolbox_rocksdb.LiveHeaders.Insertion.{
  ok, switch_chain, deactivate_headers, activate_headers,
}
use wallet_toolbox_rocksdb.LiveHeaders.Insertion.Search.{
  Trail, Trail-found, Trail-active, Trail-childless,
}
use wallet_toolbox_rocksdb.LiveHeaders.Insertion.Deactivation.{IsLowered, deactivate_headers_lem}
use wallet_toolbox_rocksdb.LiveHeaders.Insertion.Activation.{IsRaised, activate_headers-total}

-- The search for the active tip finds it.
pub find-tip :
    (last : ℕ) (tip : LiveBlockHeader) (s : LiveData)
    → IsTree last s.live_headers
    → IsActiveChain tip s.live_headers
    → find_chain_tip_header_or_undefined s ≡ some tip
unfolding find_chain_tip_header_or_undefined
find-tip last tip s t act =
    let is_tip : active_tip tip ≡ true = let a = act.active in let e = act.at_end in ground arith in
    let (k, f) = get-find_first active_tip tip.header_id s.live_headers act.found is_tip in
    let (g, both) = find_first-get active_tip s.live_headers t.distinct f in
    let ak : k.is_active ≡ true = ground arith in
    let ek : k.is_chain_tip ≡ true = ground arith in
    let same : k.header_id ≡ tip.header_id = act.lone k.header_id k g ak ek in
    let was = act.found in
    let is_k : some k ≡ some tip = sym g ∙ ap (λ i. get_header i s.live_headers) same ∙ was in
    f ∙ is_k

module _ (last : ℕ) (hs : List LiveBlockHeader) (t : IsTree last hs) (tip : LiveBlockHeader)
    (act : IsActiveChain tip hs) (a o : LiveBlockHeader)
    (a_found : get_header a.header_id hs ≡ some a) (tr : Trail hs a o)
    (o_found : get_header o.header_id hs ≡ some o) (idle : o.is_active ≡ false) where
  -- A header that is active after the deactivation was active, and is not above the ancestor.
  lowered-back :
      (ks : List LiveBlockHeader)
      → IsLowered a.base.height hs ks
      → (i : ℕ) (k : LiveBlockHeader) → get_header i ks ≡ some k
      → k.is_active ≡ true
      → (h : LiveBlockHeader) × (get_header i hs ≡ some h)
        × IsAlike h k
        × (h.is_active ≡ true)
        × (h.base.height ≤ a.base.height)
        × (k.base.height ≡ h.base.height)
  lowered-back ks v i k e ak =
      let (h, f, al) = v.reflags.back i k e in
      let flag = v.flags i h k f e in
      (h, f, al, ground arith, ground arith, ap (λ b. b.height) al.same_base)

  IsLowered-IsRaised :
      (ks : List LiveBlockHeader) → IsLowered a.base.height hs ks → IsRaised a o o hs ks
  IsLowered-IsRaised ks v = record {
    reflags = v.reflags;
    distinct = v.distinct;
    level = λ i j h k e f ah ak same.
        let (h₀, e₀, _, ah₀, _, eh) = lowered-back ks v i h e ah in
        let (k₀, f₀, _, ak₀, _, ek) = lowered-back ks v j k f ak in
        act.chain.level i j h₀ k₀ e₀ f₀ ah₀ ak₀ (sym eh ∙ same ∙ ek);
    upward = λ i p h q e ah l f.
        let (h₀, e₀, al, ah₀, le, _) = lowered-back ks v i h e ah in
        let link : h₀.previous_header_id ≡ some p = sym al.same_link ∙ l in
        let (q₀, f₀, _, below, _, _) = t.linked i p h₀ e₀ link in
        let aq₀ = act.chain.upward i p h₀ q₀ e₀ ah₀ link f₀ in
        let flag = v.flags p q₀ q f₀ f in inl (ground arith);
    root = λ i j h k e ah l f ak.
        let (h₀, e₀, al, ah₀, _, eh) = lowered-back ks v i h e ah in
        let (k₀, f₀, _, ak₀, _, ek) = lowered-back ks v j k f ak in
        let low = act.chain.root i j h₀ k₀ e₀ ah₀ (sym al.same_link ∙ l) f₀ ak₀ in
        omega (arith, low, eh, ek);
    gap = λ i h e ah.
        let (h₀, e₀, _, _, le, eh) = lowered-back ks v i h e ah in inl (omega (arith, le, eh));
    top = λ i h e ah.
        let (h₀, e₀, _, _, le, eh) = lowered-back ks v i h e ah in
        omega (arith, le, eh, (Trail-found last hs t tr o_found).1);
    no_tip = λ i h e ah. elim (Bool-cases h.is_chain_tip) [
      | inr no_tip ↦ no_tip
      | inl yes_tip ↦
          let (h₀, e₀, al, ah₀, le, _) = lowered-back ks v i h e ah in
          let at_tip : i ≡ tip.header_id = act.lone i h₀ e₀ ah₀ (al.still_tip yes_tip) in
          let found = act.found in
          let is_tip : h₀ ≡ tip = cc in
          let over = act.top a.header_id a a_found (Trail-active tr) in
          let height : h₀.base.height ≡ tip.base.height = cc in
          let level : a.base.height ≡ tip.base.height = omega (arith, over, le, height) in
          let same : a.header_id ≡ tip.header_id =
            act.chain.level a.header_id tip.header_id a tip a_found act.found (Trail-active tr)
              act.active level in
          let is_a : a ≡ tip = cc in
          let no_tip : a.is_chain_tip ≡ false = Trail-childless last hs t tr o_found idle in
          let at_end = act.at_end in cc
    ];
    anchor = λ q e.
        let flag = v.flags a.header_id a q a_found e in let aa = Trail-active tr in ground arith;
    reached = λ q e. inr refl;
  }

  IsRaised-IsReady : (ks : List LiveBlockHeader) → IsRaised a o a hs ks → IsReady o ks
  IsRaised-IsReady ks v =
      let (a', fa, _) = v.reflags.forth a.header_id a a_found in
      record {
        chain = record {
          level = v.level;
          upward = λ i p h q e ah l f. elim (v.upward i p h q e ah l f) [
            | inl aq ↦ aq
            | inr at_a ↦ v.anchor q (ap (λ z. get_header z ks) (sym at_a) ∙ f)
          ];
          root = v.root;
        };
        last_active = λ k f. elim (v.reached k f) [
          | inl ak ↦ ak
          | inr at_a ↦ v.anchor k (ap (λ z. get_header z ks) (sym at_a) ∙ f)
        ];
        top = v.top;
        no_tip = v.no_tip;
      }

switch_chain_lem :
    (a o tip : LiveBlockHeader) (s : LiveData) (down gone up : List LiveBlockHeader)
    → (a.header_id == o.header_id) ≡ false
    → find_chain_tip_header_or_undefined s ≡ some tip
    → deactivate_headers (s.max_header_id + 2) a.header_id (some tip) s.live_headers []
      ≡ ok (down, gone)
    → activate_headers (s.max_header_id + 2) a.header_id o down ≡ ok up
    → switch_chain o a s ≡ ok (up, gone)
unfolding switch_chain
switch_chain_lem a o tip s down gone up other found run run' = rw (other, found, run, run') refl

module _ (s : LiveData) (t : IsTree s.max_header_id s.live_headers) (tip : LiveBlockHeader)
    (act : IsActiveChain tip s.live_headers) (a o : LiveBlockHeader)
    (a_found : get_header a.header_id s.live_headers ≡ some a) (tr : Trail s.live_headers a o)
    (o_found : get_header o.header_id s.live_headers ≡ some o) (idle : o.is_active ≡ false) where
  pub switch_chain-total :
      o.is_chain_tip ≡ false
      → (r : List LiveBlockHeader × List LiveBlockHeader) × (switch_chain o a s ≡ ok r)
        × Reflags s.live_headers r.0
        × Distinct r.0
        × IsReady o r.0
  switch_chain-total bare =
      let last = s.max_header_id in
      let hs = s.live_headers in
      let other : (a.header_id == o.header_id) ≡ false =
        elim (Bool-cases (a.header_id == o.header_id)) [
          | inr f ↦ f
          | inl e ↦
              let same : a.header_id ≡ o.header_id = (==_iff _ _).0 e in
              let aa = Trail-active tr in let is_o : a ≡ o = cc in cc
        ] in
      let ((down, gone), run, low) =
        deactivate_headers_lem last hs t act.chain a a_found (Trail-active tr) tip (last + 2) act
          (omega arith) in
      let (up, run', v) =
        activate_headers-total last hs t a o a_found o o (last + 2) down tr o_found (IsAlike-refl o)
          (IsLowered-IsRaised last hs t tip act a o a_found tr o_found idle down low) (inr bare)
          (omega arith) (omega (arith, t.bounded o.header_id o o_found)) in
      (
        (up, gone),
        switch_chain_lem a o tip s down gone up other (find-tip last tip s t act) run run',
        v.reflags,
        v.distinct,
        IsRaised-IsReady last hs t tip act a o a_found tr o_found idle up v,
      )
