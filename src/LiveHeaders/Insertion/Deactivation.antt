-- ===== src/LiveHeaders/Insertion/Deactivation.antt =====
-- The loop that deactivates headers in `insertHeader`: it goes from the active tip down to the
-- ancestor, and what it leaves.
use wallet_toolbox_rocksdb.Base.{
  ℕ, zero, suc, ◌+◌, ◌≤◌, ◌<◌, true, false, ◌&&◌, some, List, [], ◌∷◌, ◌++◌, ◌≡◌, ◌≢◌, sym, ap, ◌∙◌,
  inl, inr, arith, leb, ◌==◌, Bool-cases, Option-cases,
}
use wallet_toolbox_rocksdb.LiveHeaders.{LiveBlockHeader, get_header, set_header, get_previous}
use wallet_toolbox_rocksdb.LiveHeaders.Store.{get-header_id, Distinct, set-Distinct}
use wallet_toolbox_rocksdb.LiveHeaders.Tree.{
  IsTree, IsAlike, IsAlike-refl, Reflags, Reflags-refl, get-set-cases, set-Reflags,
}
use wallet_toolbox_rocksdb.LiveHeaders.Chain.{IsChain, IsActiveChain}
use wallet_toolbox_rocksdb.LiveHeaders.Insertion.{ok, deactivate_headers}

-- The headers `ks` are `hs`, of which those above the height `k` have been deactivated.
pub record IsLowered (k : ℕ) (hs ks : List LiveBlockHeader) : Type 0 where
  pub reflags : Reflags hs ks
  pub distinct : Distinct ks
  pub flags :
      (i : ℕ) (h h' : LiveBlockHeader)
      → get_header i hs ≡ some h
      → get_header i ks ≡ some h'
      → h'.is_active ≡ (h.is_active && leb h.base.height k)

IsAlike-inactive :
    (h c : LiveBlockHeader) → IsAlike h c → IsAlike h (record c { is_active = false })
IsAlike-inactive h c a = record {
  same_base = a.same_base;
  same_work = a.same_work;
  same_id = a.same_id;
  same_link = a.same_link;
  still_tip = a.still_tip;
}

module _ (last : ℕ) (hs : List LiveBlockHeader) (t : IsTree last hs) (ch : IsChain hs)
    (a : LiveBlockHeader) (a_found : get_header a.header_id hs ≡ some a)
    (a_active : a.is_active ≡ true) where
  -- One round of the loop.
  IsLowered-step :
      (c₀ c : LiveBlockHeader) (k : ℕ) (ks : List LiveBlockHeader)
      → IsLowered c₀.base.height hs ks
      → get_header c₀.header_id hs ≡ some c₀
      → c₀.is_active ≡ true
      → IsAlike c₀ c
      → k + 1 ≡ c₀.base.height
      → IsLowered k hs (set_header (record c { is_active = false }) ks)
  IsLowered-step c₀ c k ks v e ac al next =
      let off = record c { is_active = false } in
      record {
        reflags = set-Reflags c₀ off hs ks v.reflags e (IsAlike-inactive c₀ c al);
        distinct = set-Distinct off ks v.distinct;
        flags = λ i h h' f g. elim (get-set-cases i off ks) [
          | inl hit ↦
              let at_c : i ≡ c₀.header_id = hit.0 ∙ al.same_id in
              let is_c : h ≡ c₀ = cc in
              let height : h.base.height ≡ c₀.base.height = cc in
              let is_off : h' ≡ off = cc in let stays : h'.is_active ≡ false = cc in ground arith
          | inr miss ↦
              let old = v.flags i h h' f (sym miss.1 ∙ g) in
              elim (Bool-cases h.is_active) [
                | inl ah ↦
                    let other : h.base.height ≢ c₀.base.height = λ same.
                      miss.0 (ch.level i c₀.header_id h c₀ f e ah ac same ∙ sym al.same_id) in
                    ground arith
                | inr not_active ↦ ground arith
              ]
        ];
      }

  deactivate_headers-total :
      (fuel : ℕ) (c₀ c : LiveBlockHeader) (ks gone : List LiveBlockHeader)
      → get_header c₀.header_id hs ≡ some c₀
      → c₀.is_active ≡ true
      → a.base.height ≤ c₀.base.height
      → IsAlike c₀ c
      → IsLowered c₀.base.height hs ks
      → c₀.header_id < fuel
      → (r : List LiveBlockHeader × List LiveBlockHeader) × (deactivate_headers fuel a.header_id
            (some c)
            ks
            gone
          ≡ ok r)
        × IsLowered a.base.height hs r.0
  unfolding deactivate_headers get_previous
  deactivate_headers-total zero c₀ c ks gone e ac le al v lt = elim lt [ ]
  deactivate_headers-total (suc fuel) c₀ c ks gone e ac le al v lt =
      elim (Bool-cases (c.header_id == a.header_id)) [
        | inl hit ↦
            let same : c₀.header_id ≡ a.header_id = ground (arith, al.same_id) in
            let is_a : c₀ ≡ a = cc in
            let height : c₀.base.height ≡ a.base.height = cc in
            ((ks, gone), ground arith, rw (← height) v)
        | inr miss ↦
            let other : c₀.header_id ≢ a.header_id = ground (arith, al.same_id) in
            let above : a.base.height ≢ c₀.base.height = λ same.
              other (ch.level c₀.header_id a.header_id c₀ a e a_found ac a_active (sym same)) in
            elim (Option-cases c₀.previous_header_id) [
              | inl root ↦ absurd (
                  omega (
                    arith,
                    above,
                    le,
                    ch.root c₀.header_id a.header_id c₀ a e ac root a_found a_active,
                  ))
              | inr (p, l) ↦
                  let (q, g, before, below, _, _) = t.linked c₀.header_id p c₀ e l in
                  let id : q.header_id ≡ p = get-header_id p hs g in
                  let aq = ch.upward c₀.header_id p c₀ q e ac l g in
                  let off = record c { is_active = false } in
                  let v' = IsLowered-step c₀ c q.base.height ks v e ac al below in
                  let (q', g', alq) = v'.reflags.forth p q g in
                  let link : c.previous_header_id ≡ some p = al.same_link ∙ l in
                  let (r, run, low) =
                    deactivate_headers-total fuel q q' (set_header off ks) (gone ++ c ∷ [])
                      (ap (λ i. get_header i hs) id ∙ g) aq (omega (arith, above, le, below)) alq v'
                      (omega (arith, id, before, lt)) in
                  (r, ground arith, low)
            ]
      ]

  -- From the active tip the loop ends, and leaves the active headers up to the ancestor.
  pub deactivate_headers_lem :
      (tip : LiveBlockHeader) (fuel : ℕ)
      → IsActiveChain tip hs
      → last < fuel
      → (r : List LiveBlockHeader × List LiveBlockHeader) × (deactivate_headers fuel a.header_id
            (some tip)
            hs
            []
          ≡ ok r)
        × IsLowered a.base.height hs r.0
  deactivate_headers_lem tip fuel act lt =
      deactivate_headers-total fuel tip tip hs [] act.found act.active
        (act.top a.header_id a a_found a_active) (IsAlike-refl tip)
        (record {
          reflags = Reflags-refl hs;
          distinct = t.distinct;
          flags = λ i h h' f g.
              let same : h' ≡ h = cc in
              let flag : h'.is_active ≡ h.is_active = cc in
              elim (Bool-cases h.is_active) [
                | inl ah ↦ let low = act.top i h f ah in ground arith
                | inr not_active ↦ ground arith
              ];
        })
        (omega (arith, t.bounded tip.header_id tip act.found))
