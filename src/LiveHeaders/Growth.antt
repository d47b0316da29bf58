-- ===== src/LiveHeaders/Growth.antt =====
-- A header that joins the tree of live headers.
use wallet_toolbox_rocksdb.Base.{
  ℕ, ◌+◌, ◌<◌, false, none, some, List, ◌≡◌, sym, ◌∙◌, ◌⊎◌, inl, inr, arith, Option-cases,
}
use wallet_toolbox_rocksdb.LiveHeaders.{LiveBlockHeader, get_header, set_header}
use wallet_toolbox_rocksdb.LiveHeaders.Store.{set-Distinct}
use wallet_toolbox_rocksdb.LiveHeaders.Tree.{IsTree, get-set-cases}

-- The header `q` can be the previous one of `new`.
pub record Precedes (q new : LiveBlockHeader) : Type 0 where
  pub link : new.previous_header_id ≡ some q.header_id
  pub below : q.base.height + 1 ≡ new.base.height
  pub less : q.chain_work < new.chain_work
  pub named : q.base.hash ≡ new.base.previous_hash
  pub no_tip : q.is_chain_tip ≡ false

module _ (last : ℕ) (hs : List LiveBlockHeader) (new : LiveBlockHeader) (t : IsTree last hs)
    (fresh : new.header_id ≡ last + 1) where
  pub get-fresh : get_header new.header_id hs ≡ none
  get-fresh = elim (Option-cases (get_header new.header_id hs)) [
    | inl e ↦ e
    | inr (h, e) ↦ absurd (omega (arith, t.bounded new.header_id h e, fresh))
  ]

  -- The headers before the write are found after it.
  pub get-kept :
      (i : ℕ) (h : LiveBlockHeader)
      → get_header i hs ≡ some h
      → get_header i (set_header new hs) ≡ some h
  get-kept i h e = elim (get-set-cases i new hs) [
    | inl hit ↦ absurd (omega (arith, t.bounded i h e, fresh, hit.0))
    | inr miss ↦ miss.1 ∙ e
  ]

  -- A header after the write is the new one or was there.
  pub get-new-cases :
      (i : ℕ) (h : LiveBlockHeader)
      → get_header i (set_header new hs) ≡ some h
      → ((i ≡ new.header_id) × (h ≡ new)) ⊎ (get_header i hs ≡ some h)
  get-new-cases i h e = elim (get-set-cases i new hs) [
    | inl hit ↦ inl (hit.0, cc)
    | inr miss ↦ inr (sym miss.1 ∙ e)
  ]

  pub IsTree-add :
      (new.previous_header_id ≡ none)
        ⊎ ((q : LiveBlockHeader) × (get_header q.header_id hs ≡ some q) × Precedes q new)
      → IsTree new.header_id (set_header new hs)
  IsTree-add place =
      let old_linked =
        λ (i p : ℕ) (h : LiveBlockHeader) (e : get_header i hs ≡ some h)
            (l : h.previous_header_id ≡ some p).
          t.linked i p h e l in
      record {
        distinct = set-Distinct new hs t.distinct;
        bounded = λ i h e. elim (get-new-cases i h e) [
          | inl hit ↦ omega (arith, hit.0)
          | inr old ↦ omega (arith, t.bounded i h old, fresh)
        ];
        positive = λ i h e. elim (get-new-cases i h e) [
          | inl hit ↦ omega (arith, hit.0, fresh)
          | inr old ↦ t.positive i h old
        ];
        linked = λ i p h e l. elim (get-new-cases i h e) [
          | inl hit ↦ elim place [
            | inl root ↦ let same : h ≡ new = hit.1 in cc
            | inr (q, g, pre) ↦
                let same : h ≡ new = hit.1 in
                let at_q : p ≡ q.header_id = let u = pre.link in cc in
                (
                  q,
                  get-kept p q (rw at_q g),
                  omega (arith, at_q, hit.0, fresh, t.bounded q.header_id q g),
                  rw same pre.below,
                  rw same pre.less,
                  rw same pre.named,
                )
          ]
          | inr old ↦
              let (q, g, r1, r2, r3, r4) = old_linked i p h old l in
              (q, get-kept p q g, r1, r2, r3, r4)
        ];
        childless = λ i p h q e l g. elim (get-new-cases i h e) [
          | inl hit ↦ elim place [
            | inl root ↦ let same : h ≡ new = hit.1 in cc
            | inr (o, f, pre) ↦
                let same : h ≡ new = hit.1 in
                let at_o : p ≡ o.header_id = let u = pre.link in cc in
                let found : get_header p (set_header new hs) ≡ some o = get-kept p o (rw at_o f) in
                let is_o : q ≡ o = cc in rw is_o pre.no_tip
          ]
          | inr old ↦
              let (o, f, _, _, _, _) = old_linked i p h old l in
              let found : get_header p (set_header new hs) ≡ some o = get-kept p o f in
              let is_o : q ≡ o = cc in rw is_o (t.childless i p h o old l f)
        ];
      }
