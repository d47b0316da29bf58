-- ===== src/LiveHeaders/Deletion/Kept.antt =====
-- The headers that are left are a tree, an index and an active chain as those before.
use Prim.Native.String.{String}
use wallet_toolbox_rocksdb.Base.{
  ℕ, ◌+◌, ◌≤◌, ◌<◌, true, false, none, some, List, map, leb, if◌then◌else◌, ◌≡◌, sym, ap, ◌∙◌, ◌⊎◌,
  inl, inr, arith, Bool-cases, subst, leb→le, leb→gt,
}
use wallet_toolbox_rocksdb.BlockHeader.{BlockHeader}
use wallet_toolbox_rocksdb.LiveHeaders.{LiveBlockHeader, get_header, get_id, unlink, delete_ids}
use wallet_toolbox_rocksdb.LiveHeaders.Store.{Distinct}
use wallet_toolbox_rocksdb.LiveHeaders.Tree.{IsTree}
use wallet_toolbox_rocksdb.LiveHeaders.Chain.{IsChain, IsActiveChain}
use wallet_toolbox_rocksdb.LiveHeaders.Insertion.Acceptance.{IsIndex}
use wallet_toolbox_rocksdb.LiveHeaders.Deletion.{
  is_deleted, get-delete_ids, deleted-found, found-deleted,
}
use wallet_toolbox_rocksdb.LiveHeaders.Deletion.Pruning.{
  IsUnlinked, unlink-IsUnlinked, unlink-link, unlink-above, unlink-root, is_deleted-unlink,
  IsPruned,
}

module _ (last max_height : ℕ) (hs ks : List LiveBlockHeader) (t : IsTree last hs)
    (r : IsPruned max_height hs ks) where
  -- A header that is left, with the one that it was.
  back-IsUnlinked :
      (i : ℕ) (k : LiveBlockHeader)
      → get_header i ks ≡ some k
      → (h : LiveBlockHeader) × (get_header i hs ≡ some h)
        × (max_height < h.base.height)
        × IsUnlinked h k
        × (k.previous_header_id ≡ (unlink max_height hs h).previous_header_id)
  back-IsUnlinked i k e =
      let (h, f, high, is) = r.back i k e in
      (
        h,
        f,
        high,
        subst (λ z. IsUnlinked h z) (sym is) (unlink-IsUnlinked max_height hs h),
        ap (λ (z : LiveBlockHeader). z.previous_header_id) is,
      )

  height_of : (h k : LiveBlockHeader) → IsUnlinked h k → k.base.height ≡ h.base.height
  height_of h k u = ap (λ (z : BlockHeader). z.height) u.same_base

  pub pruned-IsTree : Distinct ks → IsTree last ks
  pruned-IsTree d = record {
    distinct = d;
    bounded = λ i k e. let (h, f, _, _) = r.back i k e in t.bounded i h f;
    positive = λ i k e. let (h, f, _, _) = r.back i k e in t.positive i h f;
    linked = λ i p k e l.
        let (h, f, high, u, is) = back-IsUnlinked i k e in
        let l' = sym is ∙ l in
        let (q, g, before, below, less, named) =
          t.linked i p h f (unlink-link max_height p hs h l') in
        let kept = unlink-above max_height p hs h q l' g (t.positive p q g) in
        let w = unlink-IsUnlinked max_height hs q in
        (
          unlink max_height hs q,
          r.forth p q g kept,
          before,
          omega (arith, height_of q (unlink max_height hs q) w, height_of h k u, below),
          omega (arith, u.same_work, w.same_work, less),
          ap (λ (z : BlockHeader). z.hash) w.same_base
              ∙ named
              ∙ sym (ap (λ (z : BlockHeader). z.previous_hash) u.same_base),
        );
    childless = λ i p k m e l n.
        let (h, f, _, _, is) = back-IsUnlinked i k e in
        let (q, g, _, w, _) = back-IsUnlinked p m n in
        w.same_tip ∙ t.childless i p h q f (unlink-link max_height p hs h (sym is ∙ l)) g;
  }

  -- A root that is left is at most one above the height.
  pruned-root :
      (i : ℕ) (h : LiveBlockHeader)
      → get_header i hs ≡ some h
      → (unlink max_height hs h).previous_header_id ≡ none
      → (h.previous_header_id ≡ none) ⊎ (h.base.height ≤ max_height + 1)
  pruned-root i h f l = elim (unlink-root max_height hs h l) [
    | inl was ↦ inl was
    | inr (p, q, link, g, low) ↦
        let (m, n, _, below, _, _) = t.linked i p h f link in
        let same : m ≡ q = cc in
        inr (omega (arith, below, low, ap (λ (z : LiveBlockHeader). z.base.height) same))
  ]

  pruned-IsChain : IsChain hs → IsChain ks
  pruned-IsChain c = record {
    level = λ i j k m e f ak am same.
        let (h, eh, _, u, _) = back-IsUnlinked i k e in
        let (q, eq, _, w, _) = back-IsUnlinked j m f in
        c.level i j h q eh eq (sym u.same_active ∙ ak) (sym w.same_active ∙ am)
          (sym (height_of h k u) ∙ same ∙ height_of q m w);
    upward = λ i p k m e ak l f.
        let (h, eh, _, u, is) = back-IsUnlinked i k e in
        let (q, eq, _, w, _) = back-IsUnlinked p m f in
        w.same_active
        ∙ c.upward i p h q eh (sym u.same_active ∙ ak) (unlink-link max_height p hs h (sym is ∙ l))
            eq;
    root = λ i j k m e ak l f am.
        let (h, eh, _, u, is) = back-IsUnlinked i k e in
        let (q, eq, high, w, _) = back-IsUnlinked j m f in
        let up = height_of h k u in
        let uq = height_of q m w in
        elim (pruned-root i h eh (sym is ∙ l)) [
          | inl was ↦
              let lower =
                c.root i j h q eh (sym u.same_active ∙ ak) was eq (sym w.same_active ∙ am) in
              omega (arith, lower, up, uq)
          | inr low ↦ omega (arith, low, high, up, uq)
        ];
  }

  pub pruned-IsActiveChain :
      (tip : LiveBlockHeader)
      → IsActiveChain tip hs
      → max_height < tip.base.height
      → IsActiveChain (unlink max_height hs tip) ks
  pruned-IsActiveChain tip act high =
      let v = unlink-IsUnlinked max_height hs tip in
      record {
        found = ap (λ i. get_header i ks) v.same_id ∙ r.forth tip.header_id tip act.found high;
        active = v.same_active ∙ act.active;
        at_end = v.same_tip ∙ act.at_end;
        chain = pruned-IsChain act.chain;
        top = λ i k e ak.
            let (h, f, _, u, _) = back-IsUnlinked i k e in
            let lower = act.top i h f (sym u.same_active ∙ ak) in
            let up = height_of h k u in
            let ut = height_of tip (unlink max_height hs tip) v in omega (arith, lower, up, ut);
        lone = λ i k e ak ck.
            let (h, f, _, u, _) = back-IsUnlinked i k e in
            act.lone i h f (sym u.same_active ∙ ak) (sym u.same_tip ∙ ck) ∙ sym v.same_id;
        most = λ i k e.
            let (h, f, _, u, _) = back-IsUnlinked i k e in
            let less = act.most i h f in omega (arith, less, u.same_work, v.same_work);
      }

  module _ (m : List (String × ℕ)) (x : IsIndex hs m) where
    -- The index without the hashes of the headers that are deleted, as the function makes it.
    abbrev pub left_ids : List (String × ℕ)
    left_ids = delete_ids max_height (map (unlink max_height hs) hs) m

    get-left_ids :
        (hash : String)
        → get_id hash left_ids ≡ (if is_deleted max_height hash hs then none else get_id hash m)
    get-left_ids hash =
        get-delete_ids max_height hash (map (unlink max_height hs) hs) m
        ∙ ap (λ c. if c then none else get_id hash m) (is_deleted-unlink max_height hash hs hs)

    -- No header above the height has the hash of one that is deleted.
    above-is_deleted :
        (i : ℕ) (h : LiveBlockHeader)
        → get_header i hs ≡ some h
        → max_height < h.base.height
        → is_deleted max_height h.base.hash hs ≡ false
    above-is_deleted i h f high = elim (Bool-cases (is_deleted max_height h.base.hash hs)) [
      | inr clear ↦ clear
      | inl hit ↦
          let (k, g, low, same) = deleted-found max_height h.base.hash hs t.distinct hit in
          let i_is : some i ≡ some k.header_id =
            sym (x.known i h f) ∙ ap (λ y. get_id y m) (sym same) ∙ x.known k.header_id k g in
          let at_k : i ≡ k.header_id = cc in
          let is_k : some h ≡ some k = sym f ∙ ap (λ j. get_header j hs) at_k ∙ g in
          let one : h ≡ k = cc in
          absurd (omega (arith, low, high, ap (λ (z : LiveBlockHeader). z.base.height) one))
    ]

    pub pruned-IsIndex : IsIndex ks left_ids
    pruned-IsIndex = record {
      known = λ i k e.
          let (h, f, high, u, _) = back-IsUnlinked i k e in
          ap (λ (z : BlockHeader). get_id z.hash left_ids) u.same_base
          ∙ get-left_ids h.base.hash
          ∙ ap (λ c. if c then none else get_id h.base.hash m) (above-is_deleted i h f high)
          ∙ x.known i h f;
      stored = λ hash i e.
          let was = sym (get-left_ids hash) ∙ e in
          elim (Bool-cases (is_deleted max_height hash hs)) [
            | inl hit ↦
                let gone : none ≡ some i =
                  sym (ap (λ c. if c then none else get_id hash m) hit) ∙ was in
                cc
            | inr clear ↦
                let old = sym (ap (λ c. if c then none else get_id hash m) clear) ∙ was in
                let (h, f, same) = x.stored hash i old in
                elim (Bool-cases (leb h.base.height max_height)) [
                  | inl low ↦
                      let hit : is_deleted max_height hash hs ≡ true =
                        ap (λ y. is_deleted max_height y hs) (sym same)
                        ∙ found-deleted max_height i hs h f (leb→le _ _ low) in
                      cc
                  | inr high ↦
                      let u = unlink-IsUnlinked max_height hs h in
                      (
                        unlink max_height hs h,
                        r.forth i h f (leb→gt _ _ high),
                        ap (λ (z : BlockHeader). z.hash) u.same_base ∙ same,
                      )
                ]
          ];
    }
