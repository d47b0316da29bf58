-- ===== src/LiveHeaders/Insertion/Acceptance.antt =====
-- The end of `insertHeader`: the previous header stops being a chain tip and the new header is
-- written, with its entry in the index of hashes.
use Prim.Native.String.{String}
use text.Mathlib.Text.{◌==◌ as str_eq}
use text.Mathlib.TextEquality.{eq_iff}
use wallet_toolbox_rocksdb.Base.{
  ℕ, ◌+◌, ◌≤◌, ◌<◌, true, false, none, some, List, ◌≡◌, refl, sym, ap, ◌∙◌, inl, inr, arith,
  Bool-cases, subst,
}
use wallet_toolbox_rocksdb.LiveHeaders.{
  LiveBlockHeader, LiveData, get_header, set_header, get_id, set_id,
}
use wallet_toolbox_rocksdb.LiveHeaders.Store.{Distinct, set-Distinct, get-set_id}
use wallet_toolbox_rocksdb.LiveHeaders.Tree.{
  IsTree, IsAlike, Reflags, IsTree-Reflags, set-Reflags, set_self,
}
use wallet_toolbox_rocksdb.LiveHeaders.Growth.{IsTree-add, get-new-cases, get-kept}
use wallet_toolbox_rocksdb.LiveHeaders.Chain.{IsActiveChain, IsReady, IsActiveChain-add}
use wallet_toolbox_rocksdb.LiveHeaders.Insertion.{retire_tip, accept}

-- The index leads from the hash of each header, and of no other, to the header.
pub record IsIndex (hs : List LiveBlockHeader) (m : List (String × ℕ)) : Type 0 where
  pub known :
      (i : ℕ) (h : LiveBlockHeader) → get_header i hs ≡ some h → get_id h.base.hash m ≡ some i
  pub stored :
      (hash : String) (i : ℕ)
      → get_id hash m ≡ some i
      → (h : LiveBlockHeader) × (get_header i hs ≡ some h) × (h.base.hash ≡ hash)

pub IsIndex-Reflags :
    (hs ks : List LiveBlockHeader) (m : List (String × ℕ))
    → Reflags hs ks
    → IsIndex hs m
    → IsIndex ks m
IsIndex-Reflags hs ks m r x = record {
  known = λ i k e.
      let (h, f, al) = r.back i k e in ap (λ b. get_id b.hash m) al.same_base ∙ x.known i h f;
  stored = λ hash i e.
      let (h, f, same) = x.stored hash i e in
      let (k, g, al) = r.forth i h f in (k, g, ap (λ b. b.hash) al.same_base ∙ same);
}

pub IsIndex-add :
    (last : ℕ) (hs : List LiveBlockHeader) (new : LiveBlockHeader) (m : List (String × ℕ))
    → IsTree last hs
    → new.header_id ≡ last + 1
    → get_id new.base.hash m ≡ none
    → IsIndex hs m
    → IsIndex (set_header new hs) (set_id new.base.hash new.header_id m)
IsIndex-add last hs new m t fresh unknown x = record {
  known = λ i h e. elim (get-new-cases last hs new t fresh i h e) [
    | inl hit ↦
        let is_new : h ≡ new = hit.1 in
        let at : get_id new.base.hash (set_id new.base.hash new.header_id m) ≡ some new.header_id =
          ground (
            arith,
            get-set_id new.base.hash new.base.hash new.header_id m,
            eq_iff new.base.hash new.base.hash,
          ) in
        ap (λ z. get_id z.base.hash (set_id new.base.hash new.header_id m)) is_new
        ∙ at
        ∙ ap some (sym hit.0)
    | inr old ↦
        let was = x.known i h old in
        ground (
          arith,
          get-set_id new.base.hash h.base.hash new.header_id m,
          eq_iff new.base.hash h.base.hash,
        )
  ];
  stored = λ hash i e. elim (Bool-cases (str_eq new.base.hash hash)) [
    | inl hit ↦
        let at_new : i ≡ new.header_id =
          ground (arith, get-set_id new.base.hash hash new.header_id m) in
        (
          new,
          ap (λ z. get_header z (set_header new hs)) at_new ∙ set_self new hs,
          (eq_iff new.base.hash hash).0 hit,
        )
    | inr miss ↦
        let old : get_id hash m ≡ some i =
          ground (arith, get-set_id new.base.hash hash new.header_id m) in
        let (h, f, same) = x.stored hash i old in (h, get-kept last hs new t fresh i h f, same)
  ];
}

-- The header that is no longer a chain tip is as it was otherwise, but for its activity.
module _ (hs ks : List LiveBlockHeader) (o : LiveBlockHeader) (r : Reflags hs ks)
    (o_found : get_header o.header_id hs ≡ some o) where
  IsAlike-bare : IsAlike o (record o { is_chain_tip = false })
  IsAlike-bare = record {
    same_base = refl;
    same_work = refl;
    same_id = refl;
    same_link = refl;
    still_tip = λ t. cc;
  }

  pub retire_tip-Reflags : Reflags hs (retire_tip o ks)
  unfolding retire_tip
  retire_tip-Reflags = elim (Bool-cases o.is_chain_tip) [
    | inl tip ↦
        let eq : retire_tip o ks ≡ set_header (record o { is_chain_tip = false }) ks =
          ground arith in
        subst (Reflags hs) (sym eq)
          (set-Reflags o (record o { is_chain_tip = false }) hs ks r o_found IsAlike-bare)
    | inr bare ↦ let eq : retire_tip o ks ≡ ks = ground arith in subst (Reflags hs) (sym eq) r
  ]

  pub retire_tip-Distinct : Distinct ks → Distinct (retire_tip o ks)
  unfolding retire_tip
  retire_tip-Distinct d = elim (Bool-cases o.is_chain_tip) [
    | inl tip ↦
        let eq : retire_tip o ks ≡ set_header (record o { is_chain_tip = false }) ks =
          ground arith in
        subst Distinct (sym eq) (set-Distinct (record o { is_chain_tip = false }) ks d)
    | inr bare ↦ let eq : retire_tip o ks ≡ ks = ground arith in subst Distinct (sym eq) d
  ]

  -- What is found under the id of the header then.
  pub retire_tip-found :
      (q : LiveBlockHeader) × (get_header o.header_id (retire_tip o ks) ≡ some q)
      × IsAlike o q
      × (q.is_chain_tip ≡ false)
  unfolding retire_tip
  retire_tip-found = elim (Bool-cases o.is_chain_tip) [
    | inl tip ↦
        let bare = record o { is_chain_tip = false } in
        let eq : retire_tip o ks ≡ set_header bare ks = ground arith in
        (bare, ap (get_header o.header_id) eq ∙ set_self bare ks, IsAlike-bare, refl)
    | inr bare ↦
        let eq : retire_tip o ks ≡ ks = ground arith in
        let (k, f, al) = r.forth o.header_id o o_found in
        (
          k,
          ap (get_header o.header_id) eq ∙ f,
          al,
          elim (Bool-cases k.is_chain_tip) [
            | inl still ↦ let was = al.still_tip still in cc
            | inr no_tip ↦ no_tip
          ],
        )
  ]

-- The new header follows `o`, and no header has its hash.
pub record Follows (o new : LiveBlockHeader) (last : ℕ) (m : List (String × ℕ)) : Type 0 where
  pub fresh : new.header_id ≡ last + 1
  pub link : new.previous_header_id ≡ some o.header_id
  pub below : o.base.height + 1 ≡ new.base.height
  pub less : o.chain_work < new.chain_work
  pub named : o.base.hash ≡ new.base.previous_hash
  pub unknown : get_id new.base.hash m ≡ none

module _ (s : LiveData) (ks : List LiveBlockHeader) (o new : LiveBlockHeader)
    (t : IsTree s.max_header_id s.live_headers) (x : IsIndex s.live_headers s.hash_to_header_id)
    (o_found : get_header o.header_id s.live_headers ≡ some o)
    (f : Follows o new s.max_header_id s.hash_to_header_id) (r : Reflags s.live_headers ks)
    (d : Distinct ks) where
  retired-IsTree : IsTree s.max_header_id (retire_tip o ks)
  retired-IsTree =
      IsTree-Reflags s.max_header_id s.live_headers (retire_tip o ks) t
        (retire_tip-Reflags s.live_headers ks o r o_found)
        (retire_tip-Distinct s.live_headers ks o r o_found d)

  pub accept-IsTree : IsTree (accept o new ks s).max_header_id (accept o new ks s).live_headers
  unfolding accept
  accept-IsTree =
      let (q, g, al, bare) = retire_tip-found s.live_headers ks o r o_found in
      IsTree-add s.max_header_id (retire_tip o ks) new retired-IsTree f.fresh (
        inr (
          q,
          ap (λ i. get_header i (retire_tip o ks)) al.same_id ∙ g,
          record {
            link = f.link ∙ ap some (sym al.same_id);
            below = ap (λ b. b.height + 1) al.same_base ∙ f.below;
            less = omega (arith, f.less, al.same_work);
            named = ap (λ b. b.hash) al.same_base ∙ f.named;
            no_tip = bare;
          },
        ))

  pub accept-IsIndex :
      IsIndex (accept o new ks s).live_headers (accept o new ks s).hash_to_header_id
  unfolding accept
  accept-IsIndex =
      IsIndex-add s.max_header_id (retire_tip o ks) new s.hash_to_header_id retired-IsTree f.fresh
        f.unknown
        (IsIndex-Reflags s.live_headers (retire_tip o ks) s.hash_to_header_id
          (retire_tip-Reflags s.live_headers ks o r o_found) x)

  -- The new header is the tip of a chain that was ready for it.
  pub accept-IsActiveChain :
      IsReady o (retire_tip o ks)
      → new.is_active ≡ true
      → new.is_chain_tip ≡ true
      → ((i : ℕ) (h : LiveBlockHeader)
          → get_header i s.live_headers ≡ some h
          → h.chain_work ≤ new.chain_work)
      → IsActiveChain new (accept o new ks s).live_headers
  unfolding accept
  accept-IsActiveChain ready a c most =
      let (q, g, al, bare) = retire_tip-found s.live_headers ks o r o_found in
      IsActiveChain-add s.max_header_id (retire_tip o ks) o q new retired-IsTree f.fresh g f.link
        f.below ready a c
        (λ i k e.
          let (h, e', al') = (retire_tip-Reflags s.live_headers ks o r o_found).back i k e in
          omega (arith, al'.same_work, most i h e'))
