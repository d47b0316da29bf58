-- ===== src/LiveHeaders/Tree.antt =====
-- The live headers as a tree: links to previous headers, and what a change of flags keeps.
use wallet_toolbox_rocksdb.Base.{
  ℕ, ◌+◌, ◌≤◌, ◌<◌, true, false, some, List, ◌==◌, ◌≡◌, ◌≢◌, refl, sym, ap, ◌∙◌, ◌⊎◌, inl, inr,
  arith, Bool-cases, ==_iff, subst,
}
use wallet_toolbox_rocksdb.BlockHeader.{BlockHeader}
use wallet_toolbox_rocksdb.LiveHeaders.{LiveBlockHeader, get_header, set_header}
use wallet_toolbox_rocksdb.LiveHeaders.Store.{get-set, Distinct}

-- Each id is there once, is above 0 and not above the last one given out; a link leads to an earlier header
-- one below, with less work and the hash that the header names; a chain tip has no header on it.
pub record IsTree (last : ℕ) (hs : List LiveBlockHeader) : Type 0 where
  pub distinct : Distinct hs
  pub bounded : (i : ℕ) (h : LiveBlockHeader) → get_header i hs ≡ some h → i ≤ last
  pub positive : (i : ℕ) (h : LiveBlockHeader) → get_header i hs ≡ some h → 0 < i
  pub linked :
      (i p : ℕ) (h : LiveBlockHeader)
      → get_header i hs ≡ some h
      → h.previous_header_id ≡ some p
      → (q : LiveBlockHeader) × (get_header p hs ≡ some q)
        × (p < i)
        × (q.base.height + 1 ≡ h.base.height)
        × (q.chain_work < h.chain_work)
        × (q.base.hash ≡ h.base.previous_hash)
  pub childless :
      (i p : ℕ) (h q : LiveBlockHeader)
      → get_header i hs ≡ some h
      → h.previous_header_id ≡ some p
      → get_header p hs ≡ some q
      → q.is_chain_tip ≡ false

-- The same header but for its flags, of which `is_chain_tip` may have been cleared.
pub record IsAlike (h k : LiveBlockHeader) : Type 0 where
  pub same_base : k.base ≡ h.base
  pub same_work : k.chain_work ≡ h.chain_work
  pub same_id : k.header_id ≡ h.header_id
  pub same_link : k.previous_header_id ≡ h.previous_header_id
  pub still_tip : k.is_chain_tip ≡ true → h.is_chain_tip ≡ true

pub record Reflags (hs ks : List LiveBlockHeader) : Type 0 where
  pub back :
      (i : ℕ) (k : LiveBlockHeader)
      → get_header i ks ≡ some k
      → (h : LiveBlockHeader) × (get_header i hs ≡ some h) × IsAlike h k
  pub forth :
      (i : ℕ) (h : LiveBlockHeader)
      → get_header i hs ≡ some h
      → (k : LiveBlockHeader) × (get_header i ks ≡ some k) × IsAlike h k

pub IsAlike-refl : (h : LiveBlockHeader) → IsAlike h h
IsAlike-refl h = record {
  same_base = refl;
  same_work = refl;
  same_id = refl;
  same_link = refl;
  still_tip = λ t. t;
}

pub IsAlike-trans : (h k l : LiveBlockHeader) → IsAlike h k → IsAlike k l → IsAlike h l
IsAlike-trans h k l a b = record {
  same_base = b.same_base ∙ a.same_base;
  same_work = b.same_work ∙ a.same_work;
  same_id = b.same_id ∙ a.same_id;
  same_link = b.same_link ∙ a.same_link;
  still_tip = λ t. a.still_tip (b.still_tip t);
}

pub Reflags-refl : (hs : List LiveBlockHeader) → Reflags hs hs
Reflags-refl hs = record {
  back = λ i k e. (k, e, IsAlike-refl k);
  forth = λ i h e. (h, e, IsAlike-refl h);
}

pub Reflags-trans :
    (hs ks ls : List LiveBlockHeader) → Reflags hs ks → Reflags ks ls → Reflags hs ls
Reflags-trans hs ks ls r t = record {
  back = λ i l e.
      let (k, f, b) = t.back i l e in
      let (h, g, a) = r.back i k f in (h, g, IsAlike-trans h k l a b);
  forth = λ i h e.
      let (k, f, a) = r.forth i h e in
      let (l, g, b) = t.forth i k f in (l, g, IsAlike-trans h k l a b);
}

-- What is found after a write, by whether it is the header that was written.
pub get-set-cases :
    (j : ℕ) (new : LiveBlockHeader) (hs : List LiveBlockHeader)
    → ((j ≡ new.header_id) × (get_header j (set_header new hs) ≡ some new))
      ⊎ ((j ≢ new.header_id) × (get_header j (set_header new hs) ≡ get_header j hs))
get-set-cases j new hs = elim (Bool-cases (new.header_id == j)) [
  | inl e ↦ inl (sym ((==_iff _ _).0 e), rw (get-set j new hs, e) refl)
  | inr e ↦ inr (ground arith, rw (get-set j new hs, e) refl)
]

pub set_self :
    (new : LiveBlockHeader) (hs : List LiveBlockHeader)
    → get_header new.header_id (set_header new hs) ≡ some new
set_self new hs = elim (get-set-cases new.header_id new hs) [
  | inl hit ↦ hit.1
  | inr miss ↦ absurd (miss.0 refl)
]

pub set-Reflags :
    (h new : LiveBlockHeader) (hs ks : List LiveBlockHeader)
    → Reflags hs ks
    → get_header h.header_id hs ≡ some h
    → IsAlike h new
    → Reflags hs (set_header new ks)
set-Reflags h new hs ks r e a = record {
  back = λ i k f. elim (get-set-cases i new ks) [
    | inl hit ↦
        let same : k ≡ new = cc in
        (h, rw (hit.0 ∙ a.same_id) e, subst (λ z. IsAlike h z) (sym same) a)
    | inr miss ↦ r.back i k (sym miss.1 ∙ f)
  ];
  forth = λ i k f. elim (get-set-cases i new ks) [
    | inl hit ↦
        let at_h : i ≡ h.header_id = hit.0 ∙ a.same_id in
        let same : k ≡ h = cc in (new, hit.1, subst (λ z. IsAlike z new) (sym same) a)
    | inr miss ↦ let (l, g, b) = r.forth i k f in (l, miss.1 ∙ g, b)
  ];
}

pub IsTree-Reflags :
    (last : ℕ) (hs ks : List LiveBlockHeader)
    → IsTree last hs
    → Reflags hs ks
    → Distinct ks
    → IsTree last ks
IsTree-Reflags last hs ks t r d = record {
  distinct = d;
  bounded = λ i k e. let (h, f, a) = r.back i k e in t.bounded i h f;
  positive = λ i k e. let (h, f, a) = r.back i k e in t.positive i h f;
  linked = λ i p k e l.
      let (h, f, a) = r.back i k e in
      let (q, g, before, below, less, named) = t.linked i p h f (sym a.same_link ∙ l) in
      let (m, n, b) = r.forth p q g in
      (
        m,
        n,
        before,
        ap (λ (z : BlockHeader). z.height + 1) b.same_base
            ∙ below
            ∙ sym (ap (λ (z : BlockHeader). z.height) a.same_base),
        omega (arith, b.same_work, a.same_work),
        ap (λ (z : BlockHeader). z.hash) b.same_base
            ∙ named
            ∙ sym (ap (λ (z : BlockHeader). z.previous_hash) a.same_base),
      );
  childless = λ i p k m e l n.
      let (h, f, a) = r.back i k e in
      let (q, g, b) = r.back p m n in
      let no_tip = t.childless i p h q f (sym a.same_link ∙ l) g in
      elim (Bool-cases m.is_chain_tip) [
        | inl yes_tip ↦ let was = b.still_tip yes_tip in cc
        | inr none_tip ↦ none_tip
      ];
}
