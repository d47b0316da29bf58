-- ===== src/LiveHeaders/Store.antt =====
-- The map of live headers and the index of hashes: what is found after a write.
use Prim.Native.String.{String}
use text.Mathlib.Text.{◌==◌ as str_eq}
use text.Mathlib.TextEquality.{eq_iff}
use wallet_toolbox_rocksdb.Base.{
  ℕ, Bool, true, none, some, List, [], ◌∷◌, ◌==◌, ◌≡◌, refl, ap, inl, inr, arith, if◌then◌else◌,
  find_first, Bool-cases,
}
use wallet_toolbox_rocksdb.LiveHeaders.{LiveBlockHeader, get_header, set_header, get_id, set_id}

pub get-set :
    (j : ℕ) (new : LiveBlockHeader) (hs : List LiveBlockHeader)
    → get_header j (set_header new hs) ≡ (if new.header_id == j then some new else get_header j hs)
unfolding get_header set_header
get-set j new [] = ground arith
get-set j new (h ∷ hs) = ground (arith, get-set j new hs)

pub get-header_id :
    (i : ℕ) (hs : List LiveBlockHeader) {h : LiveBlockHeader}
    → get_header i hs ≡ some h
    → h.header_id ≡ i
unfolding get_header
get-header_id i [] e = cc
get-header_id i (k ∷ ks) {h} e = ground (arith, get-header_id i ks {h = h})

-- Each id once.
abbrev pub Distinct : List LiveBlockHeader → Type 0
unfolding get_header
Distinct [] = Unit
Distinct (h ∷ hs) = (get_header h.header_id hs ≡ none) × Distinct hs

pub set-Distinct :
    (new : LiveBlockHeader) (hs : List LiveBlockHeader) → Distinct hs → Distinct (set_header new hs)
unfolding set_header get_header
set-Distinct new [] d = (refl, tt)
set-Distinct new (h ∷ hs) d = elim (Bool-cases (h.header_id == new.header_id)) [
  | inl e ↦ rw e (ground (arith), d.1)
  | inr e ↦ rw e (ground (arith, get-set h.header_id new hs), set-Distinct new hs d.1)
]

pub find_first-get :
    (p : LiveBlockHeader → Bool) (hs : List LiveBlockHeader) {h : LiveBlockHeader}
    → Distinct hs
    → find_first p hs ≡ some h
    → (get_header h.header_id hs ≡ some h) × (p h ≡ true)
unfolding get_header
find_first-get p [] d e = cc
find_first-get p (k ∷ ks) {h} d e = elim (Bool-cases (p k)) [
  | inl t ↦ let f : some k ≡ some h = rw (t, find_first) at e in ground arith
  | inr t ↦
      let f : find_first p ks ≡ some h = rw (t, find_first) at e in
      let (g, q) = find_first-get p ks d.1 f in (ground arith, q)
]

pub get-find_first :
    (p : LiveBlockHeader → Bool) (i : ℕ) (hs : List LiveBlockHeader) {h : LiveBlockHeader}
    → get_header i hs ≡ some h
    → p h ≡ true
    → (k : LiveBlockHeader) × (find_first p hs ≡ some k)
unfolding get_header
get-find_first p i [] e q = cc
get-find_first p i (k ∷ ks) {h} e q = elim (Bool-cases (p k)) [
  | inl t ↦ (k, rw (t, find_first) refl)
  | inr t ↦ elim (Bool-cases (k.header_id == i)) [
    | inl u ↦
        let f : some k ≡ some h = rw (u, get_header) at e in let same : k ≡ h = cc in cc (ap p same)
    | inr u ↦
        let f : get_header i ks ≡ some h = rw (u, get_header) at e in
        let (m, g) = get-find_first p i ks f q in (m, rw (t, find_first) g)
  ]
]

pub get-set_id :
    (hash other : String) (id : ℕ) (m : List (String × ℕ))
    → get_id other (set_id hash id m) ≡ (if str_eq hash other then some id else get_id other m)
unfolding get_id set_id
get-set_id hash other id [] = refl
get-set_id hash other id ((k, i) ∷ m) =
    ground (arith, eq_iff hash other, eq_iff k hash, eq_iff k other, get-set_id hash other id m)
