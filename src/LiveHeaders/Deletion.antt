-- ===== src/LiveHeaders/Deletion.antt =====
-- The lists of `deleteOlderLiveBlockHeaders` in ChaintracksStorageNoDb.ts: which headers and hashes are
-- left.
use Prim.Native.String.{String}
use text.Mathlib.Text.{◌==◌ as str_eq}
use text.Mathlib.TextEquality.{eq_iff}
use wallet_toolbox_rocksdb.Base.{
  ℕ, suc, ◌+◌, ◌≤◌, ◌<◌, Bool, true, false, not, ◌&&◌, ◌||◌, Option, none, some, List, [], ◌∷◌, map,
  keep_if, leb, ◌==◌, if◌then◌else◌, ◌≡◌, ◌≢◌, refl, sym, ap, ◌∙◌, ◌⊎◌, inl, inr, arith, Bool-cases,
  Option-cases, subst, leb→le, leb→gt, ==_iff, find_first,
}
use wallet_toolbox_rocksdb.LiveHeaders.{
  LiveBlockHeader, LiveData, get_header, get_previous, get_id, delete_id, active_tip, unlink,
  delete_ids, delete_older_live_block_headers, find_chain_tip_header_or_undefined,
}
use wallet_toolbox_rocksdb.LiveHeaders.Store.{get-header_id, Distinct}
use wallet_toolbox_rocksdb.LiveHeaders.Tree.{IsTree}
use wallet_toolbox_rocksdb.LiveHeaders.Chain.{IsChain, IsActiveChain}
use wallet_toolbox_rocksdb.LiveHeaders.Insertion.Switch.{find-tip}
use wallet_toolbox_rocksdb.LiveHeaders.Insertion.Acceptance.{IsIndex}
use wallet_toolbox_rocksdb.LiveHeaders.Insertion.Sound.{HasTip, IsSound}
pub mod Pruning
pub mod Kept
pub mod Sound

-- Filtering and changing the headers of a map, by a change that keeps the ids.
module _ (p : LiveBlockHeader → Bool) (f : LiveBlockHeader → LiveBlockHeader)
    (same : (h : LiveBlockHeader) → (f h).header_id ≡ h.header_id) where
  abbrev pub filtered : List LiveBlockHeader → List LiveBlockHeader
  filtered hs = keep_if p (map f hs)

  pub get-filtered-none :
      (i : ℕ) (hs : List LiveBlockHeader)
      → get_header i hs ≡ none
      → get_header i (filtered hs) ≡ none
  unfolding get_header
  get-filtered-none i [] e = refl
  get-filtered-none i (h ∷ hs) e = ground (arith, same h, get-filtered-none i hs)

  pub get-filtered :
      (i : ℕ) (hs : List LiveBlockHeader) {h : LiveBlockHeader}
      → Distinct hs
      → get_header i hs ≡ some h
      → get_header i (filtered hs) ≡ (if p (f h) then some (f h) else none)
  unfolding get_header
  get-filtered i [] d e = cc
  get-filtered i (k ∷ ks) {h} d e = elim (Bool-cases (k.header_id == i)) [
    | inl hit ↦
        let is_h : some k ≡ some h = rw (hit, get_header) at e in
        let at_i : k.header_id ≡ i = (==_iff _ _).0 hit in
        let gone : get_header i ks ≡ none = ap (λ j. get_header j ks) (sym at_i) ∙ d.0 in
        ground (arith, same k, get-filtered-none i ks)
    | inr miss ↦
        let old : get_header i ks ≡ some h = rw (miss, get_header) at e in
        ground (arith, same k, get-filtered i ks {h = h} d.1 old)
  ]

  pub filtered-Distinct : (hs : List LiveBlockHeader) → Distinct hs → Distinct (filtered hs)
  unfolding get_header
  filtered-Distinct [] d = tt
  filtered-Distinct (h ∷ hs) d = elim (Bool-cases (p (f h))) [
    | inl kept ↦
        let gone = get-filtered-none h.header_id hs d.0 in
        let gone' : get_header (f h).header_id (filtered hs) ≡ none =
          ap (λ j. get_header j (filtered hs)) (same h) ∙ gone in
        rw kept (gone', filtered-Distinct hs d.1)
    | inr dropped ↦ rw dropped (filtered-Distinct hs d.1)
  ]

-- The index without the hashes of the headers that are deleted.
abbrev pub is_deleted : (max_height : ℕ) → String → List LiveBlockHeader → Bool
is_deleted max_height x [] = false
is_deleted max_height x (h ∷ hs) =
    leb h.base.height max_height && str_eq h.base.hash x || is_deleted max_height x hs

get-delete_id :
    (x y : String) (m : List (String × ℕ))
    → get_id x (delete_id y m) ≡ (if str_eq y x then none else get_id x m)
unfolding get_id delete_id
get-delete_id x y [] = ground arith
get-delete_id x y ((k, i) ∷ m) =
    ground (arith, eq_iff y x, eq_iff k y, eq_iff k x, get-delete_id x y m)

pub get-delete_ids :
    (max_height : ℕ) (x : String) (hs : List LiveBlockHeader) (m : List (String × ℕ))
    → get_id x (delete_ids max_height hs m)
      ≡ (if is_deleted max_height x hs then none else get_id x m)
unfolding delete_ids
get-delete_ids max_height x [] m = refl
get-delete_ids max_height x (h ∷ hs) m =
    let first = get-delete_id x h.base.hash m in
    ground (
      arith,
      get-delete_ids max_height x hs m,
      get-delete_ids max_height x hs (delete_id h.base.hash m),
    )

-- A hash is deleted exactly when a header with it is.
pub deleted-found :
    (max_height : ℕ) (x : String) (hs : List LiveBlockHeader)
    → Distinct hs
    → is_deleted max_height x hs ≡ true
    → (h : LiveBlockHeader) × (get_header h.header_id hs ≡ some h)
      × (h.base.height ≤ max_height)
      × (h.base.hash ≡ x)
unfolding get_header
deleted-found max_height x [] d e = cc
deleted-found max_height x (h ∷ hs) d e =
    elim (Bool-cases (leb h.base.height max_height && str_eq h.base.hash x)) [
      | inl hit ↦ (h, ground arith, ground arith, (eq_iff h.base.hash x).0 (ground arith))
      | inr miss ↦
          let (k, f, low, named) = deleted-found max_height x hs d.1 (ground arith) in
          (k, ground arith, low, named)
    ]

pub found-deleted :
    (max_height i : ℕ) (hs : List LiveBlockHeader) (h : LiveBlockHeader)
    → get_header i hs ≡ some h
    → h.base.height ≤ max_height
    → is_deleted max_height h.base.hash hs ≡ true
unfolding get_header
found-deleted max_height i [] h e low = cc
found-deleted max_height i (k ∷ ks) h e low = elim (Bool-cases (k.header_id == i)) [
  | inl hit ↦
      let is_h : some k ≡ some h = rw (hit, get_header) at e in
      let same : k ≡ h = cc in ground (arith, eq_iff k.base.hash h.base.hash)
  | inr miss ↦
      let old : get_header i ks ≡ some h = rw (miss, get_header) at e in
      ground (arith, found-deleted max_height i ks h old low)
]
