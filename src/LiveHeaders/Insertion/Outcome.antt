-- ===== src/LiveHeaders/Insertion/Outcome.antt =====
-- `insertHeader` from its guards on: every call returns, and keeps the invariant of the live headers.
use Prim.Native.String.{String}
use text.Mathlib.Text.{◌==◌ as str_eq}
use text.Mathlib.TextEquality.{eq_iff}
use wallet_toolbox_rocksdb.Base.{
  ℕ, ◌+◌, ◌<◌, true, false, ◌&&◌, Option, none, some, List, [], ◌∷◌, ◌≡◌, refl, sym, ap, ◌∙◌, inl,
  inr, arith, ◌==◌, length, Bool-cases, Option-cases, ==_iff,
}
use wallet_toolbox_rocksdb.BlockHeader.{BlockHeader}
use wallet_toolbox_rocksdb.ChainWork.{convert_bits_to_work}
use wallet_toolbox_rocksdb.LiveHeaders.{
  LiveBlockHeader, LiveData, get_header, get_id, active_tip, find_by_hash,
}
use wallet_toolbox_rocksdb.LiveHeaders.Store.{find_first-get}
use wallet_toolbox_rocksdb.LiveHeaders.Tree.{IsTree}
use wallet_toolbox_rocksdb.LiveHeaders.Chain.{IsActiveChain}
use wallet_toolbox_rocksdb.LiveHeaders.Insertion.{
  ok, InsertHeaderResult, BulkFile, add_live_header, live_header, insert_after, insert_first,
  insert_header, prior_tip_of, initial_result,
}
use wallet_toolbox_rocksdb.LiveHeaders.Insertion.Switch.{find-tip}
use wallet_toolbox_rocksdb.LiveHeaders.Insertion.Sound.{
  HasTip, IsSound, Inserted, insert_after-IsSound,
}
use wallet_toolbox_rocksdb.LiveHeaders.Insertion.First.{find_by_hash-nil, first-IsSound}

pub find_by_hash-named :
    (hash : String) (s : LiveData) {o : LiveBlockHeader}
    → IsTree s.max_header_id s.live_headers
    → find_by_hash hash s.live_headers ≡ some o
    → (get_header o.header_id s.live_headers ≡ some o) × (o.base.hash ≡ hash)
unfolding find_by_hash
find_by_hash-named hash s {o} t e =
    let (f, p) = find_first-get (λ h. str_eq h.base.hash hash) s.live_headers t.distinct e in
    (f, (eq_iff o.base.hash hash).0 p)

prior_tip_of-tip :
    (o tip : LiveBlockHeader) (s : LiveData)
    → IsTree s.max_header_id s.live_headers
    → IsActiveChain tip s.live_headers
    → get_header o.header_id s.live_headers ≡ some o
    → prior_tip_of o s ≡ some tip
unfolding prior_tip_of
prior_tip_of-tip o tip s t act o_found = elim (Bool-cases (active_tip o)) [
  | inr other ↦ rw other (find-tip s.max_header_id tip s t act)
  | inl both ↦
      let live : o.is_active ≡ true = ground arith in
      let ends : o.is_chain_tip ≡ true = ground arith in
      let same = act.lone o.header_id o o_found live ends in
      rw both (sym o_found ∙ ap (λ i. get_header i s.live_headers) same ∙ act.found)
]

nil_of_length : (hs : List LiveBlockHeader) → (length hs == 0) ≡ true → hs ≡ []
nil_of_length [] e = refl
nil_of_length (h ∷ hs) e = ground arith

module _ (notn : ℕ → ℕ → ℕ) where
  insert_first-added :
      (file : BulkFile) (h : BlockHeader) (s : LiveData)
      → (length s.live_headers == 0) ≡ true
      → (str_eq h.previous_hash file.last_hash && (h.height == file.first_height + file.count))
        ≡ true
      → insert_first notn (some file) h s
        ≡ ok (
          add_live_header
              (live_header h
                (s.max_header_id + 1)
                (file.last_chain_work + convert_bits_to_work notn h.bits)
                none
                true)
              (record s { max_header_id = s.max_header_id + 1 }),
          record initial_result { is_active_tip = true; added = true },
        )
  unfolding insert_first
  insert_first-added file h s empty follows = rw (empty, follows) refl

  insert_first-refused :
      (file : BulkFile) (h : BlockHeader) (s : LiveData)
      → (length s.live_headers == 0) ≡ true
      → (str_eq h.previous_hash file.last_hash && (h.height == file.first_height + file.count))
        ≡ false
      → insert_first notn (some file) h s ≡ ok (s, record initial_result { no_prev = true })
  unfolding insert_first
  insert_first-refused file h s empty other = rw (empty, other) refl

  insert_first-IsSound :
      (file : BulkFile) (h : BlockHeader) (s : LiveData)
      → IsSound s
      → get_id h.hash s.hash_to_header_id ≡ none
      → (s' : LiveData) × (r : InsertHeaderResult) × (insert_first notn (some file) h s
          ≡ ok (s', r))
        × IsSound s'
  unfolding insert_first live_header
  insert_first-IsSound file h s v unknown =
      let refused = record initial_result { no_prev = true } in
      elim (Bool-cases (length s.live_headers == 0)) [
        | inr more ↦ (s, refused, rw more refl, v)
        | inl none_yet ↦
            let empty = nil_of_length s.live_headers none_yet in
            let test =
              str_eq h.previous_hash file.last_hash
              && (h.height == file.first_height + file.count) in
            elim (Bool-cases test) [
              | inr other ↦ (s, refused, insert_first-refused file h s none_yet other, v)
              | inl follows ↦
                  let id = s.max_header_id + 1 in
                  let work = file.last_chain_work + convert_bits_to_work notn h.bits in
                  let new = live_header h id work none true in
                  (
                    add_live_header new (record s { max_header_id = id }),
                    record initial_result { is_active_tip = true; added = true },
                    insert_first-added file h s none_yet follows,
                    first-IsSound s new v empty unknown refl refl refl refl,
                  )
            ]
      ]

  module _ (file : BulkFile) (h : BlockHeader) (s : LiveData) where
    insert_header-dupe :
        {id : ℕ}
        → get_id h.hash s.hash_to_header_id ≡ some id
        → insert_header notn (some file) h s ≡ ok (s, record initial_result { dupe = true })
    unfolding insert_header
    insert_header-dupe dupe = rw (insert_header, dupe) refl

    insert_header-first :
        get_id h.hash s.hash_to_header_id ≡ none
        → find_by_hash h.previous_hash s.live_headers ≡ none
        → insert_header notn (some file) h s ≡ insert_first notn (some file) h s
    unfolding insert_header
    insert_header-first unknown no_prev = rw (insert_header, unknown, no_prev) refl

    insert_header-bad_prev :
        (o : LiveBlockHeader)
        → get_id h.hash s.hash_to_header_id ≡ none
        → find_by_hash h.previous_hash s.live_headers ≡ some o
        → (o.base.height + 1 == h.height) ≡ false
        → insert_header notn (some file) h s ≡ ok (s, record initial_result { bad_prev = true })
    unfolding insert_header
    insert_header-bad_prev o unknown found apart = rw (insert_header, unknown, found, apart) refl

  module _ (s : LiveData) (v : IsSound s) (h : BlockHeader)
      (unknown : get_id h.hash s.hash_to_header_id ≡ none) (o tip : LiveBlockHeader)
      (found : find_by_hash h.previous_hash s.live_headers ≡ some o) (at_tip : HasTip tip s)
      (below : o.base.height + 1 ≡ h.height) where
    pub insert_header-after :
        (file : Option BulkFile) → insert_header notn file h s ≡ insert_after notn o tip h s
    unfolding insert_header
    insert_header-after file =
        let (o_found, _) = find_by_hash-named h.previous_hash s v.tree found in
        let prior = prior_tip_of-tip o tip s v.tree at_tip.0 o_found in
        let same : (o.base.height + 1 == h.height) ≡ true = (==_iff _ _).1 below in
        rw (insert_header, unknown, found, same, prior) refl

    pub insert_header-follows :
        (file : Option BulkFile)
        → (tip.chain_work < o.chain_work + convert_bits_to_work notn h.bits
            → o.is_active ≡ o.is_chain_tip)
        → (s' : LiveData) × (r : InsertHeaderResult) × (insert_header notn file h s ≡ ok (s', r))
          × IsSound s'
          × Inserted notn s o tip h s' r
    insert_header-follows file regular =
        let (o_found, named) = find_by_hash-named h.previous_hash s v.tree found in
        let (s', r, run, sound, outcome) =
          insert_after-IsSound notn s v o tip h o_found at_tip below named unknown regular in
        (s', r, insert_header-after file ∙ run, sound, outcome)

  -- Where a bulk file exists, every insertion into a sound state returns and leaves a sound state:
  -- its headers are a tree with distinct ids, the index of hashes leads to each of them and no other,
  -- and the active headers are a chain up to the only active tip, which has the most work. A header
  -- of more work than the tip must name a previous header that is active and marked as a chain tip, or
  -- neither of the two.
  pub insert_header-IsSound :
      (file : BulkFile) (h : BlockHeader) (s : LiveData)
      → IsSound s
      → ((o tip : LiveBlockHeader)
          → find_by_hash h.previous_hash s.live_headers ≡ some o
          → HasTip tip s
          → tip.chain_work < o.chain_work + convert_bits_to_work notn h.bits
          → o.is_active ≡ o.is_chain_tip)
      → (s' : LiveData) × (r : InsertHeaderResult) × (insert_header notn (some file) h s
          ≡ ok (s', r))
        × IsSound s'
  insert_header-IsSound file h s v regular =
      elim (Option-cases (get_id h.hash s.hash_to_header_id)) [
        | inr (id, dupe) ↦
            (s, record initial_result { dupe = true }, insert_header-dupe file h s dupe, v)
        | inl unknown ↦ elim (Option-cases (find_by_hash h.previous_hash s.live_headers)) [
          | inl no_prev ↦
              let (s', r, run, sound) = insert_first-IsSound file h s v unknown in
              (s', r, insert_header-first file h s unknown no_prev ∙ run, sound)
          | inr (o, found) ↦ elim (Bool-cases (o.base.height + 1 == h.height)) [
            | inr apart ↦ (
              s,
              record initial_result { bad_prev = true },
              insert_header-bad_prev file h s o unknown found apart,
              v,
            )
            | inl below ↦ elim v.tip [
              | inl empty ↦ absurd (find_by_hash-nil h.previous_hash s empty found)
              | inr (tip, at_tip) ↦
                  let (s', r, run, sound, _) =
                    insert_header-follows s v h unknown o tip found at_tip ((==_iff _ _).0 below)
                      (some file) (regular o tip found at_tip) in
                  (s', r, run, sound)
            ]
          ]
        ]
      ]
