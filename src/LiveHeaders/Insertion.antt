-- ===== src/LiveHeaders/Insertion.antt =====
-- `insertHeader` of ChaintracksStorageNoDb.ts: a header joins the live headers, and the active chain
-- moves to it where it has the most work. The last bulk file, of the bulk file manager, and `notn`
-- of BigNumber are parameters. The pruning that the source starts at the end and does not await runs
-- after the insertion.
pub mod Search
pub mod Tests
pub mod Forks
pub mod First
pub mod Outcome
pub mod Sound
pub mod Extension
pub mod Acceptance
pub mod Switch
pub mod Activation
pub mod Deactivation
use Prim.Native.String.{String}
use text.Mathlib.Text.{◌==◌ as str_eq}
pub use wallet_toolbox_rocksdb.Base.Results.{ok, err, ◌>>=◌}
use wallet_toolbox_rocksdb.Base.Results.{Fallible}
use wallet_toolbox_rocksdb.Base.{
  ℕ, zero, suc, ◌+◌, ◌-◌, Bool, true, false, not, ◌&&◌, Option, none, some, List, [], ◌∷◌, ◌++◌,
  ◌==◌, if◌then◌else◌, length, find_first, min,
}
use wallet_toolbox_rocksdb.Base.Int.{ℤ, pos, ◌-ℤ◌}
use wallet_toolbox_rocksdb.BlockHeader.{BlockHeader}
use wallet_toolbox_rocksdb.ChainWork.{convert_bits_to_work, add_work, is_more_work}
use wallet_toolbox_rocksdb.LiveHeaders.{
  LiveBlockHeader, LiveData, get_header, set_header, get_previous, get_id, set_id, active_tip,
  find_chain_tip_header_or_undefined, find_by_hash,
}

-- Of a bulk file, what follows its last header.
pub record BulkFile : Type 0 where
  pub last_hash : String
  pub last_chain_work : ℕ
  pub first_height : ℕ
  pub count : ℕ

pub record InsertHeaderResult : Type 0 where
  pub added : Bool
  pub dupe : Bool
  pub no_prev : Bool
  pub bad_prev : Bool
  pub no_active_ancestor : Bool
  pub is_active_tip : Bool
  pub reorg_depth : ℤ
  pub prior_tip : Option LiveBlockHeader
  pub no_tip : Bool
  pub deactivated_headers : List LiveBlockHeader

-- What the source throws, and the end of the fuel of a loop.
pub data Stop : Type 0 where
  no_bulk_headers : Stop
  missing_link : Stop
  out_of_fuel : Stop

abbrev pub Result {ℓ} : Type ℓ → Type ℓ
Result A = Fallible Stop A

abbrev pub initial_result : InsertHeaderResult
initial_result = record {
  added = false;
  dupe = false;
  no_prev = false;
  bad_prev = false;
  no_active_ancestor = false;
  is_active_tip = false;
  reorg_depth = pos 0;
  prior_tip = none;
  no_tip = false;
  deactivated_headers = [];
}

-- `while (!activeAncestor.isActive)`; no ancestor is `ok none`.
pub find_active_ancestor :
    (fuel : ℕ) → List LiveBlockHeader → LiveBlockHeader → Result (Option LiveBlockHeader)
unfolding get_previous
find_active_ancestor zero hs h = err out_of_fuel
find_active_ancestor (suc fuel) hs h = elim h.is_active [
  | true ↦ ok (some h)
  | false ↦ elim (get_previous h.previous_header_id hs) [
    | none ↦ ok none
    | some p ↦ find_active_ancestor fuel hs p
  ]
]

-- The loop over `headerToDeactivate`, with the headers deactivated so far.
pub deactivate_headers :
    (fuel ancestor_id : ℕ)
    → Option LiveBlockHeader
    → List LiveBlockHeader
    → List LiveBlockHeader
    → Result (List LiveBlockHeader × List LiveBlockHeader)
unfolding get_previous set_header
deactivate_headers zero ancestor_id h hs deactivated = err out_of_fuel
deactivate_headers (suc fuel) ancestor_id none hs deactivated = ok (hs, deactivated)
deactivate_headers (suc fuel) ancestor_id (some h) hs deactivated =
    elim (h.header_id == ancestor_id) [
      | true ↦ ok (hs, deactivated)
      | false ↦
          let hs' = set_header (record h { is_active = false }) hs in
          deactivate_headers fuel ancestor_id (get_previous h.previous_header_id hs') hs'
            (deactivated ++ h ∷ [])
    ]

-- The loop over `headerToActivate`; a previous header that is missing makes it throw.
pub activate_headers :
    (fuel ancestor_id : ℕ) → LiveBlockHeader → List LiveBlockHeader → Result (List LiveBlockHeader)
unfolding get_previous set_header
activate_headers zero ancestor_id h hs = err out_of_fuel
activate_headers (suc fuel) ancestor_id h hs = elim (h.header_id == ancestor_id) [
  | true ↦ ok hs
  | false ↦
      let hs' = set_header (record h { is_active = true }) hs in
      elim (get_previous h.previous_header_id hs') [
        | none ↦ err missing_link
        | some p ↦ activate_headers fuel ancestor_id p hs'
      ]
]

-- The branch of a header that becomes the tip and has an active ancestor other than its previous
-- header.
pub switch_chain :
    (one_back ancestor : LiveBlockHeader)
    → LiveData
    → Result (List LiveBlockHeader × List LiveBlockHeader)
unfolding deactivate_headers activate_headers find_chain_tip_header_or_undefined
switch_chain one_back ancestor s =
    if ancestor.header_id == one_back.header_id then ok (s.live_headers, []) else do
      (down, deactivated) ←
          deactivate_headers (s.max_header_id + 2) ancestor.header_id
            (find_chain_tip_header_or_undefined s) s.live_headers []
      up ← activate_headers (s.max_header_id + 2) ancestor.header_id one_back down
      ok (up, deactivated)

-- `one_back` is written as it was when it was found.
pub retire_tip : (one_back : LiveBlockHeader) → List LiveBlockHeader → List LiveBlockHeader
unfolding set_header
retire_tip one_back hs =
    if one_back.is_chain_tip then set_header (record one_back { is_chain_tip = false }) hs else hs

-- The id of the new header has been taken from `max_header_id` before.
pub add_live_header : LiveBlockHeader → LiveData → LiveData
unfolding set_header set_id
add_live_header new s = record s {
  live_headers = set_header new s.live_headers;
  hash_to_header_id = set_id new.base.hash new.header_id s.hash_to_header_id;
  tip_header_id = if new.is_active then new.header_id else s.tip_header_id;
}

pub live_header : BlockHeader → (id chain_work : ℕ) → Option ℕ → Bool → LiveBlockHeader
live_header h id chain_work previous is_tip = record {
  base = h;
  chain_work = chain_work;
  is_chain_tip = is_tip;
  is_active = is_tip;
  header_id = id;
  previous_header_id = previous;
}

abbrev pub depth_of : (prior_tip ancestor : LiveBlockHeader) → BlockHeader → ℤ
depth_of prior_tip ancestor h = pos (min prior_tip.base.height h.height) -ℤ pos ancestor.base.height

-- The writes at the end of the insertion; the id of the new header is the largest by then.
pub accept : (one_back new : LiveBlockHeader) → List LiveBlockHeader → LiveData → LiveData
unfolding add_live_header retire_tip
accept one_back new hs s =
    add_live_header new
      (record s { live_headers = retire_tip one_back hs; max_header_id = new.header_id })

abbrev pub result_after : (prior_tip : LiveBlockHeader) → (is_tip : Bool) → InsertHeaderResult
result_after prior_tip is_tip = record initial_result {
  prior_tip = some prior_tip;
  is_active_tip = is_tip;
}

-- The new header has the most work, and the search for an active ancestor is over.
pub become_tip :
    (one_back prior_tip new : LiveBlockHeader)
    → LiveData
    → (ancestor : Option LiveBlockHeader) → Result (LiveData × InsertHeaderResult)
unfolding switch_chain accept
become_tip one_back prior_tip new s none = ok (
  record s { max_header_id = new.header_id },
  record (result_after prior_tip true) { no_active_ancestor = true },
)
become_tip one_back prior_tip new s (some ancestor) = do
  (hs, deactivated) ← switch_chain one_back ancestor s
  ok (
    accept one_back new hs s,
    record (result_after prior_tip true) {
      added = true;
      reorg_depth = if active_tip one_back then pos 0 else depth_of prior_tip ancestor new.base;
      deactivated_headers = deactivated;
    },
  )

-- The active tip before the insertion.
abbrev pub prior_tip_of : LiveBlockHeader → LiveData → Option LiveBlockHeader
unfolding find_chain_tip_header_or_undefined
prior_tip_of one_back s =
    if active_tip one_back then some one_back else find_chain_tip_header_or_undefined s

module _ (notn : ℕ → ℕ → ℕ) where
  -- The new header is the first, or follows no live header.
  pub insert_first :
      Option BulkFile → BlockHeader → LiveData → Result (LiveData × InsertHeaderResult)
  unfolding convert_bits_to_work add_work live_header add_live_header
  insert_first last_file h s =
      let refused : LiveData × InsertHeaderResult = (s, record initial_result { no_prev = true }) in
      if length s.live_headers == 0
      then elim last_file [
        | none ↦ err no_bulk_headers
        | some f ↦
            elim (str_eq h.previous_hash f.last_hash && (h.height == f.first_height + f.count)) [
              | false ↦ ok refused
              | true ↦
                  let id = s.max_header_id + 1 in
                  let chain_work = add_work f.last_chain_work (convert_bits_to_work notn h.bits) in
                  ok (
                    add_live_header (live_header h id chain_work none true)
                        (record s { max_header_id = id }),
                    record initial_result { is_active_tip = true; added = true },
                  )
            ]
      ]
      else ok refused

  -- The new header follows `one_back`, and `prior_tip` is the active tip.
  pub insert_after :
      (one_back prior_tip : LiveBlockHeader)
      → BlockHeader
      → LiveData
      → Result (LiveData × InsertHeaderResult)
  unfolding convert_bits_to_work add_work is_more_work live_header accept find_active_ancestor
      become_tip
  insert_after one_back prior_tip h s =
      let id = s.max_header_id + 1 in
      let chain_work = add_work one_back.chain_work (convert_bits_to_work notn h.bits) in
      let is_tip = is_more_work chain_work prior_tip.chain_work in
      let new = live_header h id chain_work (some one_back.header_id) is_tip in
      if is_tip
      then (find_active_ancestor (s.max_header_id + 2) s.live_headers one_back
          >>= become_tip one_back prior_tip new s)
      else ok (
        accept one_back new s.live_headers s,
        record (result_after prior_tip false) { added = true },
      )

  pub insert_header :
      (last_file : Option BulkFile)
      → BlockHeader
      → LiveData
      → Result (LiveData × InsertHeaderResult)
  unfolding insert_first insert_after
  insert_header last_file h s = elim (get_id h.hash s.hash_to_header_id) [
    | some id ↦ ok (s, record initial_result { dupe = true })
    | none ↦ elim (find_by_hash h.previous_hash s.live_headers) [
      | none ↦ insert_first last_file h s
      | some one_back ↦
          if not (one_back.base.height + 1 == h.height)
          then ok (s, record initial_result { bad_prev = true })
          else elim (prior_tip_of one_back s) [
            | none ↦ ok (s, record initial_result { no_tip = true })
            | some prior_tip ↦ insert_after one_back prior_tip h s
          ]
    ]
  ]
