-- ===== src/Sync/Rows.antt =====
-- Merging a newer version of a row into the local one: `mergeExisting` of EntityTransaction.ts,
-- EntityOutput.ts, EntityTxLabelMap.ts and EntityUser.ts. What is written to the storage is the row
-- that results.
use Prim.Native.String.{String}
use wallet_toolbox_rocksdb.Base.Int.{ℤ}
use wallet_toolbox_rocksdb.Base.{
  ℕ, Bool, true, false, Option, none, some, List, [], ◌∷◌, ltb, ◌||◌, if◌then◌else◌, max, not, ◌&&◌,
  ◌==◌, ◌≡◌, ◌≢◌, ◌<◌, ◌≤◌, refl, sym, ap, ◌∙◌, inl, inr, arith, Bool-cases, All, lt→ltb,
}
use wallet_toolbox_rocksdb.Sync.{IdMap, lookup}
pub mod Newest

-- `ei.x ? idMap[ei.x] : undefined`, which takes an id of 0 for none.
pub map_id : IdMap → Option ℕ → Option ℕ
unfolding lookup
map_id m none = none
map_id m (some i) = if i == 0 then none else lookup i m

-- The columns but `created_at`, which merging leaves alone.
pub record TableTransaction : Type 0 where
  pub updated_at : ℕ
  pub transaction_id : ℕ
  pub user_id : ℕ
  pub proven_tx_id : Option ℕ
  pub status : String
  pub reference : String
  pub is_outgoing : Bool
  pub satoshis : ℤ
  pub description : String
  pub version : Option ℕ
  pub lock_time : Option ℕ
  pub txid : Option String
  pub input_beef : Option (List ℕ)
  pub raw_tx : Option (List ℕ)

-- The merged properties: all but the ids and the reference. The ids of proofs are mapped.
abbrev pub overwrite_transaction : IdMap → (ei this : TableTransaction) → TableTransaction
overwrite_transaction m ei this = record this {
  version = ei.version;
  lock_time = ei.lock_time;
  is_outgoing = ei.is_outgoing;
  status = ei.status;
  proven_tx_id = map_id m ei.proven_tx_id;
  satoshis = ei.satoshis;
  txid = ei.txid;
  description = ei.description;
  raw_tx = ei.raw_tx;
  input_beef = ei.input_beef;
  updated_at = max ei.updated_at this.updated_at;
}

-- The row and whether it was merged.
unfoldable pub merge_transaction : IdMap → (ei this : TableTransaction) → TableTransaction × Bool
merge_transaction m ei this =
    if ltb this.updated_at ei.updated_at
    then (overwrite_transaction m ei this, true)
    else (this, false)

-- The columns but `created_at`, `scriptHash` and `cacheUpdatedAt`, which merging leaves alone.
pub record TableOutput : Type 0 where
  pub updated_at : ℕ
  pub output_id : ℕ
  pub user_id : ℕ
  pub transaction_id : ℕ
  pub basket_id : Option ℕ
  pub spendable : Bool
  pub change : Bool
  pub output_description : String
  pub vout : ℕ
  pub satoshis : ℕ
  pub provided_by : String
  pub purpose : String
  pub kind : String
  pub txid : Option String
  pub sender_identity_key : Option String
  pub derivation_prefix : Option String
  pub derivation_suffix : Option String
  pub custom_instructions : Option String
  pub spent_by : Option ℕ
  pub sequence_number : Option ℕ
  pub spending_description : Option String
  pub script_length : Option ℕ
  pub script_offset : Option ℕ
  pub locking_script : Option (List ℕ)

abbrev pub overwrite_output : IdMap → (ei this : TableOutput) → TableOutput
overwrite_output m ei this = record this {
  spent_by = map_id m ei.spent_by;
  spendable = ei.spendable;
  change = ei.change;
  kind = ei.kind;
  provided_by = ei.provided_by;
  purpose = ei.purpose;
  output_description = ei.output_description;
  spending_description = ei.spending_description;
  sender_identity_key = ei.sender_identity_key;
  custom_instructions = ei.custom_instructions;
  script_length = ei.script_length;
  script_offset = ei.script_offset;
  locking_script = ei.locking_script;
  updated_at = max ei.updated_at this.updated_at;
}

pub merge_output : IdMap → (ei this : TableOutput) → TableOutput × Bool
merge_output m ei this =
    if ltb this.updated_at ei.updated_at then (overwrite_output m ei this, true) else (this, false)

pub record TableTxLabelMap : Type 0 where
  pub updated_at : ℕ
  pub tx_label_id : ℕ
  pub transaction_id : ℕ
  pub is_deleted : Bool

abbrev pub overwrite_label_map : (ei this : TableTxLabelMap) → TableTxLabelMap
overwrite_label_map ei this = record this {
  is_deleted = ei.is_deleted;
  updated_at = max ei.updated_at this.updated_at;
}

pub merge_label_map : (ei this : TableTxLabelMap) → TableTxLabelMap × Bool
merge_label_map ei this =
    if ltb this.updated_at ei.updated_at then (overwrite_label_map ei this, true) else (this, false)

pub record TableUser : Type 0 where
  pub updated_at : ℕ
  pub user_id : ℕ
  pub active_storage : Option String

abbrev is_set : Option String → Bool
is_set none = false
is_set (some s) = true

-- A user that has no active storage takes that of an older record too.
pub merge_user : (ei this : TableUser) → TableUser × Bool
merge_user ei this =
    if ltb this.updated_at ei.updated_at
      || not (is_set this.active_storage) && is_set ei.active_storage
    then (
      record this {
        active_storage = ei.active_storage;
        updated_at = max ei.updated_at this.updated_at;
      },
      true,
    )
    else (this, false)
