-- ===== src/Sync/Tests.antt =====
-- Runs of the synchronisation, and instances of what is proved of it.
use Prim.Native.String.{String}
use wallet_toolbox_rocksdb.Base.Int.{negsuc}
use wallet_toolbox_rocksdb.Base.{
  ℕ, ◌+◌, true, false, Option, none, some, List, [], ◌∷◌, map, ◌≡◌, ◌⊎◌, refl,
}
use wallet_toolbox_rocksdb.Sync.{
  ok, get_map, Kinds, Round, SyncState, process_sync_chunk, next_offsets, merge_id_map,
}
use wallet_toolbox_rocksdb.Sync.Rows.{TableTransaction, merge_transaction, overwrite_transaction}
use wallet_toolbox_rocksdb.Sync.Rows.Newest.{merge_all, NewestOf, merge_transactions-NewestOf}
use wallet_toolbox_rocksdb.Sync.Maps.{Extends, merge_id_map-Extends}
use wallet_toolbox_rocksdb.Sync.Chunks.{add_sizes, all_last, process_sync_chunk_lem}

abbrev version : (updated_at : ℕ) → String → TableTransaction
version updated_at status = record {
  updated_at = updated_at;
  transaction_id = 1;
  user_id = 1;
  proven_tx_id = some 4;
  status = status;
  reference = "ref";
  is_outgoing = true;
  satoshis = negsuc 99;
  description = "test";
  version = some 1;
  lock_time = none;
  txid = none;
  input_beef = none;
  raw_tx = none;
}

abbrev arrivals : List TableTransaction
arrivals = version 5 "sending" ∷ (version 9 "completed" ∷ (version 7 "unproven" ∷ []))

newest_test :
    (merge_all (merge_transaction ((4, 8) ∷ [])) arrivals (version 6 "nosend")).status ≡ "completed"
unfolding merge_transaction
newest_test = refl

merge_transactions-NewestOf_example :
    NewestOf
      (λ t. t.updated_at)
      (overwrite_transaction ((4, 8) ∷ []))
      arrivals
      (version 6 "nosend")
      (merge_all (merge_transaction ((4, 8) ∷ [])) arrivals (version 6 "nosend"))
merge_transactions-NewestOf_example =
    merge_transactions-NewestOf ((4, 8) ∷ []) arrivals (version 6 "nosend")

merged_maps : merge_id_map ((1, 5) ∷ ((2, 6) ∷ [])) ((2, 6) ∷ []) ≡ ok ((1, 5) ∷ ((2, 6) ∷ []))
unfolding merge_id_map
merged_maps = refl

merge_id_map-Extends_example :
    Extends ((2, 6) ∷ []) ((1, 5) ∷ ((2, 6) ∷ []))
    × Extends ((1, 5) ∷ ((2, 6) ∷ [])) ((1, 5) ∷ ((2, 6) ∷ []))
merge_id_map-Extends_example =
    merge_id_map-Extends ((1, 5) ∷ ((2, 6) ∷ [])) ((2, 6) ∷ []) ((1, 5) ∷ ((2, 6) ∷ [])) merged_maps

-- A storage that gives out ids, and finds nothing; an external entity is its id and date.
abbrev counter : Kinds ℕ (ℕ × ℕ) ℕ
counter = record {
  updated_at = λ ei. ei.1;
  id_of = λ eo. eo;
  find = λ kind store ei maps. ok (record { found = false; eo = 0; ei_id = some ei.0 });
  merge_existing = λ store eo ei maps. ok (store, eo, false);
  merge_new = λ store eo maps. ok (store + 1, store + 1);
}

abbrev one_kind : SyncState
one_kind = record {
  when = some 3;
  sync_map = record { id_map = (9, 2) ∷ []; max_updated_at = none; count = 4 } ∷ [];
}

abbrev chunk : List (Option (List (ℕ × ℕ)))
chunk = some ((7, 10) ∷ ((8, 12) ∷ [])) ∷ []

abbrev after_chunk : SyncState
after_chunk = record {
  when = some 3;
  sync_map =
      record { id_map = (8, 12) ∷ ((7, 11) ∷ ((9, 2) ∷ [])); max_updated_at = some 12; count = 6 }
      ∷ [];
}

abbrev after_round : Round ℕ
after_round = record {
  progress = record { store = 12; maps = after_chunk.sync_map; inserts = 2; updates = 0 };
  latest = some 12;
  done = false;
}

chunk_run : process_sync_chunk counter one_kind 10 none chunk ≡ ok (after_chunk, after_round)
unfolding process_sync_chunk
chunk_run = refl

process_sync_chunk_lem_example :
    ((k : ℕ) → Extends (get_map k one_kind.sync_map).id_map (get_map k after_chunk.sync_map).id_map)
    × (((all_last counter chunk ≡ true)
          × (after_chunk.when ≡ after_round.latest)
          × (next_offsets after_chunk ≡ map (λ c. 0) (next_offsets after_chunk)))
        ⊎ ((all_last counter chunk ≡ false)
            × (after_chunk.when ≡ one_kind.when)
            × (next_offsets after_chunk ≡ add_sizes counter chunk (next_offsets one_kind))))
process_sync_chunk_lem_example =
    process_sync_chunk_lem counter one_kind after_chunk 10 none chunk after_round chunk_run
