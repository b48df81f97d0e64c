-- ===== src/Store/Events/Tests.antt =====
-- The batches of a first run: one event with one delivery.
use reddotrelay.Prelude.{[], ◌∷◌, ◌≡◌, refl, ok, none}
use reddotrelay.Core.{EventId, Event, Delivery, Checkpoint, CanonicalBlock, pending, same_id}
use reddotrelay.Store.Db.{OnOk, empty_db, valid_uint64, raise_if}
use reddotrelay.Store.Invariant.{IsValid, empty_db-IsValid}
use reddotrelay.Store.Events.{
  save_batch, save_batch_tx, insert_events, insert_event, insert_deliveries, insert_delivery,
  save_blocks, upsert_block,
}
use reddotrelay.Store.Events.Keys.{save_batch-IsValid}
use reddotrelay.Store.Events.Idempotent.{save_batch_again}
use reddotrelay.Store.Events.Progress.{Advanced, save_batch-Advanced}

abbrev pub transfer_id : EventId
transfer_id = record { chain_id = 1; transaction_hash = "0xaa"; log_index = 0 }

abbrev pub transfer : Event
transfer = record {
  id = transfer_id;
  block_number = 7;
  block_hash = "0xb7";
  address = "0xc0";
  name = "Transfer";
  signature = "Transfer(address)";
  raw_topics = "0xdd" ∷ [];
  raw_data = 1 ∷ [];
  decoded_payload = [];
  observed_at = 10;
}

abbrev pub hook : Delivery
hook = record {
  event_id = transfer_id;
  destination = "http://hook";
  authentication = record { kind = ""; secret_ref = ""; key_id = "" };
  status = pending;
  attempts = 0;
  total_attempts = 0;
  lease_token = "";
  next_attempt = 10;
  last_attempt_at = none;
  last_status_code = none;
  last_error = "";
  delivered_at = none;
}

abbrev pub block_7 : CanonicalBlock
block_7 = record { chain_id = 1; number = 7; hash = "0xb7"; parent_hash = "0xb6" }

abbrev pub at_7 : Checkpoint
at_7 = record { chain_id = 1; block_number = 7; block_hash = "0xb7" }

save_batch_runs : (save_batch (transfer ∷ []) (hook ∷ []) (block_7 ∷ []) at_7 5 empty_db).0 ≡ ok tt
unfolding save_batch save_batch_tx insert_events insert_event insert_deliveries insert_delivery
    save_blocks upsert_block valid_uint64 raise_if same_id
save_batch_runs = refl

save_batch-IsValid_example :
    IsValid (save_batch (transfer ∷ []) (hook ∷ []) (block_7 ∷ []) at_7 5 empty_db).1
save_batch-IsValid_example =
    save_batch-IsValid (transfer ∷ []) (hook ∷ []) (block_7 ∷ []) at_7 5 empty_db empty_db-IsValid

save_batch_again_example :
    let db' = (save_batch (transfer ∷ []) (hook ∷ []) (block_7 ∷ []) at_7 5 empty_db).1 in
    let db'' = (save_batch (transfer ∷ []) (hook ∷ []) [] at_7 0 db').1 in
    (db''.events ≡ db'.events) × (db''.deliveries ≡ db'.deliveries)
save_batch_again_example =
    save_batch_again (transfer ∷ []) (hook ∷ []) (block_7 ∷ []) [] at_7 at_7 5 0 empty_db
      save_batch_runs

save_batch-Advanced_example :
    OnOk
      (λ _ db'. Advanced at_7 [] db'.checkpoints)
      (save_batch (transfer ∷ []) (hook ∷ []) (block_7 ∷ []) at_7 5 empty_db)
save_batch-Advanced_example =
    save_batch-Advanced (transfer ∷ []) (hook ∷ []) (block_7 ∷ []) at_7 5 empty_db
