-- ===== src/Processor/Tests.antt =====
-- A batch of one log, which the decoder of the decoder's tests decodes.
use reddotrelay.Prelude.{ℕ, List, [], ◌∷◌, some, len, OnDone}
use reddotrelay.Core.{Event, Delivery}
use reddotrelay.Decoder.{decode, destinations}
use reddotrelay.Decoder.Tests.{
  unary_eth, unary_eth-IsSound, spec, loaded, load-spec, spec-AbiIsHashed, log,
}
use reddotrelay.Store.Events.Tests.{block_7, at_7}
use reddotrelay.Store.Db.{empty_db}
use reddotrelay.Store.Invariant.{empty_db-IsValid}
use reddotrelay.Processor.{process, decode_logs}
use reddotrelay.Processor.Batches.{IsBatch, decode_logs-IsBatch}
use reddotrelay.Processor.Saved.{NoFault, Saved, process-Saved, process-decoder}

abbrev clock : ℕ → ℕ
clock n = 10

decode_logs-IsBatch_example :
    OnDone
      (λ (r : List Event × List Delivery).
        IsBatch
          (λ at raw. decode unary_eth loaded (clock at) raw)
          (destinations unary_eth loaded)
          clock
          (log ∷ [])
          0
          r.0
          r.1)
      (decode_logs
        (λ at raw. decode unary_eth loaded (clock at) raw)
        (destinations unary_eth loaded)
        clock
        (log ∷ [])
        0
        0)
decode_logs-IsBatch_example =
    decode_logs-IsBatch (λ at raw. decode unary_eth loaded (clock at) raw)
      (destinations unary_eth loaded) clock (log ∷ []) 0 0

process-Saved_example :
    Saved
      (λ at raw. decode unary_eth loaded (clock at) raw)
      (destinations unary_eth loaded)
      clock
      (log ∷ [])
      at_7
      empty_db
      (process
        (λ at raw. decode unary_eth loaded (clock at) raw)
        (destinations unary_eth loaded)
        clock
        (log ∷ [])
        (some (block_7 ∷ []))
        at_7
        5
        empty_db)
process-Saved_example =
    process-Saved (λ at raw. decode unary_eth loaded (clock at) raw) (destinations unary_eth loaded)
      clock (log ∷ []) (some (block_7 ∷ [])) at_7 5 empty_db empty_db-IsValid

process-decoder_example :
    NoFault
      (process
        (λ at raw. decode unary_eth loaded (clock at) raw)
        (destinations unary_eth loaded)
        clock
        (log ∷ [])
        (some (block_7 ∷ []))
        at_7
        0
        empty_db).0
process-decoder_example =
    process-decoder unary_eth len (spec ∷ []) loaded clock (log ∷ []) (some (block_7 ∷ [])) at_7 0
      empty_db unary_eth-IsSound spec-AbiIsHashed load-spec
