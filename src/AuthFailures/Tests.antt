-- ===== src/AuthFailures/Tests.antt =====
-- Five failures of one key, a second apart.
use reddotrelay.Prelude.{◌<◌, ◌≤◌, refl, List, [], ◌∷◌, arith, length}
use reddotrelay.AuthFailures.{Failure, failure_maximum, delete_expired, retry_after, record_failure}
use reddotrelay.AuthFailures.Blocks.{record_all, retry_after-blocks}
use reddotrelay.AuthFailures.Bounded.{record_failure-bounded}

abbrev one_other : List Failure
one_other = record { key = 8; count = 3; first_seen = 1 } ∷ []

retry_after-blocks_example :
    0
    < (retry_after 7 6000000000 (
        record_all 7
          (2000000000 ∷ 3000000000 ∷ 4000000000 ∷ 5000000000 ∷ [])
          (record_failure 7 1000000000 one_other))).0
unfolding delete_expired
retry_after-blocks_example =
    retry_after-blocks 7 1000000000 6000000000
      (2000000000 ∷ 3000000000 ∷ 4000000000 ∷ 5000000000 ∷ []) one_other refl (omega arith)
      (omega arith, (omega arith, (omega arith, (omega arith, tt)))) (omega arith) (omega arith)

record_failure-bounded_example : length (record_failure 7 1000000000 one_other) ≤ failure_maximum
record_failure-bounded_example = record_failure-bounded 7 1000000000 one_other (omega arith)
