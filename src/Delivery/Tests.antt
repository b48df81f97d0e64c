-- ===== src/Delivery/Tests.antt =====
-- An attempt whose webhook answers 503, of the second of five attempts.
use reddotrelay.Prelude.{
  ◌-◌, ◌*◌, ◌^◌, ◌≤◌, ◌<◌, min, [], ◌∷◌, ◌≡◌, refl, none, some, ok, true, false,
}
use reddotrelay.Core.{OutboxItem}
use reddotrelay.Store.Events.Tests.{transfer}
use reddotrelay.Store.Outbox.Tests.{holding, leased_hook}
use reddotrelay.Delivery.{Options, Outside, valid_options, backoff, deliver}
use reddotrelay.Delivery.Backoff.{backoff-bounds, backoff-min}
use reddotrelay.Delivery.Outcomes.{Recorded}
use reddotrelay.Delivery.Records.{deliver-Recorded}

abbrev five_attempts : Options
five_attempts = record {
  workers = 2;
  batch_size = 10;
  http_timeout = 5;
  lease_duration = 30;
  retry_backoff = 2;
  max_backoff = 60;
  max_attempts = 5;
  poll_interval = 1;
}

-- A webhook that always answers 503, and a clock that stands still.
abbrev unavailable : Outside (Unit {0})
unavailable = record {
  marshal_payload = λ e. some (1 ∷ []);
  event_guid = λ e. "guid";
  status_text = λ n. "webhook returned an error";
  is_reference = λ s. false;
  is_webhook_url = λ s. true;
  is_request_url = λ s. true;
  sign = λ secret timestamp payload. [];
  unix_seconds = λ t. t;
  resolve = λ s w. (none, w);
  post = λ r w. (ok 503, w);
  now = λ w. (12, w);
}

abbrev leased_item : OutboxItem
leased_item = record { delivery = leased_hook; event = transfer }

deliver-Recorded_example :
    Recorded unavailable five_attempts leased_item tt
      (holding leased_hook)
      (deliver unavailable five_attempts leased_item (holding leased_hook) tt)
deliver-Recorded_example =
    deliver-Recorded unavailable five_attempts leased_item tt (holding leased_hook)

accepted : valid_options five_attempts ≡ true
unfolding valid_options
accepted = refl

backoff-bounds_example :
    (0 < backoff five_attempts 4) × (2 ≤ backoff five_attempts 4) × (backoff five_attempts 4 ≤ 60)
backoff-bounds_example = backoff-bounds five_attempts 4 accepted

backoff-min_example : backoff five_attempts 4 ≡ min (2 * 2 ^ (4 - 1)) 60
backoff-min_example = backoff-min five_attempts 4 refl
