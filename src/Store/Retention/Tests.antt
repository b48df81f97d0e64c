-- ===== src/Store/Retention/Tests.antt =====
-- Prunes, at 20, of the database whose one delivery has been delivered at that time.
use reddotrelay.Prelude.{refl, inl, arith, In}
use reddotrelay.Store.Events.Tests.{transfer}
use reddotrelay.Store.Outbox.Tests.{holding, delivered_hook}
use reddotrelay.Store.Retention.{prune_delivered_before}
use reddotrelay.Store.Retention.Laws.{
  delivered_late, by_delivery, prune-keeps_undelivered, prune-keeps_ineligible,
}

prune-keeps_undelivered_example :
    In delivered_hook (prune_delivered_before 20 3 (holding delivered_hook)).1.deliveries
prune-keeps_undelivered_example =
    prune-keeps_undelivered 20 3 (holding delivered_hook) delivered_hook (inl refl)
      (delivered_late 20 refl (omega arith))

prune-keeps_ineligible_example :
    In transfer (prune_delivered_before 20 3 (holding delivered_hook)).1.events
prune-keeps_ineligible_example =
    prune-keeps_ineligible 20 3 (holding delivered_hook) transfer (inl refl)
      (by_delivery delivered_hook (inl refl) refl (delivered_late 20 refl (omega arith)))
