-- ===== src/Store/Retention/Laws.antt =====
-- What pruning leaves in the tables.
use reddotrelay.Prelude.{
  ℕ, Bool, true, false, not, ◌&&◌, ◌≡◌, refl, ap, subst, List, [], ◌∷◌, ◌==◌, any, arith,
  Bool-cases, inl, inr, All, In, any-In, All-select_self, All-take, All-sort, In-select, none, some,
  ◌≤◌, ◌⊎◌,
}
use reddotrelay.Core.{Event, EventId, Delivery, pending, dead, same_id, same_id_iff}
use reddotrelay.Store.Db.{Db, has_id}
use reddotrelay.Store.Outbox.{is_delivered}
use reddotrelay.Store.History.{delete_events, survives}
use reddotrelay.Store.Retention.{
  blocks_prune, eligible_id, is_eligible, older_event, prune_victims, is_victim,
  prune_delivered_before,
}

victims-eligible :
    (cutoff limit : ℕ) (db : Db)
    → All (λ v. is_eligible cutoff db v ≡ true) (prune_victims cutoff limit db)
unfolding prune_victims
victims-eligible cutoff limit db =
    All-take _ limit _
      (All-sort older_event _ _ (All-select_self (is_eligible cutoff db) db.events))

-- What is true of the victims' identities is true of an event's that is a victim.
victim_of :
    (P : EventId → Type 0) (vs : List Event) (e : Event)
    → All (λ (v : Event). P v.id) vs
    → is_victim vs e ≡ true
    → P e.id
victim_of P [] e h k = cc
victim_of P (v ∷ vs) e h k = elim (Bool-cases (same_id v.id e.id)) [
  | inl s ↦ subst P ((same_id_iff v.id e.id).0 s) h.0
  | inr s ↦ victim_of P vs e h.1 (rw s at k)
]

victim-eligible :
    (cutoff limit : ℕ) (db : Db) (e : Event)
    → is_victim (prune_victims cutoff limit db) e ≡ true
    → eligible_id cutoff db.deliveries e.id ≡ true
unfolding is_eligible
victim-eligible cutoff limit db e =
    victim_of (λ id. eligible_id cutoff db.deliveries id ≡ true) (prune_victims cutoff limit db) e
      (victims-eligible cutoff limit db)

-- A delivery that blocks keeps its event from being eligible.
blocked :
    (cutoff : ℕ) (ds : List Delivery) (d : Delivery)
    → In d ds
    → blocks_prune cutoff d ≡ true
    → eligible_id cutoff ds d.event_id ≡ true
    → ⊥
unfolding eligible_id
blocked cutoff ds d m b h = ground (
  arith,
  any-In (λ x. same_id x.event_id d.event_id && blocks_prune cutoff x) d ds m
      (rw ((same_id_iff d.event_id d.event_id).1 refl, b)),
)

none_deleted :
    (p : Event → Bool) (d : Delivery) (es : List Event)
    → ((e : Event) → d.event_id ≡ e.id → p e ≡ true → ⊥)
    → any (λ e. has_id d.event_id e && p e) es ≡ false
none_deleted p d [] h = refl
none_deleted p d (e ∷ es) h = elim (Bool-cases (has_id d.event_id e)) [
  | inr s ↦ rw s (none_deleted p d es h)
  | inl s ↦ elim (Bool-cases (p e)) [
    | inl k ↦ absurd (h e ((same_id_iff d.event_id e.id).0 s) k)
    | inr k ↦ rw (s, k) (none_deleted p d es h)
  ]
]

-- Retention leaves alone a delivery that blocks.
blocking-kept :
    (cutoff limit : ℕ) (db : Db) (d : Delivery)
    → In d db.deliveries
    → blocks_prune cutoff d ≡ true
    → survives (is_victim (prune_victims cutoff limit db)) db.events d ≡ true
unfolding survives
blocking-kept cutoff limit db d m b = ap not (
    none_deleted (is_victim (prune_victims cutoff limit db)) d db.events
      λ e' i v. blocked cutoff db.deliveries d m b (rw i (victim-eligible cutoff limit db e' v)))

-- What keeps a delivery from being deleted: it is pending or dead, or was delivered at or after the
-- cutoff, or at no known time.
pub data IsProtected (cutoff : ℕ) (d : Delivery) : Type 0 where
  still_pending : d.status ≡ pending → IsProtected cutoff d
  dead_letter : d.status ≡ dead → IsProtected cutoff d
  delivered_late : (at : ℕ) → d.delivered_at ≡ some at → cutoff ≤ at → IsProtected cutoff d
  undated : d.delivered_at ≡ none → IsProtected cutoff d

IsProtected-blocks :
    (cutoff : ℕ) (d : Delivery) → IsProtected cutoff d → blocks_prune cutoff d ≡ true
unfolding blocks_prune is_delivered
IsProtected-blocks cutoff d (still_pending e) = rw e refl
IsProtected-blocks cutoff d (dead_letter e) = rw e refl
IsProtected-blocks cutoff d (delivered_late at e l) = ground arith
IsProtected-blocks cutoff d (undated e) = ground arith

-- Retention never deletes a delivery that is pending or dead, that was delivered at or after the cutoff,
-- or that has no time of delivery.
pub prune-keeps_undelivered :
    (cutoff limit : ℕ) (db : Db) (d : Delivery)
    → In d db.deliveries
    → IsProtected cutoff d
    → In d (prune_delivered_before cutoff limit db).1.deliveries
unfolding prune_delivered_before delete_events
prune-keeps_undelivered cutoff limit db d m b = elim (Bool-cases (limit == 0)) [
  | inl e ↦ rw (e, prune_delivered_before) m
  | inr e ↦
      rw (e, prune_delivered_before)
        (In-select _ d db.deliveries m
          (blocking-kept cutoff limit db d m (IsProtected-blocks cutoff d b)))
]

-- What keeps an event from being deleted: it has no delivery, or one that is protected.
pub data IsHeld (cutoff : ℕ) (db : Db) (e : Event) : Type 0 where
  no_delivery : All (λ (d : Delivery). d.event_id ≡ e.id → ⊥) db.deliveries → IsHeld cutoff db e
  by_delivery :
      (d : Delivery)
      → In d db.deliveries
      → d.event_id ≡ e.id
      → IsProtected cutoff d
      → IsHeld cutoff db e

without_delivery :
    (ds : List Delivery) (id : EventId)
    → All (λ (d : Delivery). d.event_id ≡ id → ⊥) ds
    → any (λ d. same_id d.event_id id) ds ≡ false
without_delivery [] id h = refl
without_delivery (d ∷ ds) id h = elim (Bool-cases (same_id d.event_id id)) [
  | inl s ↦ absurd (h.0 ((same_id_iff d.event_id id).0 s))
  | inr s ↦ rw s (without_delivery ds id h.1)
]

IsHeld-ineligible :
    (cutoff : ℕ) (db : Db) (e : Event)
    → IsHeld cutoff db e
    → eligible_id cutoff db.deliveries e.id ≡ true
    → ⊥
unfolding eligible_id
IsHeld-ineligible cutoff db e (no_delivery n) h =
    ground (arith, without_delivery db.deliveries e.id n)
IsHeld-ineligible cutoff db e (by_delivery d m i b) h =
    blocked cutoff db.deliveries d m (IsProtected-blocks cutoff d b) (rw i h)

-- Retention deletes no event that has no delivery, or that has one which is pending or dead, was
-- delivered at or after the cutoff, or has no time of delivery.
pub prune-keeps_ineligible :
    (cutoff limit : ℕ) (db : Db) (e : Event)
    → In e db.events
    → IsHeld cutoff db e
    → In e (prune_delivered_before cutoff limit db).1.events
unfolding prune_delivered_before delete_events
prune-keeps_ineligible cutoff limit db e m h = elim (Bool-cases (limit == 0)) [
  | inl z ↦ rw (z, prune_delivered_before) m
  | inr z ↦
      rw (z, prune_delivered_before)
        (In-select _ e db.events m (go (Bool-cases (is_victim (prune_victims cutoff limit db) e))))
]
  where
    go :
        (is_victim (prune_victims cutoff limit db) e ≡ true)
          ⊎ (is_victim (prune_victims cutoff limit db) e ≡ false)
        → not (is_victim (prune_victims cutoff limit db) e) ≡ true
    go (inl v) = absurd (IsHeld-ineligible cutoff db e h (victim-eligible cutoff limit db e v))
    go (inr v) = rw v refl
