-- ===== src/Store/Retention/Bounds.antt =====
-- How many events a prune deletes.
use reddotrelay.Prelude.{
  ℕ, ◌+◌, ◌≤◌, ◌≡◌, refl, Bool, true, false, not, ◌||◌, List, [], ◌∷◌, ok, ◌==◌, arith, any, select,
  length, length-take-le, sort, length-select_none, Unique, Bool-cases, inl, inr,
}
use reddotrelay.Core.{Event, EventId, same_id, same_id_iff}
use reddotrelay.Store.Db.{Db}
use reddotrelay.Store.Invariant.{IsValid, same_event}
use reddotrelay.Store.History.{delete_events}
use reddotrelay.Store.History.Keys.{delete_events-IsValid}
use reddotrelay.Store.Retention.{
  prune_victims, is_victim, is_eligible, older_event, prune_delivered_before,
}

length-split :
    {A : Type 0} (p : A → Bool) (xs : List A)
    → length (select p xs) + length (select (λ x. not (p x)) xs) ≡ length xs
length-split p [] = omega arith
length-split p (x ∷ xs) = ground (arith, length-split p xs)

length-select_or :
    {A : Type 0} (p q : A → Bool) (xs : List A)
    → length (select (λ x. p x || q x) xs) ≤ length (select p xs) + length (select q xs)
length-select_or p q [] = omega arith
length-select_or p q (x ∷ xs) = ground (arith, length-select_or p q xs)

-- No event of the rest has the identity that the first one has.
no_other :
    (id : EventId) (e : Event) (es : List Event)
    → same_id id e.id ≡ true
    → any (same_event e) es ≡ false
    → length (select (λ x. same_id id x.id) es) ≡ 0
no_other id e es h u =
    length-select_none (λ x. same_id id x.id) es (rw ((same_id_iff id e.id).0 h) u)

-- An identity is that of one event at most.
at_most_one :
    (id : EventId) (es : List Event)
    → Unique same_event es
    → length (select (λ x. same_id id x.id) es) ≤ 1
at_most_one id [] u = omega arith
at_most_one id (e ∷ es) u = elim (Bool-cases (same_id id e.id)) [
  | inl h ↦ rw h (omega (arith, no_other id e es h u.0))
  | inr h ↦ rw h (at_most_one id es u.1)
]

length-victims :
    (vs es : List Event) → Unique same_event es → length (select (is_victim vs) es) ≤ length vs
length-victims [] es u = ground (
  arith,
  length-split (λ (e : Event). false) es,
  length-select_none (λ (e : Event). false) es (none es),
)
  where
    none : (es : List Event) → any (λ (e : Event). false) es ≡ false
    none [] = refl
    none (e ∷ es) = none es
length-victims (v ∷ vs) es u = omega (
  arith,
  length-select_or (λ x. same_id v.id x.id) (is_victim vs) es,
  at_most_one v.id es u,
  length-victims vs es u,
)

-- What a prune has done when it reports a count.
pub record Pruned (limit count : ℕ) (old new : Db) : Type 0 where
  pub bounded : count ≤ limit
  pub counted : length new.events + count ≡ length old.events
  pub valid : IsValid new

pub prune-Pruned :
    (cutoff limit : ℕ) (db : Db)
    → (limit == 0) ≡ false
    → IsValid db
    → (count : ℕ) × ((prune_delivered_before cutoff limit db).0 ≡ ok count)
      × Pruned limit count db (prune_delivered_before cutoff limit db).1
unfolding prune_delivered_before prune_victims delete_events
prune-Pruned cutoff limit db z v = rw z (
  length (select (is_victim victims) db.events),
  refl,
  record {
    bounded = omega (
      arith,
      length-victims victims db.events v.events_unique,
      length-take-le limit (sort older_event (select (is_eligible cutoff db) db.events)),
    );
    counted = omega (arith, length-split (is_victim victims) db.events);
    valid = delete_events-IsValid (is_victim victims) db v;
  },
)
  where
    victims : List Event
    victims = prune_victims cutoff limit db
