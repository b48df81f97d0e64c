-- ===== src/Store/Outbox/DeadLetters/Requeue.antt =====
-- The requeue of one event's dead deliveries, as one update.
use reddotrelay.Prelude.{
  ℕ, Bool, true, false, ◌&&◌, ◌||◌, ◌≡◌, refl, sym, ap, ◌∙◌, List, [], ◌∷◌, String, str_eq,
  if◌then◌else◌, select, any, map, All, All-In, In, any-In, Bool-cases, inl, inr, arith, eq_refl,
}
use reddotrelay.Core.{EventId, Delivery, same_id_iff}
use reddotrelay.Store.Db.{Db, same_delivery, same_delivery-eq}
use reddotrelay.Store.Outbox.{is_dead, update_rows, requeued_row}
use reddotrelay.Store.Outbox.DeadLetters.{is_dead_key, requeue_keys, is_match, requeue_dead_by_guid}

module _ {A : Type 0} (f : A → A) where
  update : (A → Bool) → List A → List A
  update p xs = map (λ x. if p x then f x else x) xs

  update_nothing : (xs : List A) → update (λ x. false) xs ≡ xs
  unfolding update
  update_nothing [] = refl
  update_nothing (x ∷ xs) = ap (λ r. x ∷ r) (update_nothing xs)

  update-update :
      (p q : A → Bool) (xs : List A)
      → ((x : A) → q (f x) ≡ false)
      → update q (update p xs) ≡ update (λ x. p x || q x) xs
  unfolding update
  update-update p q [] h = refl
  update-update p q (x ∷ xs) h = ground (arith, h x, update-update p q xs h)

  update_ext : (p q : A → Bool) (xs : List A) → All (λ x. p x ≡ q x) xs → update p xs ≡ update q xs
  unfolding update
  update_ext p q [] h = refl
  update_ext p q (x ∷ xs) h = ground (arith, h.0, update_ext p q xs h.1)

-- A requeued row is not requeued again.
requeued_not_dead :
    (now : ℕ) (keys : List Delivery) (d : Delivery)
    → any (λ k. is_dead_key k (requeued_row now d)) keys ≡ false
unfolding is_dead_key requeued_row is_dead
requeued_not_dead now [] d = refl
requeued_not_dead now (k ∷ keys) d = ground (arith, requeued_not_dead now keys d)

requeue_keys_lem :
    (now : ℕ) (keys : List Delivery) (db : Db)
    → (requeue_keys now keys db).1
      ≡ update_rows (λ d. any (λ k. is_dead_key k d) keys) (requeued_row now) db
unfolding requeue_keys update
requeue_keys_lem now [] db =
    ap (λ ds. record db { deliveries = ds }) (sym (update_nothing (requeued_row now) db.deliveries))
requeue_keys_lem now (k ∷ keys) db =
    requeue_keys_lem now keys (update_rows (is_dead_key k) (requeued_row now) db)
    ∙ ap (λ ds. record db { deliveries = ds })
        (update-update (requeued_row now) (is_dead_key k) (λ d. any (λ k. is_dead_key k d) keys)
          db.deliveries (requeued_not_dead now keys))

any-All : {A : Type 0} (p : A → Bool) (xs : List A) → All (λ x. p x ≡ false) xs → any p xs ≡ false
any-All p [] h = refl
any-All p (x ∷ xs) h = ground (arith, h.0, any-All p xs h.1)

In-select :
    {A : Type 0} (p : A → Bool) (x : A) (xs : List A) → In x xs → p x ≡ true → In x (select p xs)
In-select p x [] m h = elim m [ ]
In-select p x (y ∷ ys) (inl e) h = rw (ap p e ∙ h) (inl e)
In-select p x (y ∷ ys) (inr m) h = elim (Bool-cases (p y)) [
  | inl e ↦ rw e (inr (In-select p x ys m h))
  | inr e ↦ rw e (In-select p x ys m h)
]

module _ (event_guid : EventId → String) (normalize : String → String) (guid : String) where
  own_key : (d : Delivery) → is_match event_guid normalize guid d ≡ true → is_dead_key d d ≡ true
  unfolding is_match is_dead_key same_delivery
  own_key d h = ground (arith, same_id_iff d.event_id d.event_id, eq_refl d.destination)

  no_match :
      (d k : Delivery)
      → is_match event_guid normalize guid d ≡ false
      → is_match event_guid normalize guid k ≡ true
      → event_guid k.event_id ≡ event_guid d.event_id
      → is_dead d ≡ false
  unfolding is_match
  no_match d k n m e = elim (Bool-cases (is_dead d)) [
    | inl h ↦ absurd (true_ne (sym (same_match h) ∙ n))
    | inr h ↦ h
  ]
    where
      true_ne : true ≡ false → ⊥
      true_ne h = cc

      guid_eq : (str_eq (event_guid k.event_id) (normalize guid)) ≡ true
      guid_eq = ground arith

      same_match :
          is_dead d ≡ true → (is_dead d && str_eq (event_guid d.event_id) (normalize guid)) ≡ true
      same_match h = rw (h, sym e) guid_eq

  -- A key that is a match does not name a row that is none.
  other_key :
      (d k : Delivery)
      → is_match event_guid normalize guid d ≡ false
      → is_match event_guid normalize guid k ≡ true
      → is_dead_key k d ≡ false
  unfolding is_dead_key
  other_key d k n m = elim (Bool-cases (same_delivery k.event_id k.destination d)) [
    | inl e ↦
        rw e (no_match d k n m (ap event_guid (same_delivery-eq k.event_id k.destination d e).0))
    | inr e ↦ rw e refl
  ]

  any-matches :
      (d : Delivery) (ds : List Delivery)
      → In d ds
      → any (λ k. is_dead_key k d) (select (is_match event_guid normalize guid) ds)
        ≡ is_match event_guid normalize guid d
  any-matches d ds i = elim (Bool-cases (is_match event_guid normalize guid d)) [
    | inl e ↦
        any-In (λ k. is_dead_key k d) d _ (In-select (is_match event_guid normalize guid) d ds i e)
          (own_key d e)
        ∙ sym e
    | inr e ↦ any-All (λ k. is_dead_key k d) _ (none_match e ds) ∙ sym e
  ]
    where
      none_match :
          is_match event_guid normalize guid d ≡ false
          → (ks : List Delivery)
          → All (λ k. is_dead_key k d ≡ false) (select (is_match event_guid normalize guid) ks)
      none_match e [] = tt
      none_match e (k ∷ ks) = elim (Bool-cases (is_match event_guid normalize guid k)) [
        | inl m ↦ rw m (other_key d k e m, none_match e ks)
        | inr m ↦ rw m (none_match e ks)
      ]

  -- `RequeueDeadByGUID`, which collects the keys of an event's dead deliveries and updates them one
  -- by one, has the effect of one update of all dead rows with that identifier, whatever the
  -- identifiers are: each such row is queued again, and no other row changes.
  pub requeue_dead_by_guid_lem :
      (now : ℕ) (db : Db)
      → str_eq (normalize guid) "" ≡ false
      → (requeue_dead_by_guid event_guid normalize guid now db).1
        ≡ update_rows (is_match event_guid normalize guid) (requeued_row now) db
  unfolding requeue_dead_by_guid update
  requeue_dead_by_guid_lem now db h = rw h (
      requeue_keys_lem now (select (is_match event_guid normalize guid) db.deliveries) db
      ∙ ap (λ ds. record db { deliveries = ds })
          (update_ext (requeued_row now) _ (is_match event_guid normalize guid) db.deliveries
            (All-In _ db.deliveries λ d i. any-matches d db.deliveries i)))

  -- Without an identifier nothing changes.
  pub requeue_dead_by_guid_none :
      (now : ℕ) (db : Db)
      → str_eq (normalize guid) "" ≡ true
      → (requeue_dead_by_guid event_guid normalize guid now db).1 ≡ db
  unfolding requeue_dead_by_guid
  requeue_dead_by_guid_none now db h = rw h refl

  pub is_match-dead :
      (d : Delivery) → is_dead d ≡ false → is_match event_guid normalize guid d ≡ false
  unfolding is_match
  is_match-dead d h = rw h refl
