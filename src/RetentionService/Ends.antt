-- ===== src/RetentionService/Ends.antt =====
-- The loop of a retention run ends, within its maximum.
use reddotrelay.Prelude.{
  ℕ, zero, suc, ◌+◌, ◌-◌, ◌≤◌, ◌<◌, ◌≡◌, refl, true, false, ◌&&◌, ◌||◌, Option, none, some, ok,
  ◌==◌, ltb, if◌then◌else◌, arith, length, Bool-cases, inl, inr,
}
use reddotrelay.Store.Db.{Db}
use reddotrelay.Store.Invariant.{IsValid}
use reddotrelay.Store.Retention.{prune_delivered_before, count_delivered_before}
use reddotrelay.Store.Retention.Bounds.{Pruned, prune-Pruned}
use reddotrelay.RetentionService.{
  Meanwhile, Failure, Report, cancelled, round_limit, prune_rounds, run_prune, prune, begin_prune,
  finish_prune, Service,
}

round_limit_bounds :
    (batch_size maximum deleted : ℕ)
    → 0 < batch_size
    → (maximum == 0 || ltb deleted maximum) ≡ true
    → ((round_limit batch_size maximum deleted == 0) ≡ false)
      × (0 < round_limit batch_size maximum deleted)
      × ((maximum == 0) ≡ false → deleted + round_limit batch_size maximum deleted ≤ maximum)
unfolding round_limit
round_limit_bounds batch_size maximum deleted h t = (ground arith, ground arith, λ m. ground arith)

-- The rounds that are left at most: the events there are, or what may still be deleted.
unfoldable pub remaining : ℕ → ℕ → Db → ℕ
remaining maximum deleted db = if maximum == 0 then length db.events else maximum - deleted

-- The most that a run can have deleted.
pub most : ℕ → ℕ → Db → ℕ
most maximum deleted db = if maximum == 0 then deleted + length db.events else maximum

-- What is asked of the other users of the store: that they keep its tables valid and, where a run
-- has no maximum, do not add events while it goes on.
pub record IsQuiet (meanwhile : Meanwhile) (maximum : ℕ) : Type 0 where
  pub valid : (n : ℕ) (db : Db) → IsValid db → IsValid (meanwhile.others n db)
  pub no_events :
      (n : ℕ) (db : Db) → maximum ≡ 0 → length (meanwhile.others n db).events ≤ length db.events

round_stops :
    (maximum deleted limit count : ℕ) (db db' : Db)
    → Pruned limit count db db'
    → ((maximum == 0) ≡ false → deleted + limit ≤ maximum)
    → deleted + count ≤ most maximum deleted db
unfolding most
round_stops maximum deleted limit count db db' p within = elim (Bool-cases (maximum == 0)) [
  | inl m ↦ rw m (omega (arith, p.counted))
  | inr m ↦ rw m (omega (arith, p.bounded, within m))
]

-- A full round leaves less to do.
round_goes_on :
    (maximum deleted limit count fuel : ℕ) (db db' db'' : Db)
    → Pruned limit count db db'
    → ((maximum == 0) ≡ false → deleted + limit ≤ maximum)
    → 0 < limit
    → ltb count limit ≡ false
    → (maximum ≡ 0 → length db''.events ≤ length db'.events)
    → deleted ≤ most maximum deleted db
    → remaining maximum deleted db < suc fuel
    → (deleted + count ≤ most maximum (deleted + count) db'')
      × (most maximum (deleted + count) db'' ≤ most maximum deleted db)
      × (remaining maximum (deleted + count) db'' < fuel)
unfolding most remaining
round_goes_on maximum deleted limit count fuel db db' db'' p within pos s q l f =
    elim (Bool-cases (maximum == 0)) [
      | inl m ↦ rw m (
          let full : limit ≤ count = ground arith in
          let left = q (ground arith) in
          let f' = rw m at f in
          (omega arith, omega (arith, p.counted, left), omega (arith, p.counted, left, f', full)))
      | inr m ↦ rw m (
          let full : limit ≤ count = ground arith in
          let f' = rw m at f in
          (
            omega (arith, p.bounded, within m),
            omega arith,
            omega (arith, f', full, within m, p.bounded),
          ))
    ]

positive : (n : ℕ) → 0 < n → (n == 0) ≡ false
positive n h = ground arith

module _ (meanwhile : Meanwhile) (cutoff batch_size maximum pause : ℕ)
    (quiet : IsQuiet meanwhile maximum) where
  -- The loop has returned, with so many deletions.
  Ended : ℕ → ℕ → Option (ℕ × Option Failure × Db) → Type 0
  Ended low high r =
      (end : ℕ × Option Failure × Db) × (r ≡ some end) × (low ≤ end.0) × (end.0 ≤ high)

  Ended-weaken :
      (low low' high high' : ℕ) (r : Option (ℕ × Option Failure × Db))
      → low' ≤ low
      → high ≤ high'
      → Ended low high r
      → Ended low' high' r
  unfolding Ended
  Ended-weaken low low' high high' r a b (end, e, l, h) =
      (end, e, omega (arith, l, a), omega (arith, h, b))

  prune_rounds-Ended :
      (fuel n deleted : ℕ) (db : Db)
      → 0 < batch_size
      → IsValid db
      → deleted ≤ most maximum deleted db
      → remaining maximum deleted db < fuel
      → Ended deleted
          (most maximum deleted db)
          (prune_rounds meanwhile cutoff batch_size maximum pause fuel n deleted db)
  unfolding prune_rounds Ended
  prune_rounds-Ended zero n deleted db b v l f = absurd (omega (arith, f))
  prune_rounds-Ended (suc fuel) n deleted db b v l f =
      elim (Bool-cases (maximum == 0 || ltb deleted maximum)) [
        | inr t ↦ rw (t, prune_rounds) ((deleted, none, db), refl, omega arith, l)
        | inl t ↦
            let (z, pos, within) = round_limit_bounds batch_size maximum deleted b t in
            let (count, e, p) =
              prune-Pruned cutoff (round_limit batch_size maximum deleted) db z v in
            let db' =
              (prune_delivered_before cutoff (round_limit batch_size maximum deleted) db).1 in
            let stop =
              round_stops maximum deleted (round_limit batch_size maximum deleted) count db db' p
                within in
            rw (t, prune_rounds)
              (rw (e, prune_rounds)
                (elim (Bool-cases (ltb count (round_limit batch_size maximum deleted))) [
                  | inl s ↦
                      rw (s, prune_rounds) ((deleted + count, none, db'), refl, omega arith, stop)
                  | inr s ↦
                      rw (s, prune_rounds)
                        (elim (Bool-cases (ltb 0 pause && meanwhile.cancels n)) [
                          | inl c ↦
                              rw (c, prune_rounds)
                                ((deleted + count, some cancelled, db'), refl, omega arith, stop)
                          | inr c ↦
                              let db'' = meanwhile.others n db' in
                              let (l', m', f') =
                                round_goes_on maximum deleted
                                  (round_limit batch_size maximum deleted) count fuel db db' db'' p
                                  within pos s (λ m. quiet.no_events n db' m) l f in
                              rw (c, prune_rounds)
                                (Ended-weaken (deleted + count) deleted
                                  (most maximum (deleted + count) db'') (most maximum deleted db) _
                                  (omega arith) m'
                                  (prune_rounds-Ended fuel (n + 1) (deleted + count) db'' b
                                    (quiet.valid n db' p.valid) l' f'))
                        ])
                ]))
      ]

  run_prune-ends :
      (fuel : ℕ) (db : Db)
      → 0 < batch_size
      → IsValid db
      → remaining maximum 0 db < fuel
      → (report : Report) × (db' : Db) × (run_prune meanwhile cutoff batch_size maximum pause fuel
            db
          ≡ some (report, db'))
        × (report.deleted ≤ most maximum 0 db)
        × (report.eligible ≡ count_delivered_before cutoff db)
  unfolding run_prune Ended
  run_prune-ends fuel db b v f =
      let (end, e, l, h) = prune_rounds-Ended fuel 0 0 db b v (omega arith) f in
      (
        record {
          cutoff = cutoff;
          eligible = count_delivered_before cutoff db;
          deleted = end.0;
          failure = end.1;
        },
        end.2,
        rw (e, run_prune),
        h,
        refl,
      )

  -- An idle service's run on valid tables, with a batch size above 0, ends, with fuel for one round more
  -- than there are events or, where it has a maximum, than that, if the other users of the store keep
  -- its tables valid and, where it has no maximum, add no events between its rounds. It
  -- reports what was eligible, and no more deletions than there were events or than its maximum;
  -- the service is idle again, and shows the report.
  pub prune-ends :
      (fuel : ℕ) (service : Service) (db : Db)
      → 0 < batch_size
      → service.running ≡ false
      → IsValid db
      → remaining maximum 0 db < fuel
      → (report : Report) × (db' : Db) × (prune meanwhile cutoff batch_size maximum pause fuel
            service db
          ≡ ok (some (report, record { running = false; last = some report }, db')))
        × (report.deleted ≤ most maximum 0 db)
        × (report.eligible ≡ count_delivered_before cutoff db)
  unfolding prune begin_prune finish_prune
  prune-ends fuel service db b i v f =
      let (report, db', e, l, q) = run_prune-ends fuel db b v f in
      (report, db', rw (positive batch_size b, i, e, prune) refl, l, q)
