-- ===== src/Store/Backfill/Jobs.antt =====
-- The keys of the jobs: no two have one identifier, and no two active ones one listener.
use reddotrelay.Prelude.{
  ◌≡◌, refl, Bool, true, false, ◌&&◌, List, [], ◌∷◌, str_eq, eq_iff, arith, any, All, Unique,
  Unique-map, if◌then◌else◌,
}
use reddotrelay.Store.Backfill.{Job, is_active, competes, is_rival, update_jobs}

abbrev pub same_job : Job → Job → Bool
same_job a b = str_eq a.id b.id

pub record IsKeyed (jobs : List Job) : Type 0 where
  pub ids_unique : Unique same_job jobs
  pub one_active : Unique competes jobs

-- An update that keeps the identifier and the listener.
pub record KeepsJob (f : Job → Job) : Type 0 where
  pub id : (j : Job) → (f j).id ≡ j.id
  pub listener_id : (j : Job) → (f j).listener_id ≡ j.listener_id

module _ (p : Job → Bool) (f : Job → Job) (k : KeepsJob f) where
  update : Job → Job
  update j = if p j then f j else j

  ids-update : (jobs : List Job) → Unique same_job jobs → Unique same_job (update_jobs p f jobs)
  ids-update jobs u =
      Unique-map same_job (λ j. if p j then f j else j) (λ a b. ground (arith, k.id a))
        (λ a b. ground (arith, k.id b)) jobs u

  -- Where the update makes no job active, no two become so.
  Down : Job → Type 0
  Down j = p j ≡ true → is_active (f j).state ≡ true → is_active j.state ≡ true

  competes-Down :
      (a b : Job) → Down a → Down b → competes a b ≡ false → competes (update a) (update b) ≡ false
  unfolding competes update Down
  competes-Down a b da db h = ground (arith, k.listener_id a, k.listener_id b)

  any-Down :
      (a : Job) (jobs : List Job)
      → Down a
      → All Down jobs
      → any (competes a) jobs ≡ false
      → any (competes (update a)) (update_jobs p f jobs) ≡ false
  unfolding update
  any-Down a [] da d h = refl
  any-Down a (b ∷ jobs) da d h = ground (arith, competes-Down a b da d.0, any-Down a jobs da d.1)

  pub update_jobs-down :
      (jobs : List Job)
      → All (λ j. p j ≡ true → is_active (f j).state ≡ true → is_active j.state ≡ true) jobs
      → IsKeyed jobs
      → IsKeyed (update_jobs p f jobs)
  unfolding update Down
  update_jobs-down jobs d v = record {
    ids_unique = ids-update jobs v.ids_unique;
    one_active = go jobs d v.one_active;
  }
    where
      go :
          (jobs : List Job)
          → All Down jobs
          → Unique competes jobs
          → Unique competes (update_jobs p f jobs)
      go [] d u = tt
      go (a ∷ jobs) d u = (any-Down a jobs d.0 d.1 u.0, go jobs d.1 u.1)

  -- Where a row that is updated has no rival, its listener has no other active job afterwards.
  module _ (alone : (a b : Job) → p a ≡ true → p b ≡ true → str_eq a.id b.id ≡ true) where
    competes-alone :
        (a b : Job)
        → competes a b ≡ false
        → str_eq a.id b.id ≡ false
        → (p a && is_rival a b) ≡ false
        → (p b && is_rival b a) ≡ false
        → competes (update a) (update b) ≡ false
    unfolding competes update is_rival
    competes-alone a b h i ra rb = ground (
      arith,
      alone a b,
      k.listener_id a,
      k.listener_id b,
      eq_iff a.id b.id,
      eq_iff b.id a.id,
      eq_iff a.listener_id b.listener_id,
      eq_iff b.listener_id a.listener_id,
    )

    any-alone :
        (a : Job) (jobs : List Job)
        → any (competes a) jobs ≡ false
        → any (same_job a) jobs ≡ false
        → (p a && any (is_rival a) jobs) ≡ false
        → any (λ b. p b && is_rival b a) jobs ≡ false
        → any (competes (update a)) (update_jobs p f jobs) ≡ false
    unfolding update
    any-alone a [] h i ra rb = refl
    any-alone a (b ∷ jobs) h i ra rb = ground (arith, competes-alone a b, any-alone a jobs)

    pub update_jobs-alone :
        (jobs : List Job)
        → any (λ j. p j && any (is_rival j) jobs) jobs ≡ false
        → IsKeyed jobs
        → IsKeyed (update_jobs p f jobs)
    unfolding update
    update_jobs-alone jobs r v = record {
      ids_unique = ids-update jobs v.ids_unique;
      one_active = go jobs r v.ids_unique v.one_active;
    }
      where
        with_tail :
            (a : Job) (all jobs : List Job)
            → any (λ j. p j && any (is_rival j) (a ∷ all)) jobs ≡ false
            → (any (λ j. p j && any (is_rival j) all) jobs ≡ false)
              × (any (λ j. p j && is_rival j a) jobs ≡ false)
        with_tail a all [] h = (refl, refl)
        with_tail a all (b ∷ jobs) h = ground (arith, with_tail a all jobs)

        go :
            (jobs : List Job)
            → any (λ j. p j && any (is_rival j) jobs) jobs ≡ false
            → Unique same_job jobs
            → Unique competes jobs
            → Unique competes (update_jobs p f jobs)
        go [] r i u = tt
        go (a ∷ jobs) r i u =
            let (rest, with_a) = with_tail a jobs jobs (ground arith) in
            (any-alone a jobs u.0 i.0 (ground arith) with_a, go jobs rest i.1 u.1)
