-- ===== src/AuthFailures/Blocks.antt =====
-- Failures within the window are counted, and too many of them block.
use reddotrelay.Prelude.{
  ℕ, suc, ◌+◌, ◌<◌, ◌≤◌, ◌≡◌, refl, false, List, [], ◌∷◌, none, some, ltb, leb, if◌then◌else◌,
  find?, map, length, length-select-le, All, arith, Bool-cases, inl, inr,
}
use reddotrelay.AuthFailures.{
  Failure, failure_window, failure_maximum, has_key, delete_expired, retry_after, count_failure,
  record_failure,
}

pub length-map : (h : Failure → Failure) (fs : List Failure) → length (map h fs) ≡ length fs
length-map h [] = refl
length-map h (f ∷ fs) = let i = length-map h fs in ground (arith, i)

-- An entry within its window is not deleted.
find?-delete_expired :
    (key now : ℕ) (fs : List Failure) (f : Failure)
    → now < f.first_seen + failure_window
    → find? (has_key key) fs ≡ some f
    → find? (has_key key) (delete_expired now fs) ≡ some f
unfolding delete_expired
find?-delete_expired key now [] f w e = e
find?-delete_expired key now (x ∷ fs) f w e = elim (Bool-cases (has_key key x)) [
  | inl h ↦ ground arith
  | inr h ↦ let i = find?-delete_expired key now fs f w (ground arith) in ground (arith, i)
]

find?-counted :
    (key : ℕ) (fs : List Failure) (f : Failure)
    → find? (has_key key) fs ≡ some f
    → find?
        (has_key key)
        (map (λ g. if has_key key g then record g { count = g.count + 1 } else g) fs)
      ≡ some (record f { count = f.count + 1 })
find?-counted key [] f e = cc
find?-counted key (x ∷ fs) f e = elim (Bool-cases (has_key key x)) [
  | inl h ↦ ground arith
  | inr h ↦ let i = find?-counted key fs f (ground arith) in ground (arith, i)
]

-- The key's failures are counted since then, and there is room for the others.
abbrev Counted : ℕ → ℕ → ℕ → List Failure → Type 0
Counted key n since fs =
    (find? (has_key key) fs ≡ some (record { key = key; count = n; first_seen = since }))
    × (length fs < failure_maximum)

pub count_failure-known :
    (key now : ℕ) (fs : List Failure) (f : Failure)
    → find? (has_key key) fs ≡ some f
    → count_failure key now fs
      ≡ map (λ g. if has_key key g then record g { count = g.count + 1 } else g) fs
unfolding count_failure
count_failure-known key now fs f e = rw (e, count_failure) refl

pub count_failure-new :
    (key now : ℕ) (fs : List Failure)
    → find? (has_key key) fs ≡ none
    → count_failure key now fs ≡ record { key = key; count = 1; first_seen = now } ∷ fs
unfolding count_failure
count_failure-new key now fs e = rw (e, count_failure) refl

pub length-delete_expired :
    (now : ℕ) (fs : List Failure) → length (delete_expired now fs) ≤ length fs
unfolding delete_expired
length-delete_expired now fs = length-select-le (λ f. ltb now (f.first_seen + failure_window)) fs

count_failure-Counted :
    (key n since now : ℕ) (fs : List Failure)
    → Counted key n since fs
    → Counted key (n + 1) since (count_failure key now fs)
count_failure-Counted key n since now fs (e, l) =
    let m = length-map (λ g. if has_key key g then record g { count = g.count + 1 } else g) fs in
    rw (count_failure-known key now fs (record { key = key; count = n; first_seen = since }) e) (
      find?-counted key fs (record { key = key; count = n; first_seen = since }) e,
      omega (arith, m, l),
    )

record_failure-Counted :
    (key n since now : ℕ) (fs : List Failure)
    → now < since + failure_window
    → Counted key n since fs
    → Counted key (n + 1) since (record_failure key now fs)
unfolding record_failure
record_failure-Counted key n since now fs w (e, l) =
    let s = length-delete_expired now fs in
    let f =
      find?-delete_expired key now fs (record { key = key; count = n; first_seen = since }) w e in
    rw (room s)
      (count_failure-Counted key n since now (delete_expired now fs) (f, omega (arith, s, l)))
  where
    room :
        length (delete_expired now fs) ≤ length fs
        → leb failure_maximum (length (delete_expired now fs)) ≡ false
    room s = ground arith

-- Failures of one key at these times.
abbrev pub record_all : ℕ → List ℕ → List Failure → List Failure
record_all key [] fs = fs
record_all key (t ∷ times) fs = record_all key times (record_failure key t fs)

record_all-Counted :
    (key n since : ℕ) (times : List ℕ) (fs : List Failure)
    → All (λ t. t < since + failure_window) times
    → Counted key n since fs
    → Counted key (n + length times) since (record_all key times fs)
record_all-Counted key n since [] fs w c = rw (plus_zero n) c
  where
    plus_zero : (n : ℕ) → n + 0 ≡ n
    plus_zero n = omega arith
record_all-Counted key n since (t ∷ times) fs w c = rw (moved n (length times)) (
    record_all-Counted key (n + 1) since times (record_failure key t fs) w.1
      (record_failure-Counted key n since t fs w.0 c))
  where
    moved : (n m : ℕ) → n + suc m ≡ n + 1 + m
    moved n m = omega arith

first-Counted :
    (key now : ℕ) (fs : List Failure)
    → find? (has_key key) (delete_expired now fs) ≡ none
    → length fs + 1 < failure_maximum
    → Counted key 1 now (record_failure key now fs)
unfolding record_failure
first-Counted key now fs e l =
    let s = length-delete_expired now fs in
    rw (room s) (rw (fresh e) (ground arith, omega (arith, s, l)))
  where
    room :
        length (delete_expired now fs) ≤ length fs
        → leb failure_maximum (length (delete_expired now fs)) ≡ false
    room s = ground arith

    fresh :
        find? (has_key key) (delete_expired now fs) ≡ none
        → count_failure key now (delete_expired now fs)
          ≡ record { key = key; count = 1; first_seen = now } ∷ delete_expired now fs
    fresh e = count_failure-new key now (delete_expired now fs) e

-- Five failures of a key within the window of the first block it for the rest of that window: whoever asks
-- then has to wait. The key has no entry that counts before, and the table has room for its entry.
pub retry_after-blocks :
    (key first later : ℕ) (times : List ℕ) (fs : List Failure)
    → find? (has_key key) (delete_expired first fs) ≡ none
    → length fs + 1 < failure_maximum
    → All (λ t. t < first + failure_window) times
    → 4 ≤ length times
    → later < first + failure_window
    → 0 < (retry_after key later (record_all key times (record_failure key first fs))).0
unfolding retry_after
retry_after-blocks key first later times fs e l w n b =
    let c =
      record_all-Counted key 1 first times (record_failure key first fs) w
        (first-Counted key first fs e l) in
    let f =
      find?-delete_expired key later _
        (record { key = key; count = 1 + length times; first_seen = first }) b c.0 in
    rw (f, retry_after) (ground arith)
