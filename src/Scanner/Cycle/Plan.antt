-- ===== src/Scanner/Cycle/Plan.antt =====
-- The batches of a scan cover the range up to the confirmed head.
use reddotrelay.Prelude.{
  ℕ, zero, suc, ◌+◌, ◌≤◌, ◌<◌, ◌≡◌, List, [], ◌∷◌, arith, ◌==◌, Bool-cases, inl, inr,
}
use reddotrelay.Scanner.Types.{uint64_mod}
use reddotrelay.Scanner.Cycle.{batch_end, plan_batches}

-- For a positive batch size and 64-bit numbers, the end of a batch that starts at or before the
-- confirmed head is not before its start, not beyond the head, and within the size.
pub batch_end_bounds :
    (size from head : ℕ)
    → 0 < size
    → size < uint64_mod
    → from ≤ head
    → head < uint64_mod
    → (from ≤ batch_end size from head)
      × (batch_end size from head ≤ head)
      × (batch_end size from head < from + size)
unfolding batch_end
batch_end_bounds size from head s t h k = ground arith

-- Consecutive batches from `from` to `head`, each of at most `size` blocks.
abbrev pub Covers : ℕ → ℕ → ℕ → List (ℕ × ℕ) → Type 0
Covers size from head [] = from ≡ head + 1
Covers size from head ((a, b) ∷ batches) =
    (a ≡ from) × (a ≤ b) × (b ≤ head) × (b < a + size) × Covers size (b + 1) head batches

-- With as much fuel as there are blocks left, the batches of a scan follow each other without a gap
-- or an overlap from the first block to the confirmed head, each of at most `size` blocks.
pub plan_batches-Covers :
    (fuel size from head : ℕ)
    → 0 < size
    → size < uint64_mod
    → from ≤ head
    → head < uint64_mod
    → head < from + fuel
    → Covers size from head (plan_batches fuel size from head)
unfolding plan_batches
plan_batches-Covers zero size from head s t h k f = absurd (omega arith)
plan_batches-Covers (suc fuel) size from head s t h k f =
    let b = batch_end_bounds size from head s t h k in
    elim (Bool-cases (batch_end size from head == head)) [
      | inl e ↦ rw e (ground arith)
      | inr e ↦
          rw e
            (ground (arith, plan_batches-Covers fuel size (batch_end size from head + 1) head s t))
    ]
