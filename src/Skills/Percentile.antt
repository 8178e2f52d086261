-- ===== src/Skills/Percentile.antt =====
-- The 95th percentile of the durations, and the verdict on a release's health.
use astrbot_shipyard_neo.Base.{
  ℕ, zero, suc, ◌+◌, ◌*◌, ◌≤◌, ◌<◌, ◌≡◌, refl, Bool, true, false, List, [], ◌∷◌, inl, inr, ltb, leb,
  if◌then◌else◌, arith, All, All-weaken, Bool-cases, count, length, insert_by, order_by,
}
use astrbot_shipyard_neo.Skills.History.{ExecutionHistory}
use astrbot_shipyard_neo.Skills.Health.{
  nth_or_zero, p95_index, p95_of, durations_of, aggregate_execution_metrics,
}

abbrev self : ℕ → ℕ
self d = d

abbrev IsSorted : List ℕ → Type 0
IsSorted [] = Unit
IsSorted (x ∷ xs) = All (λ y. x ≤ y) xs × IsSorted xs

All-insert : (P : ℕ → Type 0) (x : ℕ) (ys : List ℕ) → P x → All P ys → All P (insert_by self x ys)
All-insert P x [] p h = (p, tt)
All-insert P x (y ∷ ys) p h = elim (Bool-cases (ltb y x)) [
  | inl e ↦ rw e (h.0, All-insert P x ys p h.1)
  | inr e ↦ rw e (p, h)
]

insert-IsSorted : (x : ℕ) (ys : List ℕ) → IsSorted ys → IsSorted (insert_by self x ys)
insert-IsSorted x [] h = (tt, tt)
insert-IsSorted x (y ∷ ys) h = elim (Bool-cases (ltb y x)) [
  | inl e ↦ rw e (All-insert (λ z. y ≤ z) x ys (ground arith) h.0, insert-IsSorted x ys h.1)
  | inr e ↦
      let low : x ≤ y = ground arith in
      rw e ((low, All-weaken ys (λ z (le : y ≤ z). omega arith) h.0), h)
]

order_by-IsSorted : (xs : List ℕ) → IsSorted (order_by self xs)
order_by-IsSorted [] = tt
order_by-IsSorted (x ∷ xs) = insert-IsSorted x (order_by self xs) (order_by-IsSorted xs)

count-insert :
    (test : ℕ → Bool) (x : ℕ) (ys : List ℕ)
    → count test (insert_by self x ys) ≡ (if test x then 1 else 0) + count test ys
count-insert test x [] = refl
count-insert test x (y ∷ ys) = elim (Bool-cases (ltb y x)) [
  | inl e ↦ rw e (omega (arith, count-insert test x ys))
  | inr e ↦ rw e refl
]

count-order_by : (test : ℕ → Bool) (xs : List ℕ) → count test (order_by self xs) ≡ count test xs
count-order_by test [] = refl
count-order_by test (x ∷ xs) =
    omega (arith, count-insert test x (order_by self xs), count-order_by test xs)

length-insert : (x : ℕ) (ys : List ℕ) → length (insert_by self x ys) ≡ suc (length ys)
length-insert x [] = refl
length-insert x (y ∷ ys) = elim (Bool-cases (ltb y x)) [
  | inl e ↦ rw e (omega (arith, length-insert x ys))
  | inr e ↦ rw e refl
]

length-order_by : (xs : List ℕ) → length (order_by self xs) ≡ length xs
length-order_by [] = refl
length-order_by (x ∷ xs) = omega (arith, length-insert x (order_by self xs), length-order_by xs)

count_none : (x : ℕ) (ys : List ℕ) → All (λ y. x ≤ y) ys → count (λ d. ltb d x) ys ≡ 0
count_none x [] h = refl
count_none x (y ∷ ys) h =
    let above : ltb y x ≡ false = ground arith in rw above (omega (arith, count_none x ys h.1))

nth-le : (x i : ℕ) (ys : List ℕ) → i < length ys → All (λ y. x ≤ y) ys → x ≤ nth_or_zero i ys
nth-le x i [] lt h = absurd (omega arith)
nth-le x zero (y ∷ ys) lt h = h.0
nth-le x (suc i) (y ∷ ys) lt h = nth-le x i ys (omega arith) h.1

-- In a sorted list the value at an index has at least as many values up to it, and no more below it.
nth_rank :
    (i : ℕ) (xs : List ℕ)
    → i < length xs
    → IsSorted xs
    → (suc i ≤ count (λ d. leb d (nth_or_zero i xs)) xs)
      × (count (λ d. ltb d (nth_or_zero i xs)) xs ≤ i)
nth_rank i [] lt h = absurd (omega arith)
nth_rank zero (x ∷ xs) lt h =
    let self_le : leb x x ≡ true = ground arith in
    let self_lt : ltb x x ≡ false = ground arith in
    (rw self_le (omega arith), rw (self_lt, count_none x xs h.0) (omega arith))
nth_rank (suc i) (x ∷ xs) lt h =
    let (up, below) = nth_rank i xs (omega arith) h.1 in
    let le : x ≤ nth_or_zero i xs = nth-le x i xs (omega arith) h.0 in
    let first : leb x (nth_or_zero i xs) ≡ true = ground arith in
    (rw first (omega arith), ground arith)

p95_of_rank :
    (ds : List ℕ)
    → 0 < length ds
    → (100 * count (λ d. ltb d (p95_of ds)) ds < 95 * length ds)
      × (95 * length ds ≤ 100 * count (λ d. leb d (p95_of ds)) ds)
p95_of_rank ds h =
    let i : ℕ = p95_index (length ds) in
    let sorted : List ℕ = order_by self ds in
    let size : length sorted ≡ length ds = length-order_by ds in
    let (up, below) = nth_rank i sorted (omega arith) (order_by-IsSorted ds) in
    (
      omega (arith, count-order_by (λ d. ltb d (p95_of ds)) ds),
      omega (arith, count-order_by (λ d. leb d (p95_of ds)) ds),
    )

-- The executions that took no more, or less, than `d`.
abbrev pub up_to : ℕ → List ExecutionHistory → ℕ
up_to d es = count (λ t. leb t d) (durations_of es)

abbrev pub below : ℕ → List ExecutionHistory → ℕ
below d es = count (λ t. ltb t d) (durations_of es)

length-durations : (es : List ExecutionHistory) → length (durations_of es) ≡ length es
length-durations [] = refl
length-durations (e ∷ es) = omega (arith, length-durations es)

-- Of executions that are at least one, less than 95 percent took less than the aggregated 95th
-- percentile, and at least 95 percent took no more.
pub aggregate-rank :
    (e : ExecutionHistory) (es : List ExecutionHistory)
    → (100 * below (aggregate_execution_metrics (e ∷ es)).p95_duration (e ∷ es)
        < 95 * length (e ∷ es))
      × (95 * length (e ∷ es)
          ≤ 100 * up_to (aggregate_execution_metrics (e ∷ es)).p95_duration (e ∷ es))
unfolding aggregate_execution_metrics
aggregate-rank e es =
    let ds : List ℕ = durations_of (e ∷ es) in
    let (low, high) = p95_of_rank ds (omega arith) in
    (omega (arith, length-durations es), omega (arith, length-durations es))
