-- ===== src/Statistics.antt =====
-- src/statistics/quantile.ts and src/statistics/median.ts. Observations are whole numbers, or what is
-- not finite; a quantile is the fraction of two whole numbers, and so is a result that may not be
-- whole.
pub mod Sorting
pub mod NearestRank
pub mod Median
mod Tests
use benchkit.Prelude.{
  ℕ, zero, suc, ◌+◌, ◌-◌, ◌*◌, ◌/◌, ◌%◌, ◌==◌, leb, min, if◌then◌else◌, Bool, true, false, Option,
  none, some, List, [], ◌∷◌, length, get_elem?, ◌⊎◌, inl, inr, bind,
}

-- `NullableNumber`
pub data Observation : Type 0 where
  finite : ℕ → Observation
  not_finite absent : Observation

-- the filter by `Number.isFinite`
abbrev pub finite_values : List Observation → List ℕ
finite_values [] = []
finite_values (finite n ∷ os) = n ∷ finite_values os
finite_values (_ ∷ os) = finite_values os

abbrev pub insert : ℕ → List ℕ → List ℕ
insert n [] = n ∷ []
insert n (x ∷ xs) = if leb n x then n ∷ x ∷ xs else x ∷ insert n xs

-- `toSorted` by the difference
abbrev pub sorted : List ℕ → List ℕ
sorted [] = []
sorted (x ∷ xs) = insert x (sorted xs)

abbrev pub finite_sorted : List Observation → List ℕ
finite_sorted os = sorted (finite_values os)

pub data InvalidQuantile : Type 0 where
  not_between_0_and_1 : InvalidQuantile

-- `Math.ceil` of a fraction
abbrev pub ceil : ℕ → ℕ → ℕ
ceil n d = (n + (d - 1)) / d

-- `quantileNearestRank` of sorted values
abbrev pub nearest_rank : List ℕ → ℕ → ℕ → Option ℕ
nearest_rank [] p q = none
nearest_rank (x ∷ xs) p q =
    let n = length (x ∷ xs) in get_elem? (x ∷ xs) (min (n - 1) (ceil (n * p) q - 1))

-- `quantileNearestRank`, of the quantile `p / q`
unfoldable pub quantile_nearest_rank : List Observation → ℕ → ℕ → InvalidQuantile ⊎ Option ℕ
quantile_nearest_rank os p q =
    if leb p q then inr (nearest_rank (finite_sorted os) p q) else inl not_between_0_and_1

-- `quantileLinear` of sorted values
abbrev pub linear : List ℕ → ℕ → ℕ → Option (ℕ × ℕ)
linear [] p q = none
linear (x ∷ xs) p q =
    let index = (length (x ∷ xs) - 1) * p in
    let lower = index / q in
    bind (get_elem? (x ∷ xs) lower) λ lower_value.
      bind (get_elem? (x ∷ xs) (ceil index q)) λ upper_value. some (
        if lower == ceil index q
        then (lower_value, 1)
        else (lower_value * q + (upper_value - lower_value) * (index - lower * q), q))

unfoldable pub quantile_linear : List Observation → ℕ → ℕ → InvalidQuantile ⊎ Option (ℕ × ℕ)
quantile_linear os p q =
    if leb p q then inr (linear (finite_sorted os) p q) else inl not_between_0_and_1

-- `median` of sorted values
abbrev pub middle : List ℕ → Option (ℕ × ℕ)
middle [] = none
middle (x ∷ xs) =
    let n = length (x ∷ xs) in
    let mid = n / 2 in
    if n % 2 == 1
    then bind (get_elem? (x ∷ xs) mid) (λ value. some (value, 1))
    else bind (get_elem? (x ∷ xs) (mid - 1))
        (λ lower. bind (get_elem? (x ∷ xs) mid) (λ upper. some (lower + upper, 2)))

unfoldable pub median : List ℕ → Option (ℕ × ℕ)
median values = middle (sorted values)

unfoldable pub finite_median : List Observation → Option (ℕ × ℕ)
finite_median os = median (finite_values os)
