-- ===== src/Statistics/NearestRank.antt =====
-- src/statistics/quantile.ts: the rank that `quantileNearestRank` takes.
use native.Mathlib.Nat.{
  div-add-mod, mod-lt, mul-le-mul_left, mul-add, mul_comm, lt_of_mul-lt-mul_left,
}
use benchkit.Prelude.{
  ℕ, zero, suc, ◌+◌, ◌-◌, ◌*◌, ◌≤◌, ◌<◌, ◌≡◌, leb, ltb, min, if◌then◌else◌, true, some, List, [],
  ◌∷◌, ◌⊎◌, inl, inr, length, get_elem?, arith, refl, eq-cases, ap, ◌∙◌, subst,
}
use benchkit.Statistics.{
  Observation, finite_values, sorted, ceil, nearest_rank, quantile_nearest_rank,
  not_between_0_and_1,
}
use benchkit.Statistics.Sorting.{
  count, count-sorted, length-sorted, sorted-IsSorted, count-get_elem?,
}

ceil_lem : (m q : ℕ) → 0 < q → (m ≤ q * ceil m q) × (q * ceil m q < m + q)
ceil_lem m q pos =
    let whole = div-add-mod (m + (q - 1)) q in
    let rest = mod-lt (m + (q - 1)) pos in
    (omega (arith, whole, rest, pos), omega (arith, whole, rest, pos))

ceil_le : (n p q : ℕ) → 0 < q → p ≤ q → ceil (n * p) q ≤ n
ceil_le n p q pos le =
    let below : q * ceil (n * p) q < q * (n + 1) =
      omega
        (arith, (ceil_lem (n * p) q pos).1, mul-le-mul_left n le, mul-add q n 1, mul_comm n q) in
    omega (arith, lt_of_mul-lt-mul_left q below)

get_elem?_below {ℓ} :
    {A : Type ℓ} (xs : List A) (i : ℕ) → i < length xs → (x : A) × (get_elem? xs i ≡ some x)
get_elem?_below [] i h = absurd (omega arith)
get_elem?_below (x ∷ xs) zero h = (x, refl)
get_elem?_below (x ∷ xs) (suc i) h = get_elem?_below xs i (omega arith)

-- of `n` values: `a`, at most some value, are the fraction `p / q`, and `b`, below it, are less or none
abbrev IsRank : ℕ → ℕ → ℕ → ℕ → ℕ → Type 0
IsRank p q n a b = (n * p ≤ q * a) × ((q * b < n * p) ⊎ (b ≡ 0))

IsRank-cast :
    (p q n n' a a' b b' : ℕ) → n ≡ n' → a ≡ a' → b ≡ b' → IsRank p q n a b → IsRank p q n' a' b'
IsRank-cast p q n n' a a' b b' en ea eb h =
    subst (λ m. IsRank p q m a' b') en
      (subst (λ m. IsRank p q n m b') ea (subst (λ m. IsRank p q n a m) eb h))

abbrev pub HasRank : ℕ → ℕ → List ℕ → ℕ → Type 0
HasRank p q values r =
    IsRank p q (length values) (count (λ y. leb y r) values) (count (λ y. ltb y r) values)

le→leb : (a b : ℕ) → a ≤ b → leb a b ≡ true
le→leb a b h = ground arith

-- what the place that the code takes has, in a sorted list
place-IsRank :
    (xs : List ℕ) (p q a b : ℕ)
    → 0 < q
    → ceil (length xs * p) q - 1 < a
    → b ≤ ceil (length xs * p) q - 1
    → IsRank p q (length xs) a b
place-IsRank xs p q a b pos h h' =
    let c = ceil (length xs * p) q in
    let around = ceil_lem (length xs * p) q pos in
    let reached : c ≤ a = omega (arith, h) in
    let low : length xs * p ≤ q * a = omega (arith, around.0, mul-le-mul_left q reached) in
    (
      low,
      elim (eq-cases b 0) [
        | inl e ↦ inr e
        | inr ne ↦
            let step : b + 1 ≤ c = omega (arith, h', ne) in
            inl (omega (arith, mul-le-mul_left q step, mul-add q b 1, around.1))
      ],
    )

nearest_rank_lem :
    (xs : List ℕ) (p q : ℕ)
    → 0 < q
    → p ≤ q
    → 0 < length xs
    → (r : ℕ) × (nearest_rank xs p q ≡ some r)
      × (get_elem? xs (ceil (length xs * p) q - 1) ≡ some r)
nearest_rank_lem [] p q pos le some_values = absurd (omega arith)
nearest_rank_lem (x ∷ xs) p q pos le some_values =
    let n = length (x ∷ xs) in
    let c = ceil (n * p) q in
    let in_range : c ≤ n = ceil_le n p q pos le in
    let (r, found) = get_elem?_below (x ∷ xs) (c - 1) (omega (arith, in_range)) in
    let same : min (n - 1) (c - 1) ≡ c - 1 = omega (arith, in_range) in
    (r, ap (get_elem? (x ∷ xs)) same ∙ found, found)

-- A quantile from 0 to 1 of observations of which some are finite: there is a result, and it is the
-- nearest rank: at least that fraction of the finite observations are at most the result, and less
-- than that fraction are below it, or none.
pub quantile-HasRank :
    (os : List Observation) (p q : ℕ)
    → 0 < q
    → p ≤ q
    → 0 < length (finite_values os)
    → (r : ℕ) × (quantile_nearest_rank os p q ≡ inr (some r)) × HasRank p q (finite_values os) r
unfolding quantile_nearest_rank
quantile-HasRank os p q pos le some_values =
    let values = finite_values os in
    let xs = sorted values in
    let same_length : length xs ≡ length values = length-sorted values in
    let (r, result, found) =
      nearest_rank_lem xs p q pos le (omega (arith, same_length, some_values)) in
    let counts = count-get_elem? xs (ceil (length xs * p) q - 1) r (sorted-IsSorted values) found in
    let ranked =
      place-IsRank xs p q (count (λ y. leb y r) xs) (count (λ y. ltb y r) xs) pos counts.0
        counts.1 in
    let least = count-sorted (λ y. leb y r) values in
    let below = count-sorted (λ y. ltb y r) values in
    (
      r,
      ap (λ b. if b then inr (nearest_rank xs p q) else inl not_between_0_and_1) (le→leb p q le)
          ∙ ap (λ o. inr o) result,
      IsRank-cast p q (length xs) (length values) (count (λ y. leb y r) xs)
          (count (λ y. leb y r) values) (count (λ y. ltb y r) xs) (count (λ y. ltb y r) values)
          same_length least below ranked,
    )
