-- ===== src/Statistics/Median.antt =====
-- src/statistics: the median beside `quantileLinear`.
use benchkit.Prelude.{
  ℕ, zero, suc, ◌+◌, ◌-◌, ◌*◌, ◌/◌, ◌%◌, ◌≤◌, ◌≡◌, ◌==◌, if◌then◌else◌, Option, none, some, List,
  [], ◌∷◌, inr, length, get_elem?, arith, refl, ap, sym, ◌∙◌, bind, if_cases,
}
use benchkit.Statistics.{
  Observation, finite_values, finite_sorted, ceil, linear, middle, quantile_linear, median,
  finite_median,
}
use benchkit.Statistics.Sorting.{IsSorted, sorted-IsSorted, All-get_elem?}

get_elem?-IsSorted :
    (xs : List ℕ) (i a b : ℕ)
    → IsSorted xs
    → get_elem? xs i ≡ some a
    → get_elem? xs (suc i) ≡ some b
    → a ≤ b
get_elem?-IsSorted [] i a b h ea eb = absurd cc
get_elem?-IsSorted (x ∷ xs) zero a b h ea eb =
    let same : x ≡ a = cc in omega (arith, same, All-get_elem? (λ y. x ≤ y) xs 0 b h.0 eb)
get_elem?-IsSorted (x ∷ xs) (suc i) a b h ea eb = get_elem?-IsSorted xs i a b h.1 ea eb

-- the value that `quantileLinear` takes between those at two places
abbrev interpolate : ℕ → ℕ → ℕ → ℕ → Option ℕ → Option ℕ → Option (ℕ × ℕ)
interpolate index lower upper q o o' = bind o λ lower_value. bind o' λ upper_value. some (
    if lower == upper
    then (lower_value, 1)
    else (lower_value * q + (upper_value - lower_value) * (index - lower * q), q))

abbrev between : List ℕ → ℕ → ℕ → ℕ → ℕ → Option (ℕ × ℕ)
between xs index lower upper q =
    interpolate index lower upper q (get_elem? xs lower) (get_elem? xs upper)

-- the values that `median` returns
abbrev middle_value : Option ℕ → Option (ℕ × ℕ)
middle_value o = bind o (λ v. some (v, 1))

abbrev mean_value : Option ℕ → Option ℕ → Option (ℕ × ℕ)
mean_value o o' = bind o (λ l. bind o' (λ u. some (l + u, 2)))

one_place : (index m q : ℕ) (o : Option ℕ) → interpolate index m m q o o ≡ middle_value o
one_place index m q none = refl
one_place index m q (some v) = ground arith

two_places :
    (xs : List ℕ) (index i : ℕ)
    → IsSorted xs
    → index ≡ i * 2 + 1
    → between xs index i (suc i) 2 ≡ mean_value (get_elem? xs i) (get_elem? xs (suc i))
two_places xs index i h e = from (get_elem? xs i) refl (get_elem? xs (suc i)) refl
  where
    from :
        (o : Option ℕ)
        → get_elem? xs i ≡ o
        → (o' : Option ℕ) → get_elem? xs (suc i) ≡ o'
        → interpolate index i (suc i) 2 o o' ≡ mean_value o o'
    from none eo o' eo' = refl
    from (some l) eo none eo' = refl
    from (some l) eo (some u) eo' =
        let le = get_elem?-IsSorted xs i l u h eo eo' in
        let one : index - i * 2 ≡ 1 = omega (arith, e) in ground (arith, le, one)

linear-middle : (xs : List ℕ) → IsSorted xs → linear xs 1 2 ≡ middle xs
linear-middle [] h = refl
linear-middle (x ∷ xs) h =
    let ys = x ∷ xs in
    let n = length ys in
    let index = (n - 1) * 1 in
    let i = n / 2 - 1 in
    if_cases (λ o. linear ys 1 2 ≡ o) (n % 2 == 1)
      (λ e.
        let odd : n % 2 ≡ 1 = ground (arith, e) in
        let lower : index / 2 ≡ n / 2 = omega (arith, odd) in
        let upper : ceil index 2 ≡ n / 2 = omega (arith, odd) in
        ap (λ l. between ys index l (ceil index 2) 2) lower
        ∙ ap (λ u. between ys index (n / 2) u 2) upper
        ∙ one_place index (n / 2) 2 (get_elem? ys (n / 2)))
      (λ e.
        let even : n % 2 ≡ 0 = ground (arith, e) in
        let next : n / 2 ≡ suc i = omega (arith, even) in
        let lower : index / 2 ≡ i = omega (arith, even) in
        let upper : ceil index 2 ≡ suc i = omega (arith, even) in
        ap (λ l. between ys index l (ceil index 2) 2) lower
        ∙ ap (λ u. between ys index i u 2) upper
        ∙ two_places ys index i h (omega (arith, even))
        ∙ ap (λ m. mean_value (get_elem? ys i) (get_elem? ys m)) (sym next))

-- The median of the finite observations is their linear quantile of 1 / 2, also where there are none.
pub finite_median-quantile_linear :
    (os : List Observation) → quantile_linear os 1 2 ≡ inr (finite_median os)
unfolding quantile_linear finite_median median
finite_median-quantile_linear os =
    ap (λ o. inr o) (linear-middle (finite_sorted os) (sorted-IsSorted (finite_values os)))
