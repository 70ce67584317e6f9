-- ===== src/Latency/Quantile.antt =====
-- src/measurement/bounded-latency-recorder.ts: the quantiles.
use native.Mathlib.Nat.{mul-le-mul_left, mul-add, div-lt_iff_lt-mul, div-add-mod, mod-lt}
use benchkit.Prelude.{
  ℕ, suc, ◌+◌, ◌-◌, ◌*◌, ◌≤◌, ◌<◌, ◌≡◌, ap, List, [], ◌∷◌, Option, some, length, take, min, arith,
  inl, inr, ◌⊎◌, le-cases, leb, none, if_both, eq-cases, ◌/◌,
}
use benchkit.Latency.{Config, Recorder, sum, quantile_from, rank_of, quantile, summary}
use benchkit.Latency.Invariant.{IsValid}

-- The bucket `index` holds the observation of the rank, of the observations behind `cumulative`.
record HoldsRank (rank cumulative index : ℕ) (counts : List ℕ) : Type 0 where
  within : index < length counts
  before : cumulative + sum (take index counts) < rank
  through : rank ≤ cumulative + sum (take (suc index) counts)

rank_of_le :
    (count part whole : ℕ) → 1 ≤ count → 1 ≤ whole → part ≤ whole → rank_of count part whole ≤ count
rank_of_le count part whole pos some_parts le =
    let below =
      (div-lt_iff_lt-mul {k = whole} {x = count * part + (whole - 1)} {y = count + 1} some_parts).1
        (omega (arith, mul-le-mul_left count le)) in
    omega (arith, below)

-- Of `count` observations, `below` are the fraction `part / whole` at least, and not none.
abbrev pub Reaches : ℕ → ℕ → ℕ → ℕ → Type 0
Reaches part whole count below = (count * part ≤ whole * below) × (1 ≤ below)

-- They are less than that fraction, or none.
abbrev pub FallsShort : ℕ → ℕ → ℕ → ℕ → Type 0
FallsShort part whole count below = (whole * below < count * part) ⊎ (below ≡ 0)

rank_of-Reaches :
    (count part whole below : ℕ)
    → 1 ≤ whole
    → rank_of count part whole ≤ below
    → Reaches part whole count below
rank_of-Reaches count part whole below pos le =
    let m = count * part + (whole - 1) in
    let up = mul-le-mul_left {m = m / whole} {n = below} whole (omega (arith, le)) in
    (omega (arith, up, div-add-mod m whole, mod-lt m pos), omega (arith, le))

rank_of-FallsShort :
    (count part whole below : ℕ)
    → 1 ≤ whole
    → below < rank_of count part whole
    → FallsShort part whole count below
rank_of-FallsShort count part whole below pos lt = elim (eq-cases below 0) [
  | inl e ↦ inr e
  | inr ne ↦
      let m = count * part + (whole - 1) in
      let up = mul-le-mul_left {m = below + 1} {n = m / whole} whole (omega (arith, lt, ne)) in
      inl (omega (arith, up, mul-add whole below 1, div-add-mod m whole, mod-lt m pos))
]

module _ (midpoint : ℕ → ℕ) where
  quantile_from-HoldsRank :
      (config : Config) (rank cumulative start : ℕ) (counts : List ℕ)
      → cumulative < rank
      → rank ≤ cumulative + sum counts
      → (i : ℕ) × HoldsRank rank cumulative i counts
        × (quantile_from midpoint config rank cumulative start counts
            ≡ min config.highest_trackable (midpoint (start + i)))
  quantile_from-HoldsRank config rank cumulative start [] low high = absurd (omega arith)
  quantile_from-HoldsRank config rank cumulative start (n ∷ ns) low high =
      elim (le-cases rank (cumulative + n)) [
        | inl le ↦ (
          0,
          record { within = omega arith; before = omega arith; through = omega arith },
          ground arith,
        )
        | inr lt ↦
            let (i, h, e) =
              quantile_from-HoldsRank config rank (cumulative + n) (start + 1) ns lt
                (omega arith) in
            (
              suc i,
              record {
                within = omega (arith, h.within);
                before = omega (arith, h.before);
                through = omega (arith, h.through);
              },
              ground (
                arith,
                e,
                ap (λ k. min config.highest_trackable (midpoint k)) {x = start + 1 + i}
                    {y = start + suc i} (omega arith),
              ),
            )
      ]

  quantile-bucket :
      (n : ℕ) (r : Recorder) (part whole : ℕ)
      → IsValid n r
      → 1 ≤ r.count
      → 1 ≤ whole
      → part ≤ whole
      → let rank = rank_of r.count part whole in
        ((rank ≤ r.zero_count) × (quantile midpoint part whole r ≡ some 0))
        ⊎ ((i : ℕ) × HoldsRank rank r.zero_count i r.counts
            × (quantile midpoint part whole r ≡ some (min r.config.highest_trackable (midpoint i))))
  unfolding quantile
  quantile-bucket n r part whole h pos some_parts le =
      let rank = rank_of r.count part whole in
      elim (le-cases rank r.zero_count) [
        | inl few ↦ inl (few, ground (arith, few))
        | inr many ↦
            let (i, k, e) =
              quantile_from-HoldsRank r.config rank r.zero_count 0 r.counts many
                (omega (arith, h.counted, rank_of_le r.count part whole pos some_parts le)) in
            inr (
              i,
              k,
              ground (
                arith,
                many,
                e,
                ap (λ j. min r.config.highest_trackable (midpoint j)) {x = 0 + i} {y = i}
                    (omega arith),
              ),
            )
      ]

  -- A valid recorder with at least one observation, asked for a fraction of at most 1, answers with
  -- the nearest rank: at least that fraction of the observations, and one at least, are in the bucket
  -- of the answer or before it, and less than that fraction, or none, are before it. Zeros are
  -- before all buckets, and are answered with 0.
  pub quantile-HoldsRank :
      (n : ℕ) (r : Recorder) (part whole : ℕ)
      → IsValid n r
      → 1 ≤ r.count
      → 1 ≤ whole
      → part ≤ whole
      → (Reaches part whole r.count r.zero_count × (quantile midpoint part whole r ≡ some 0))
        ⊎ ((i : ℕ) × (i < length r.counts)
            × FallsShort part whole r.count (r.zero_count + sum (take i r.counts))
            × Reaches part whole r.count (r.zero_count + sum (take (suc i) r.counts))
            × (quantile midpoint part whole r ≡ some (min r.config.highest_trackable (midpoint i))))
  quantile-HoldsRank n r part whole h pos some_parts le =
      elim (quantile-bucket n r part whole h pos some_parts le) [
        | inl (few, e) ↦ inl (rank_of-Reaches r.count part whole r.zero_count some_parts few, e)
        | inr (i, k, e) ↦ inr (
          i,
          k.within,
          rank_of-FallsShort r.count part whole (r.zero_count + sum (take i r.counts)) some_parts
              k.before,
          rank_of-Reaches r.count part whole (r.zero_count + sum (take (suc i) r.counts)) some_parts
              k.through,
          e,
        )
      ]

-- The order of the numbers, on results that may both be absent.
abbrev pub IsOrdered : Option ℕ → Option ℕ → Type 0
IsOrdered none none = Unit
IsOrdered (some a) (some b) = a ≤ b
IsOrdered _ _ = ⊥

abbrev pub IsMonotone : (ℕ → ℕ) → Type 0
IsMonotone f = (i j : ℕ) → i ≤ j → f i ≤ f j

module _ (midpoint : ℕ → ℕ) (mono : IsMonotone midpoint) where
  le-quantile_from :
      (config : Config) (rank cumulative first start : ℕ) (counts : List ℕ)
      → first ≤ start
      → min config.highest_trackable (midpoint first)
        ≤ quantile_from midpoint config rank cumulative start counts
  le-quantile_from config rank cumulative first start [] le = omega arith
  le-quantile_from config rank cumulative first start (n ∷ ns) le =
      if_both (λ q. min config.highest_trackable (midpoint first) ≤ q) (leb rank (cumulative + n))
        (omega (arith, mono first start le))
        (le-quantile_from config rank (cumulative + n) first (start + 1) ns (omega arith))

  quantile_from_le :
      (config : Config) (low high cumulative start : ℕ) (counts : List ℕ)
      → low ≤ high
      → quantile_from midpoint config low cumulative start counts
        ≤ quantile_from midpoint config high cumulative start counts
  quantile_from_le config low high cumulative start [] le = omega arith
  quantile_from_le config low high cumulative start (n ∷ ns) le = ground (
    arith,
    le,
    le-quantile_from config high (cumulative + n) start (start + 1) ns (omega arith),
    quantile_from_le config low high (cumulative + n) (start + 1) ns le,
  )

  quantile-IsOrdered :
      (r : Recorder) (part whole part' whole' : ℕ)
      → rank_of r.count part whole ≤ rank_of r.count part' whole'
      → IsOrdered (quantile midpoint part whole r) (quantile midpoint part' whole' r)
  unfolding quantile
  quantile-IsOrdered r part whole part' whole' le = ground (
    arith,
    le,
    quantile_from_le r.config (rank_of r.count part whole) (rank_of r.count part' whole')
        r.zero_count 0 r.counts le,
  )

  -- When a later bucket has no smaller midpoint, the four percentiles of a summary are in order.
  pub summary-IsOrdered :
      (r : Recorder)
      → let s = summary midpoint r in
        IsOrdered s.p50_ms s.p95_ms × IsOrdered s.p95_ms s.p97_5_ms × IsOrdered s.p97_5_ms s.p99_ms
  unfolding summary
  summary-IsOrdered r = (
    quantile-IsOrdered r 1 2 19 20 (omega arith),
    quantile-IsOrdered r 19 20 39 40 (omega arith),
    quantile-IsOrdered r 39 40 99 100 (omega arith),
  )
