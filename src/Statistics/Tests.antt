-- ===== src/Statistics/Tests.antt =====
-- src/statistics: runs, and the theorem at concrete observations.
use benchkit.Prelude.{ℕ, ◌+◌, ◌*◌, ◌≡◌, inr, refl, some, List, [], ◌∷◌, arith}
use benchkit.Statistics.{
  Observation, finite, not_finite, absent, finite_values, quantile_nearest_rank, quantile_linear,
  finite_median, median,
}
use benchkit.Statistics.Median.{finite_median-quantile_linear}
use benchkit.Statistics.NearestRank.{HasRank, quantile-HasRank}

abbrev observations : List Observation
observations = finite 30 ∷ absent ∷ finite 10 ∷ not_finite ∷ finite 20 ∷ finite 40 ∷ finite 50 ∷ []

quantile-HasRank_example :
    (r : ℕ) × (quantile_nearest_rank observations 95 100 ≡ inr (some r))
    × HasRank 95 100 (finite_values observations) r
quantile-HasRank_example =
    quantile-HasRank observations 95 100 (omega arith) (omega arith) (omega arith)

nearest_rank_run : quantile_nearest_rank observations 1 2 ≡ inr (some 30)
unfolding quantile_nearest_rank
nearest_rank_run = refl

linear_run : quantile_linear observations 3 8 ≡ inr (some (20 * 8 + 10 * 4, 8))
unfolding quantile_linear
linear_run = refl

median_run : finite_median (finite 4 ∷ observations) ≡ some (20 + 30, 2)
unfolding finite_median median
median_run = refl

finite_median-quantile_linear_example :
    quantile_linear observations 1 2 ≡ inr (finite_median observations)
finite_median-quantile_linear_example = finite_median-quantile_linear observations
