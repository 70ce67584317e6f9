-- ===== src/Latency/Invariant.antt =====
-- src/measurement/bounded-latency-recorder.ts: what recording keeps true of the histogram.
use benchkit.Prelude.{
  if_both, ◌==◌, ltb, ℕ, zero, suc, ◌+◌, ◌≤◌, ◌<◌, ◌≡◌, refl, ◌∙◌, List, [], ◌∷◌, length, replicate,
  length-set, length-replicate, arith,
}
use benchkit.Latency.{
  bucket, Config, Recorder, Latency, sum, empty, increment, record_latency, record_all,
}

-- The accepted observations are the zeros and what the buckets hold.
pub record IsValid (bucket_count : ℕ) (r : Recorder) : Type 0 where
  pub sized : length r.counts ≡ bucket_count
  pub nonempty : 1 ≤ bucket_count
  pub counted : r.zero_count + sum r.counts ≡ r.count

sum-increment : (ns : List ℕ) (i : ℕ) → i < length ns → sum (increment ns i) ≡ sum ns + 1
sum-increment [] i h = absurd (omega arith)
sum-increment (n ∷ ns) zero h = omega arith
sum-increment (n ∷ ns) (suc i) h = omega (arith, sum-increment ns i (omega arith))

sum-replicate : (n : ℕ) → sum (replicate n 0) ≡ 0
sum-replicate zero = refl
sum-replicate (suc n) = omega (arith, sum-replicate n)

pub empty-IsValid : (config : Config) (n : ℕ) → 1 ≤ n → IsValid n (empty config n)
unfolding empty
empty-IsValid config n h = record {
  sized = length-replicate n 0;
  nonempty = h;
  counted = omega (arith, sum-replicate n);
}

pub record_latency-IsValid :
    (bucket_of : ℕ → ℕ) (n : ℕ) (x : Latency) (r : Recorder)
    → IsValid n r
    → IsValid n (record_latency bucket_of x r)
unfolding record_latency
record_latency-IsValid bucket_of n Latency.not_a_number r h = record {
  sized = h.sized;
  nonempty = h.nonempty;
  counted = h.counted;
}
record_latency-IsValid bucket_of n Latency.negative r h = record {
  sized = h.sized;
  nonempty = h.nonempty;
  counted = h.counted;
}
record_latency-IsValid bucket_of n (Latency.finite ms) r h =
    if_both (IsValid n) (ms == 0)
      (record { sized = h.sized; nonempty = h.nonempty; counted = omega (arith, h.counted) })
      (if_both (IsValid n) (ltb ms r.config.lowest_discernible)
        (record { sized = h.sized; nonempty = h.nonempty; counted = h.counted })
        (if_both (IsValid n) (ltb r.config.highest_trackable ms)
          (record { sized = h.sized; nonempty = h.nonempty; counted = h.counted })
          (record {
            sized = length-set r.counts (bucket bucket_of r ms) _ ∙ h.sized;
            nonempty = h.nonempty;
            counted = omega (
              arith,
              h.counted,
              sum-increment r.counts (bucket bucket_of r ms) (omega (arith, h.sized, h.nonempty)),
            );
          })))

pub record_all-IsValid :
    (bucket_of : ℕ → ℕ) (n : ℕ) (xs : List Latency) (r : Recorder)
    → IsValid n r
    → IsValid n (record_all bucket_of xs r)
record_all-IsValid bucket_of n [] r h = h
record_all-IsValid bucket_of n (x ∷ xs) r h =
    record_all-IsValid bucket_of n xs (record_latency bucket_of x r)
      (record_latency-IsValid bucket_of n x r h)

record_latency_counts :
    (bucket_of : ℕ → ℕ) (x : Latency) (r : Recorder)
    → let r' = record_latency bucket_of x r in
      r'.count + r'.non_finite + r'.below_range + r'.above_range
      ≡ r.count + r.non_finite + r.below_range + r.above_range + 1
unfolding record_latency
record_latency_counts bucket_of Latency.not_a_number r = omega arith
record_latency_counts bucket_of Latency.negative r = omega arith
record_latency_counts bucket_of (Latency.finite ms) r = ground arith

-- The number of observations, accepted or not, grows by one with each latency recorded.
record_all_counts_each :
    (bucket_of : ℕ → ℕ) (xs : List Latency) (r : Recorder)
    → let r' = record_all bucket_of xs r in
      r'.count + r'.non_finite + r'.below_range + r'.above_range
      ≡ r.count + r.non_finite + r.below_range + r.above_range + length xs
record_all_counts_each bucket_of [] r = omega arith
record_all_counts_each bucket_of (x ∷ xs) r = omega (
  arith,
  record_all_counts_each bucket_of xs (record_latency bucket_of x r),
  record_latency_counts bucket_of x r,
)
