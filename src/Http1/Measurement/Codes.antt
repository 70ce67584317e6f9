-- ===== src/Http1/Measurement/Codes.antt =====
-- src/load/http1/http1-worker-measurement.ts: the reported codes add up to the responses.
use benchkit.Prelude.{
  ℕ, zero, suc, ◌+◌, ◌≤◌, ◌<◌, ◌≡◌, refl, ap, ◌∙◌, leb, if◌then◌else◌, Bool, true, false, not, List,
  [], ◌∷◌, length, get_or, set, replicate, length-set, length-replicate, All, arith,
}
use benchkit.Latency.{Latency}
use benchkit.Load.Measurement.{WorkerResult}
use benchkit.Http1.Measurement.{
  Http1Measurement, is_2xx, record_response, status_codes_from, status_codes_result, build_result,
  new_http1,
}

-- How many responses a list of codes with counts has, and how many with a code that passes a test.
abbrev pub counted : (ℕ → Bool) → List (ℕ × ℕ) → ℕ
counted test [] = 0
counted test ((code, n) ∷ rest) = (if test code then n else 0) + counted test rest

abbrev pub record_responses : (ℕ → ℕ) → List (ℕ × Latency) → Http1Measurement → Http1Measurement
record_responses bucket_of [] m = m
record_responses bucket_of ((status, latency) ∷ more) m =
    record_responses bucket_of more (record_response bucket_of status latency m)

-- the responses with a code that passes a test
abbrev pub matching : (ℕ → Bool) → List (ℕ × Latency) → ℕ
matching test [] = 0
matching test ((status, latency) ∷ more) = (if test status then 1 else 0) + matching test more

-- A code that the parser gives.
abbrev pub IsCode : ℕ × Latency → Type 0
IsCode r = (100 ≤ r.0) × (r.0 < 600)

counted-status_codes_from :
    (test : ℕ → Bool) (start n : ℕ) (ns : List ℕ)
    → counted test (status_codes_from start (n ∷ ns))
      ≡ (if leb 100 start then (if test start then n else 0) else 0)
        + counted test (status_codes_from (start + 1) ns)
counted-status_codes_from test start n ns = ground (arith)

reported-suc :
    (test : ℕ → Bool) (start code n : ℕ)
    → start ≡ code
    → 100 ≤ code
    → (if leb 100 start then (if test start then n + 1 else 0) else 0)
      ≡ (if test code then 1 else 0) + (if leb 100 start then (if test start then n else 0) else 0)
reported-suc test start code n e low = let same = ap test e in ground (arith, same)

counted-set :
    (test : ℕ → Bool) (start i code : ℕ) (ns : List ℕ)
    → start + i ≡ code
    → 100 ≤ code
    → i < length ns
    → counted test (status_codes_from start (set ns i (get_or ns i 0 + 1)))
      ≡ (if test code then 1 else 0) + counted test (status_codes_from start ns)
counted-set test start i code [] e low h = absurd (omega (arith, h))
counted-set test start zero code (n ∷ ns) e low h = omega (
  arith,
  counted-status_codes_from test start (n + 1) ns,
  counted-status_codes_from test start n ns,
  reported-suc test start code n (omega (arith, e)) low,
)
counted-set test start (suc i) code (n ∷ ns) e low h =
    let ih = counted-set test (start + 1) i code ns (omega (arith, e)) low (omega (arith, h)) in
    omega (
      arith,
      ih,
      counted-status_codes_from test start n (set ns i (get_or ns i 0 + 1)),
      counted-status_codes_from test start n ns,
    )

if-same :
    (test : ℕ → Bool) (start : ℕ)
    → ◌≡◌ {A = ℕ} (if leb 100 start then (if test start then 0 else 0) else 0) 0
if-same test start = ground (arith)

counted-replicate :
    (test : ℕ → Bool) (start n : ℕ) → counted test (status_codes_from start (replicate n 0)) ≡ 0
counted-replicate test start zero = refl
counted-replicate test start (suc n) = omega (
  arith,
  counted-replicate test (start + 1) n,
  counted-status_codes_from test start 0 (replicate n 0),
  if-same test start,
)

one_more : (b : Bool) (n : ℕ) → (if b then n else n + 1) ≡ (if not b then 1 else 0) + n
one_more true n = omega arith
one_more false n = omega arith

record_responses-counted :
    (bucket_of : ℕ → ℕ) (test : ℕ → Bool) (xs : List (ℕ × Latency)) (m : Http1Measurement)
    → All IsCode xs
    → length m.status_code_counts ≡ 600
    → counted test (status_codes_from 0 (record_responses bucket_of xs m).status_code_counts)
      ≡ matching test xs + counted test (status_codes_from 0 m.status_code_counts)
unfolding record_response
record_responses-counted bucket_of test [] m codes full = omega arith
record_responses-counted bucket_of test ((status, latency) ∷ more) m codes full =
    let ih =
      record_responses-counted bucket_of test more (record_response bucket_of status latency m)
        codes.1
        (length-set m.status_code_counts status (get_or m.status_code_counts status 0 + 1)
          ∙ full) in
    omega (
      arith,
      ih,
      counted-set test 0 status status m.status_code_counts (omega arith) codes.0.0
          (omega (arith, codes, full)),
    )

record_responses-non_2xx :
    (bucket_of : ℕ → ℕ) (xs : List (ℕ × Latency)) (m : Http1Measurement)
    → (record_responses bucket_of xs m).non_2xx ≡ matching (λ s. not (is_2xx s)) xs + m.non_2xx
unfolding record_response
record_responses-non_2xx bucket_of [] m = omega arith
record_responses-non_2xx bucket_of ((status, latency) ∷ more) m =
    let ih = record_responses-non_2xx bucket_of more (record_response bucket_of status latency m) in
    omega (arith, ih, one_more (is_2xx status) m.non_2xx)

-- Responses with codes from 100 to 599, recorded by a new measurement: whatever test on codes one
-- chooses, the counts that the worker's result reports for the codes which pass it add up to the
-- number of responses with such a code, and the result's `non2xx` is the number of responses with a
-- code outside 200 to 299. No response is lost, and none is reported under another's code.
pub responses_counted :
    (bucket_of : ℕ → ℕ) (bucket_count : ℕ) (common : WorkerResult) (test : ℕ → Bool)
    (xs : List (ℕ × Latency))
    → All IsCode xs
    → (counted test
          (build_result common
            (record_responses bucket_of xs (new_http1 bucket_count))).status_codes
        ≡ matching test xs)
      × ((build_result common (record_responses bucket_of xs (new_http1 bucket_count))).non_2xx
          ≡ matching (λ s. not (is_2xx s)) xs)
unfolding build_result new_http1 status_codes_result
responses_counted bucket_of bucket_count common test xs codes = (
  omega (
    arith,
    record_responses-counted bucket_of test xs (new_http1 bucket_count) codes
        (length-replicate {A = ℕ} 600 0),
    counted-replicate test 0 600,
  ),
  omega (arith, record_responses-non_2xx bucket_of xs (new_http1 bucket_count)),
)
