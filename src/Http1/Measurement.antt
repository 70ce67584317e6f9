-- ===== src/Http1/Measurement.antt =====
-- src/load/http1/http1-worker-measurement.ts: the status codes beside the shared measurement.
pub mod Codes
use benchkit.Prelude.{
  ℕ, zero, suc, ◌+◌, ◌-◌, leb, ltb, if◌then◌else◌, Bool, true, false, not, ◌&&◌, List, [], ◌∷◌,
  length, get_or, set, replicate,
}
use benchkit.Latency.{Latency}
use benchkit.Memory.{MemoryUsage}
use benchkit.Load.Measurement.{Measurement, WorkerResult, new, start, record_completed}

pub record Http1Measurement : Type 0 where
  pub common : Measurement
  pub status_code_counts : List ℕ
  pub non_2xx : ℕ

unfoldable pub new_http1 : ℕ → Http1Measurement
new_http1 bucket_count = record {
  common = new bucket_count;
  status_code_counts = replicate 600 0;
  non_2xx = 0;
}

abbrev pub is_2xx : ℕ → Bool
is_2xx status = leb 200 status && ltb status 300

-- `recordResponse`; a write out of the array's bounds changes nothing.
unfoldable pub record_response : (ℕ → ℕ) → ℕ → Latency → Http1Measurement → Http1Measurement
record_response bucket_of status latency m = record {
  common = record_completed bucket_of latency 0 m.common;
  status_code_counts = set m.status_code_counts status (get_or m.status_code_counts status 0 + 1);
  non_2xx = if is_2xx status then m.non_2xx else m.non_2xx + 1;
}

unfoldable pub reset_protocol_metrics : Http1Measurement → Http1Measurement
reset_protocol_metrics m = record m {
  status_code_counts = replicate (length m.status_code_counts) 0;
  non_2xx = 0;
}

-- `start` of the shared measurement, which resets these metrics too
unfoldable pub start_http1 : ℕ → MemoryUsage → Http1Measurement → Http1Measurement
start_http1 elu usage m =
    let m' = reset_protocol_metrics m in record m' { common = start elu usage m'.common }

-- the loop of `#statusCodesResult` over the counts from a code on
abbrev pub status_codes_from : ℕ → List ℕ → List (ℕ × ℕ)
status_codes_from code [] = []
status_codes_from code (n ∷ ns) =
    let rest = status_codes_from (code + 1) ns in
    if leb 100 code && ltb 0 n then (code, n) ∷ rest else rest

-- `#statusCodesResult`: the codes with their counts, in order; it leaves out those below 100
unfoldable pub status_codes_result : Http1Measurement → List (ℕ × ℕ)
status_codes_result m = status_codes_from 0 m.status_code_counts

pub record Http1WorkerResult : Type 0 where
  pub common : WorkerResult
  pub status_codes : List (ℕ × ℕ)
  pub non_2xx : ℕ

unfoldable pub build_result : WorkerResult → Http1Measurement → Http1WorkerResult
build_result common m = record {
  common = common;
  status_codes = status_codes_result m;
  non_2xx = m.non_2xx;
}
