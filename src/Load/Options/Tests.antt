-- ===== src/Load/Options/Tests.antt =====
-- src/load/shared/normalize-common-load-options.ts: the theorem at concrete options.
use benchkit.Prelude.{◌+◌, ◌/◌, ◌≤◌, ◌<◌, ◌≡◌, refl, true, none, some, inl, length, All, false}
use benchkit.Latency.{sum}
use benchkit.Load.Coordinator.{start_workers}
use benchkit.Load.Options.{
  whole, boolean, CommonOptions, CommonParameters, parameters_of, more_workers_than_connections,
  flag_without_rate, require_positive_integer, require_positive_number, require_non_negative_number,
  ◌>>=◌, normalize,
}
use benchkit.Load.Options.Accepted.{IsNormal, normalize_shares}

abbrev defaults : CommonOptions
defaults = record {
  connections = none;
  workers = none;
  rate = none;
  correct_coordinated_omission = none;
  duration = none;
  warmup = none;
  timeout = none;
  startup_timeout = none;
  memory_sample = none;
}

abbrev default_parameters : CommonParameters
default_parameters =
    parameters_of 10 4 none false (whole 10000) (whole 0) (whole 10000) (whole 10000) (whole 50)

-- With 8 processors, 10 connections are shared out to 4 workers.
normalize_shares_example :
    IsNormal default_parameters
    × (length (start_workers 10 4) ≡ 4)
    × (sum (start_workers 10 4) ≡ 10)
    × All (λ n. (0 < n) × (10 / 4 ≤ n) × (n ≤ 10 / 4 + 1)) (start_workers 10 4)
unfolding normalize ◌>>=◌ require_positive_integer require_positive_number
    require_non_negative_number
normalize_shares_example = normalize_shares 8 defaults default_parameters refl

-- Fewer connections than workers are refused.
too_few_connections :
    normalize 8 (record defaults { connections = some (whole 2); workers = some (whole 3) })
    ≡ inl more_workers_than_connections
unfolding normalize ◌>>=◌ require_positive_integer require_positive_number
    require_non_negative_number
too_few_connections = refl

-- A correction of latencies without a rate is refused.
no_rate_to_correct :
    normalize 8 (record defaults { correct_coordinated_omission = some (boolean true) })
    ≡ inl flag_without_rate
unfolding normalize ◌>>=◌ require_positive_integer require_positive_number
    require_non_negative_number
no_rate_to_correct = refl
