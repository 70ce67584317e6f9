-- ===== src/Load/Options.antt =====
-- src/load/shared/normalize-common-load-options.ts, with src/validation: the options that both kinds of
-- load share, with their defaults. Times are milliseconds here.
pub mod Accepted
mod Tests
use benchkit.Prelude.{
  ℕ, zero, suc, ltb, leb, min, if◌then◌else◌, Bool, true, false, ◌&&◌, Option, none, some, ◌⊎◌, inl,
  inr, max_safe_integer,
}

-- A value given for a number. One that is not whole is named by its whole part.
pub data Value : Type 0 where
  whole positive_fraction : ℕ → Value
  negative not_finite not_a_number : Value

pub data Field : Type 0 where
  connections_field workers_field rate_field duration_field warmup_field timeout_field : Field
  startup_timeout_field memory_sample_field : Field

pub data Error : Type 0 where
  not_an_integer not_a_positive_number not_a_non_negative_number : Field → Error
  more_workers_than_connections flag_is_not_boolean flag_without_rate : Error

-- `isPositiveSafeInteger`
abbrev pub is_positive_safe_integer : Value → Bool
is_positive_safe_integer (whole n) = leb n max_safe_integer && ltb 0 n
is_positive_safe_integer _ = false

-- `isPositiveFiniteNumber`
abbrev pub is_positive_finite : Value → Bool
is_positive_finite (whole n) = ltb 0 n
is_positive_finite (positive_fraction n) = true
is_positive_finite _ = false

-- `isNonNegativeFiniteNumber`
abbrev pub is_non_negative_finite : Value → Bool
is_non_negative_finite (whole n) = true
is_non_negative_finite (positive_fraction n) = true
is_non_negative_finite _ = false

abbrev pub whole_part : Value → ℕ
whole_part (whole n) = n
whole_part (positive_fraction n) = n
whole_part _ = 0

unfoldable pub require_positive_integer : Field → Value → Error ⊎ ℕ
require_positive_integer field v =
    if is_positive_safe_integer v then inr (whole_part v) else inl (not_an_integer field)

unfoldable pub require_positive_number : Field → Value → Error ⊎ Value
require_positive_number field v =
    if is_positive_finite v then inr v else inl (not_a_positive_number field)

unfoldable pub require_non_negative_number : Field → Value → Error ⊎ Value
require_non_negative_number field v =
    if is_non_negative_finite v then inr v else inl (not_a_non_negative_number field)

pub data Flag : Type 0 where
  boolean : Bool → Flag
  not_boolean : Flag

pub record CommonOptions : Type 0 where
  pub connections : Option Value
  pub workers : Option Value
  pub rate : Option Value
  pub correct_coordinated_omission : Option Flag
  pub duration : Option Value
  pub warmup : Option Value
  pub timeout : Option Value
  pub startup_timeout : Option Value
  pub memory_sample : Option Value

pub data Mode : Type 0 where
  closed_loop fixed_rate : Mode

pub record CommonParameters : Type 0 where
  pub connections : ℕ
  pub workers : ℕ
  pub mode : Mode
  pub rate : Option Value
  pub correct_coordinated_omission : Bool
  pub duration : Value
  pub warmup : Value
  pub timeout : Value
  pub startup_timeout : Value
  pub memory_sample : Value

-- A thrown error ends the rest.
infixl 5 ◌>>=◌
unfoldable pub ◌>>=◌ {ℓ κ} : {A : Type ℓ} {B : Type κ} → Error ⊎ A → (A → Error ⊎ B) → Error ⊎ B
inl e >>= f = inl e
inr a >>= f = f a

-- `??`
abbrev pub or_default {ℓ} : {A : Type ℓ} → Option A → A → A
or_default none d = d
or_default (some a) d = a

abbrev pub normalize_rate : Option Value → Error ⊎ Option Value
normalize_rate none = inr none
normalize_rate (some v) = require_positive_number rate_field v >>= λ r. inr (some r)

-- the two checks of `correctCoordinatedOmission`, and the value that the parameters have
abbrev pub normalize_flag : Option Value → Option Flag → Error ⊎ Bool
normalize_flag rate (some not_boolean) = inl flag_is_not_boolean
normalize_flag none (some (boolean b)) = inl flag_without_rate
normalize_flag none none = inr false
normalize_flag (some r) none = inr true
normalize_flag (some r) (some (boolean b)) = inr b

abbrev pub mode_of : Option Value → Mode
mode_of none = closed_loop
mode_of (some r) = fixed_rate

abbrev pub check_workers : ℕ → ℕ → Error ⊎ ℕ
check_workers workers connections =
    if ltb connections workers then inl more_workers_than_connections else inr workers

abbrev pub parameters_of :
    ℕ → ℕ → Option Value → Bool → Value → Value → Value → Value → Value → CommonParameters
parameters_of connections workers rate correct duration warmup timeout startup sample = record {
  connections = connections;
  workers = workers;
  mode = mode_of rate;
  rate = rate;
  correct_coordinated_omission = correct;
  duration = duration;
  warmup = warmup;
  timeout = timeout;
  startup_timeout = startup;
  memory_sample = sample;
}

-- `normalizeCommonLoadOptions`, of the number of processors and the options
unfoldable pub normalize : ℕ → CommonOptions → Error ⊎ CommonParameters
normalize parallelism o = do
  connections ← require_positive_integer connections_field (or_default o.connections (whole 10))
  let default_workers = min 4 (min parallelism connections)
  requested ← require_positive_integer workers_field (or_default o.workers (whole default_workers))
  rate ← normalize_rate o.rate
  workers ← check_workers requested connections
  correct ← normalize_flag rate o.correct_coordinated_omission
  duration ← require_positive_number duration_field (or_default o.duration (whole 10000))
  warmup ← require_non_negative_number warmup_field (or_default o.warmup (whole 0))
  timeout ← require_positive_number timeout_field (or_default o.timeout (whole 10000))
  startup ←
      require_positive_number startup_timeout_field (or_default o.startup_timeout (whole 10000))
  sample ← require_positive_number memory_sample_field (or_default o.memory_sample (whole 50))
  inr (parameters_of connections workers rate correct duration warmup timeout startup sample)
