-- ===== src/Load/Options/Accepted.antt =====
-- src/load/shared/normalize-common-load-options.ts: what holds of options that are accepted.
use native.Mathlib.Nat.{div-add-mod, mod-lt}
use benchkit.Prelude.{
  ℕ, ◌+◌, ◌*◌, ◌/◌, ◌%◌, ◌≤◌, ◌<◌, ◌≡◌, true, false, Option, none, some, ◌⊎◌, inl, inr,
  max_safe_integer, List, [], ◌∷◌, length, All, arith, refl, if_cases, subst, OnSome, eq-cases,
}
use benchkit.Latency.{sum}
use benchkit.Load.Coordinator.{start_workers}
use benchkit.Load.Coordinator.Shares.{start_workers_share}
use benchkit.Load.Options.{
  Value, whole, positive_fraction, negative, not_finite, not_a_number, Field, Error,
  is_positive_finite, is_non_negative_finite, require_positive_integer, require_positive_number,
  require_non_negative_number, Flag, boolean, not_boolean, CommonOptions, fixed_rate,
  CommonParameters, ◌>>=◌, normalize_rate, normalize_flag, mode_of, check_workers, normalize,
  rate_field, parameters_of,
}

-- what holds of a result, if no error is thrown
abbrev OnRight {ℓ} : {A : Type ℓ} → (A → Type 0) → Error ⊎ A → Type 0
OnRight P (inl e) = Unit
OnRight P (inr a) = P a

OnRight-bind {ℓ κ} :
    {A : Type ℓ} {B : Type κ} (P : A → Type 0) (Q : B → Type 0) (o : Error ⊎ A) (f : A → Error ⊎ B)
    → OnRight P o
    → ((a : A) → P a → OnRight Q (f a))
    → OnRight Q (o >>= f)
unfolding ◌>>=◌
OnRight-bind P Q (inl e) f h k = tt
OnRight-bind P Q (inr a) f h k = k a h

OnRight-eq {ℓ} :
    {A : Type ℓ} (P : A → Type 0) (o : Error ⊎ A) (a : A) → OnRight P o → o ≡ inr a → P a
OnRight-eq P o a h e = subst (OnRight P) e h

-- a safe integer above 0
abbrev pub IsCount : ℕ → Type 0
IsCount n = (0 < n) × (n ≤ max_safe_integer)

require_positive_integer-IsCount :
    (field : Field) (v : Value) → OnRight IsCount (require_positive_integer field v)
unfolding require_positive_integer
require_positive_integer-IsCount field (whole n) = ground arith
require_positive_integer-IsCount field (positive_fraction n) = tt
require_positive_integer-IsCount field negative = tt
require_positive_integer-IsCount field not_finite = tt
require_positive_integer-IsCount field not_a_number = tt

abbrev pub IsPositive : Value → Type 0
IsPositive v = is_positive_finite v ≡ true

require_positive_number-IsPositive :
    (field : Field) (v : Value) → OnRight IsPositive (require_positive_number field v)
unfolding require_positive_number
require_positive_number-IsPositive field v =
    if_cases (OnRight IsPositive) (is_positive_finite v) (λ e. e) (λ e. tt)

-- What the load generators rely on: at least one worker, no more workers than connections, times
-- and a rate above 0, and a correction of latencies at a fixed rate only.
abbrev pub IsNormal : CommonParameters → Type 0
IsNormal p =
    IsCount p.connections
    × (0 < p.workers)
    × (p.workers ≤ p.connections)
    × (p.mode ≡ mode_of p.rate)
    × OnSome IsPositive p.rate
    × ((p.correct_coordinated_omission ≡ false) ⊎ (p.mode ≡ fixed_rate))
    × IsPositive p.duration
    × (is_non_negative_finite p.warmup ≡ true)
    × IsPositive p.timeout
    × IsPositive p.startup_timeout
    × IsPositive p.memory_sample

normalize_rate-IsPositive : (o : Option Value) → OnRight (OnSome IsPositive) (normalize_rate o)
normalize_rate-IsPositive none = tt
normalize_rate-IsPositive (some v) =
    OnRight-bind IsPositive (OnSome IsPositive) (require_positive_number rate_field v)
      (λ r. inr (some r)) (require_positive_number-IsPositive rate_field v) (λ r h. h)

check_workers_le :
    (workers connections : ℕ)
    → 0 < workers
    → OnRight (λ n. (0 < n) × (n ≤ connections)) (check_workers workers connections)
check_workers_le workers connections h = ground arith

normalize_flag_rate :
    (rate : Option Value) (o : Option Flag)
    → OnRight (λ b. (b ≡ false) ⊎ (mode_of rate ≡ fixed_rate)) (normalize_flag rate o)
normalize_flag_rate none none = inl refl
normalize_flag_rate none (some (boolean b)) = tt
normalize_flag_rate none (some not_boolean) = tt
normalize_flag_rate (some r) none = inr refl
normalize_flag_rate (some r) (some (boolean b)) = inr refl
normalize_flag_rate (some r) (some not_boolean) = tt

require_non_negative_number_lem :
    (field : Field) (v : Value)
    → OnRight (λ r. is_non_negative_finite r ≡ true) (require_non_negative_number field v)
unfolding require_non_negative_number
require_non_negative_number_lem field v =
    if_cases (OnRight λ r. is_non_negative_finite r ≡ true) (is_non_negative_finite v) (λ e. e)
      (λ e. tt)

normalize-OnRight :
    (parallelism : ℕ) (o : CommonOptions) → OnRight IsNormal (normalize parallelism o)
unfolding normalize
normalize-OnRight parallelism o =
    OnRight-bind IsCount IsNormal _ _ (require_positive_integer-IsCount _ _) λ connections hc.
      OnRight-bind IsCount IsNormal _ _ (require_positive_integer-IsCount _ _) λ requested hr.
        OnRight-bind (OnSome IsPositive) IsNormal _ _ (normalize_rate-IsPositive o.rate)
          λ rate hrate.
            OnRight-bind (λ n. (0 < n) × (n ≤ connections)) IsNormal _ _
              (check_workers_le requested connections hr.0)
              λ workers hw.
                OnRight-bind (λ b. (b ≡ false) ⊎ (mode_of rate ≡ fixed_rate)) IsNormal _ _
                  (normalize_flag_rate rate o.correct_coordinated_omission)
                  λ correct hf.
                    OnRight-bind IsPositive IsNormal _ _ (require_positive_number-IsPositive _ _)
                      λ duration hd.
                        OnRight-bind (λ r. is_non_negative_finite r ≡ true) IsNormal _ _
                          (require_non_negative_number_lem _ _)
                          λ warmup hwarm.
                            OnRight-bind IsPositive IsNormal _ _
                              (require_positive_number-IsPositive _ _)
                              λ timeout ht.
                                OnRight-bind IsPositive IsNormal _ _
                                  (require_positive_number-IsPositive _ _)
                                  λ startup hs.
                                    OnRight-bind IsPositive IsNormal _
                                      (λ sample. inr (
                                        parameters_of connections workers rate correct duration
                                          warmup timeout startup sample))
                                      (require_positive_number-IsPositive _ _)
                                      λ sample hm.
                                        (hc, hw.0, hw.1, refl, hrate, hf, hd, hwarm, ht, hs, hm)

div-pos : (n m : ℕ) → 0 < m → m ≤ n → 0 < n / m
div-pos n m pos le = elim (eq-cases (n / m) 0) [
  | inl e ↦
      let whole_n : m * 0 + n % m ≡ n = subst (λ q. m * q + n % m ≡ n) e (div-add-mod n m) in
      absurd (omega (arith, whole_n, mod-lt n pos, le))
  | inr ne ↦ omega (arith, ne)
]

All-weaken : (P Q : ℕ → Type 0) (ns : List ℕ) → ((n : ℕ) → P n → Q n) → All P ns → All Q ns
All-weaken P Q [] k h = tt
All-weaken P Q (n ∷ ns) k h = (k n h.0, All-weaken P Q ns k h.1)

-- Options that are accepted have parameters that the load generators can rely on; and when the
-- coordinator starts the workers with them, each has a connection at least, no two differ by more
-- than one, and together they have as many as asked for.
pub normalize_shares :
    (parallelism : ℕ) (o : CommonOptions) (p : CommonParameters)
    → normalize parallelism o ≡ inr p
    → IsNormal p
      × (length (start_workers p.connections p.workers) ≡ p.workers)
      × (sum (start_workers p.connections p.workers) ≡ p.connections)
      × All
          (λ n. (0 < n) × (p.connections / p.workers ≤ n) × (n ≤ p.connections / p.workers + 1))
          (start_workers p.connections p.workers)
normalize_shares parallelism o p e =
    let normal =
      OnRight-eq IsNormal (normalize parallelism o) p (normalize-OnRight parallelism o) e in
    let shares = start_workers_share p.connections p.workers (omega (arith, normal.1)) in
    let some_each = div-pos p.connections p.workers normal.1 normal.2 in
    (
      normal,
      shares.0,
      shares.1,
      All-weaken _ _ (start_workers p.connections p.workers)
          (λ n h. (omega (arith, h.0, some_each), h.0, h.1)) shares.2,
    )
