-- ===== src/Load/Rate/Shares.antt =====
-- src/load/shared/load-worker.ts: the workers share the sequence of operations without overlap.
use native.Mathlib.Nat.{
  le-div_iff_mul-le, div-add-mod', mod-lt, mod-eq_of_lt, add-mul-mod_self_right, add-mul-div_right,
  div-eq_of_lt,
}
use benchkit.Prelude.{
  ℕ, ◌+◌, ◌-◌, ◌*◌, ◌/◌, ◌%◌, ◌≤◌, ◌<◌, ◌≡◌, ◌↔◌, sym, ap, ◌∙◌, le-cases, inl, inr, arith,
}
use benchkit.Load.Rate.{RateData, expected, sequence}

-- A worker's operation of an index is expected exactly when its global number is due.
pub expected_iff :
    (d : RateData) (due k : ℕ) → 1 ≤ d.stride → (k < expected d due) ↔ (sequence d k ≤ due)
expected_iff d due k pos =
    let quotient = le-div_iff_mul-le {k = d.stride} {x = k} {y = due - 1 - d.offset} pos in
    elim (le-cases due d.offset) [
      | inl le ↦ ((λ h. absurd (ground (arith, h, le))), (λ h. absurd (omega (arith, h, le))))
      | inr lt ↦ (
        (λ h. omega (arith, lt, quotient.0 (ground (arith, h, lt)))),
        (λ h. ground (arith, lt, quotient.1 (omega (arith, h, lt)))),
      )
    ]

-- Of the workers with the offsets below their number, exactly one has an operation of a global
-- number from 1 on, and it has it once.
pub sequence_once :
    (rate workers q : ℕ)
    → 1 ≤ workers
    → 1 ≤ q
    → (i : ℕ) × (k : ℕ) × (i < workers)
      × (sequence (record { rate = rate; offset = i; stride = workers }) k ≡ q)
      × ((j l : ℕ)
          → j < workers
          → sequence (record { rate = rate; offset = j; stride = workers }) l ≡ q
          → (j ≡ i) × (l ≡ k))
sequence_once rate workers q pos some_q = (
  (q - 1) % workers,
  (q - 1) / workers,
  mod-lt (q - 1) pos,
  omega (arith, div-add-mod' (q - 1) workers, some_q),
  λ j l lt e.
      let same : j + l * workers ≡ q - 1 = omega (arith, e, some_q) in
      (
        sym (mod-eq_of_lt lt)
            ∙ (sym (add-mul-mod_self_right j l workers) ∙ ap (λ n. n % workers) same),
        omega (arith, add-mul-div_right j l pos, ap (λ n. n / workers) same, div-eq_of_lt lt),
      ),
)
