-- ===== src/Latency/Merge.antt =====
-- src/measurement/bounded-latency-recorder.ts: what merging a snapshot computes.
use benchkit.Prelude.{
  ℕ, zero, suc, ◌+◌, ◌≤◌, ◌≡◌, refl, sym, ap, subst, ap₂, ◌∙◌, List, [], ◌∷◌, true, none, length,
  get_or, replicate, length-set, length-replicate, arith, inr,
}
use benchkit.Latency.{
  bucket, Config, Recorder, Latency, merged, empty, increment, add_counts, snapshot, all_safe,
  counters, validate_snapshot, absorb, merge_unless, merge, record_latency, record_all, construct,
  summary, summarized, summarize_snapshot,
}
use benchkit.Latency.Invariant.{IsValid, empty-IsValid, record_all-IsValid}

length-add_counts : (ns vs : List ℕ) → length (add_counts ns vs) ≡ length ns
length-add_counts [] vs = refl
length-add_counts (n ∷ ns) [] = ap suc (length-add_counts ns [])
length-add_counts (n ∷ ns) (v ∷ vs) = ap suc (length-add_counts ns vs)

add_counts-replicate : (ns : List ℕ) (k : ℕ) → add_counts ns (replicate k 0) ≡ ns
add_counts-replicate [] k = refl
add_counts-replicate (n ∷ ns) zero = ap (◌∷◌ n) (add_counts-replicate ns zero)
add_counts-replicate (n ∷ ns) (suc k) = ap₂ ◌∷◌ (omega arith) (add_counts-replicate ns k)

add_counts-increment :
    (ns vs : List ℕ) (i : ℕ)
    → length vs ≡ length ns
    → add_counts ns (increment vs i) ≡ increment (add_counts ns vs) i
add_counts-increment [] [] i h = refl
add_counts-increment [] (v ∷ vs) i h = refl
add_counts-increment (n ∷ ns) [] i h = absurd (omega arith)
add_counts-increment (n ∷ ns) (v ∷ vs) zero h = ap (λ k. k ∷ add_counts ns vs) (omega arith)
add_counts-increment (n ∷ ns) (v ∷ vs) (suc i) h =
    ap (◌∷◌ (n + v)) (add_counts-increment ns vs i (omega arith))

-- What a recorder's own snapshot passes the validation by.
validate-snapshot :
    (n : ℕ) (r s : Recorder)
    → IsValid n s
    → length r.counts ≡ n
    → r.config ≡ s.config
    → all_safe (counters (snapshot s)) ≡ true
    → validate_snapshot (snapshot s) r.config (length r.counts) ≡ none
unfolding validate_snapshot snapshot
validate-snapshot n r s h len cfg safe = ground (
  arith,
  safe,
  h.sized,
  h.counted,
  ap (λ c. c.lowest_discernible) cfg,
  ap (λ c. c.highest_trackable) cfg,
  ap (λ c. c.relative_accuracy) cfg,
)

pub merge-eq-absorb :
    (n : ℕ) (r s : Recorder)
    → IsValid n s
    → length r.counts ≡ n
    → r.config ≡ s.config
    → all_safe (counters (snapshot s)) ≡ true
    → merge r (snapshot s) ≡ merged (absorb r (snapshot s))
unfolding merge
merge-eq-absorb n r s h len cfg safe =
    ap (λ e. merge_unless e r (snapshot s)) (validate-snapshot n r s h len cfg safe)

absorb-record_latency :
    (bucket_of : ℕ → ℕ) (x : Latency) (r s : Recorder)
    → length s.counts ≡ length r.counts
    → r.config ≡ s.config
    → absorb r (snapshot (record_latency bucket_of x s))
      ≡ record_latency bucket_of x (absorb r (snapshot s))
unfolding record_latency snapshot
absorb-record_latency bucket_of Latency.not_a_number r s len cfg = ground arith
absorb-record_latency bucket_of Latency.negative r s len cfg = ground arith
absorb-record_latency bucket_of (Latency.finite ms) r s len cfg = ground (
  arith,
  cfg,
  len,
  length-add_counts r.counts s.counts,
  add_counts-increment r.counts s.counts (bucket bucket_of s ms) len,
)

absorb-empty : (n : ℕ) (r : Recorder) → absorb r (snapshot (empty r.config n)) ≡ r
unfolding empty snapshot
absorb-empty n r = ground (arith, add_counts-replicate r.counts n)

-- What `record` and `merge` leave of a recorder: its configuration and its buckets.
abbrev pub SameShape : Recorder → Recorder → Type 0
SameShape r r' = (r.config ≡ r'.config) × (length r.counts ≡ length r'.counts)

record_latency-SameShape :
    (bucket_of : ℕ → ℕ) (x : Latency) (r : Recorder) → SameShape r (record_latency bucket_of x r)
unfolding record_latency
record_latency-SameShape bucket_of Latency.not_a_number r = (refl, refl)
record_latency-SameShape bucket_of Latency.negative r = (refl, refl)
record_latency-SameShape bucket_of (Latency.finite ms) r = ground (
  arith,
  length-set r.counts (bucket bucket_of r ms) (get_or r.counts (bucket bucket_of r ms) 0 + 1),
)

pub record_all-SameShape :
    (bucket_of : ℕ → ℕ) (xs : List Latency) (r : Recorder) → SameShape r (record_all bucket_of xs r)
record_all-SameShape bucket_of [] r = (refl, refl)
record_all-SameShape bucket_of (x ∷ xs) r =
    let h = record_latency-SameShape bucket_of x r in
    let k = record_all-SameShape bucket_of xs (record_latency bucket_of x r) in
    (h.0 ∙ k.0, h.1 ∙ k.1)

absorb-record_all :
    (bucket_of : ℕ → ℕ) (xs : List Latency) (r s : Recorder)
    → length s.counts ≡ length r.counts
    → r.config ≡ s.config
    → absorb r (snapshot (record_all bucket_of xs s))
      ≡ record_all bucket_of xs (absorb r (snapshot s))
absorb-record_all bucket_of [] r s len cfg = refl
absorb-record_all bucket_of (x ∷ xs) r s len cfg =
    let h = record_latency-SameShape bucket_of x s in
    absorb-record_all bucket_of xs r (record_latency bucket_of x s) (sym h.1 ∙ len) (cfg ∙ h.0)
    ∙ ap (record_all bucket_of xs) (absorb-record_latency bucket_of x r s len cfg)

empty-SameShape : (n : ℕ) (r : Recorder) → length r.counts ≡ n → SameShape r (empty r.config n)
unfolding empty
empty-SameShape n r len = (refl, len ∙ sym (length-replicate n 0))

-- Merging the snapshot of a recorder that started empty, with the same configuration and buckets and
-- with safe counters, leaves the recorder as it would be had it recorded the other's latencies itself.
pub merge-record_all :
    (bucket_of : ℕ → ℕ) (n : ℕ) (ys : List Latency) (r : Recorder)
    → 1 ≤ n
    → length r.counts ≡ n
    → let s = record_all bucket_of ys (empty r.config n) in
      all_safe (counters (snapshot s)) ≡ true
      → merge r (snapshot s) ≡ merged (record_all bucket_of ys r)
merge-record_all bucket_of n ys r pos len safe =
    let e = empty r.config n in
    let h = record_all-SameShape bucket_of ys e in
    let fresh = empty-SameShape n r len in
    merge-eq-absorb n r (record_all bucket_of ys e)
      (record_all-IsValid bucket_of n ys e (empty-IsValid r.config n pos)) len (fresh.0 ∙ h.0) safe
    ∙ ap merged (
        absorb-record_all bucket_of ys r e (sym fresh.1) fresh.0
        ∙ ap (record_all bucket_of ys) (absorb-empty n r))

add_counts-zeros : (ns : List ℕ) → add_counts (replicate (length ns) 0) ns ≡ ns
add_counts-zeros [] = refl
add_counts-zeros (n ∷ ns) = ap₂ ◌∷◌ (omega arith) (add_counts-zeros ns)

absorb_fresh :
    (n : ℕ) (r : Recorder) → length r.counts ≡ n → absorb (empty r.config n) (snapshot r) ≡ r
unfolding empty snapshot
absorb_fresh n r len = ground (arith, len, add_counts-zeros r.counts)

-- A valid recorder with safe counters is restored by merging its snapshot into an empty recorder of
-- its configuration and number of buckets.
pub merge-snapshot :
    (n : ℕ) (r : Recorder)
    → IsValid n r
    → all_safe (counters (snapshot r)) ≡ true
    → merge (empty r.config n) (snapshot r) ≡ merged r
merge-snapshot n r h safe =
    let fresh = empty-SameShape n r h.sized in
    merge-eq-absorb n (empty r.config n) r h (sym fresh.1 ∙ h.sized) (sym fresh.0) safe
    ∙ ap merged (absorb_fresh n r h.sized)

construct-empty :
    (whole : ℕ) (bucket_count : Config → ℕ) (config : Config) {r : Recorder}
    → construct whole bucket_count config ≡ inr r
    → r ≡ empty config (bucket_count config)
unfolding construct
construct-empty whole bucket_count config e = ground arith

summarize_valid :
    (midpoint : ℕ → ℕ) (whole : ℕ) (bucket_count : Config → ℕ) (r : Recorder)
    → construct whole bucket_count r.config ≡ inr (empty r.config (bucket_count r.config))
    → IsValid (bucket_count r.config) r
    → all_safe (counters (snapshot r)) ≡ true
    → summarize_snapshot midpoint whole bucket_count (snapshot r) ≡ summarized (summary midpoint r)
unfolding summarize_snapshot snapshot
summarize_valid midpoint whole bucket_count r made h safe =
    ground (arith, made, merge-snapshot (bucket_count r.config) r h safe)

-- The summary of the snapshot of a recorder, which was constructed with at least one bucket and has
-- recorded any latencies with safe counters, is the recorder's own summary.
pub summarize-snapshot :
    (bucket_of midpoint : ℕ → ℕ) (whole : ℕ) (bucket_count : Config → ℕ) (config : Config)
    (r : Recorder) (xs : List Latency)
    → 1 ≤ bucket_count config
    → construct whole bucket_count config ≡ inr r
    → let r' = record_all bucket_of xs r in
      all_safe (counters (snapshot r')) ≡ true
      → summarize_snapshot midpoint whole bucket_count (snapshot r')
        ≡ summarized (summary midpoint r')
unfolding empty
summarize-snapshot bucket_of midpoint whole bucket_count config r xs pos made safe =
    let n = bucket_count config in
    let e = construct-empty whole bucket_count config made in
    let cfg = ap (λ q. q.config) (sym e) ∙ (record_all-SameShape bucket_of xs r).0 in
    let valid =
      record_all-IsValid bucket_of n xs r
        (subst (IsValid n) (sym e) (empty-IsValid config n pos)) in
    summarize_valid midpoint whole bucket_count (record_all bucket_of xs r)
      (subst (λ c. construct whole bucket_count c ≡ inr (empty c (bucket_count c))) cfg
        (made ∙ ap inr e))
      (subst (λ c. IsValid (bucket_count c) (record_all bucket_of xs r)) cfg valid) safe
