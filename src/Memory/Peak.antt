-- ===== src/Memory/Peak.antt =====
-- src/measurement/process-memory-peak-tracker.ts: what an interval reports.
use benchkit.Prelude.{
  ℕ, ◌≡◌, refl, max, some, List, [], ◌∷◌, ◌++◌, map, arith, inl, IsMaximum, IsMaximum-max, subst,
}
use benchkit.Memory.{MemoryUsage, MemoryInterval, PeakTracker, new, start, raised, sample, stop}

-- `keyof ProcessMemoryUsage`
pub data MemoryKey : Type 0 where
  rss heap_total heap_used external array_buffers : MemoryKey

abbrev pub at : MemoryKey → MemoryUsage → ℕ
at rss u = u.rss
at heap_total u = u.heap_total
at heap_used u = u.heap_used
at external u = u.external
at array_buffers u = u.array_buffers

abbrev pub sample_all : List MemoryUsage → PeakTracker → PeakTracker
sample_all [] t = t
sample_all (u ∷ us) t = sample_all us (sample u t)

at-raised : (k : MemoryKey) (p u : MemoryUsage) → at k (raised p u) ≡ max (at k p) (at k u)
at-raised rss p u = refl
at-raised heap_total p u = refl
at-raised heap_used p u = refl
at-raised external p u = refl
at-raised array_buffers p u = refl

-- An interval has its first and last reading, and of each kind of memory the greatest of all.
pub record Reports (first last : MemoryUsage) (between : List MemoryUsage) (i : MemoryInterval)
    : Type 0 where
  pub started : i.started ≡ first
  pub ended : i.ended ≡ last
  pub peaks :
      (k : MemoryKey) → IsMaximum (at k i.peak) (map (at k) (first ∷ (between ++ last ∷ [])))

abbrev since : MemoryUsage → MemoryUsage → PeakTracker
since first peak = record { started = some first; peak = some peak }

raised-IsMaximum :
    (k : MemoryKey) (m : ℕ) (p u : MemoryUsage) (ns : List ℕ)
    → IsMaximum m (at k (raised p u) ∷ ns)
    → IsMaximum m (at k p ∷ at k u ∷ ns)
raised-IsMaximum k m p u ns h =
    IsMaximum-max m (at k p) (at k u) ns (subst (λ n. IsMaximum m (n ∷ ns)) (at-raised k p u) h)

stop-peak :
    (first peak last : MemoryUsage) (us : List MemoryUsage)
    → (i : MemoryInterval) × (stop last (sample_all us (since first peak)) ≡ (some i, new))
      × (i.started ≡ first)
      × (i.ended ≡ last)
      × ((k : MemoryKey) → IsMaximum (at k i.peak) (map (at k) (peak ∷ (us ++ last ∷ []))))
unfolding stop sample
stop-peak first peak last [] =
    let p = raised peak last in
    (
      record { started = first; ended = last; peak = p },
      refl,
      refl,
      refl,
      λ k.
          raised-IsMaximum k (at k p) peak last []
            (record { bounds = (omega arith, tt); occurs = inl refl }),
    )
stop-peak first peak last (u ∷ us) =
    let (i, e, s, l, p) = stop-peak first (raised peak u) last us in
    (i, e, s, l, λ k. raised-IsMaximum k (at k i.peak) peak u (map (at k) (us ++ last ∷ [])) (p k))

-- Between a start and a stop, whatever is sampled, there is an interval, and the tracker is new.
pub stop-Reports :
    (t : PeakTracker) (first last : MemoryUsage) (us : List MemoryUsage)
    → (i : MemoryInterval) × (stop last (sample_all us (start first t)) ≡ (some i, new))
      × Reports first last us i
unfolding start
stop-Reports t first last us =
    let (i, e, s, l, p) = stop-peak first first last us in
    (i, e, record { started = s; ended = l; peaks = p })
