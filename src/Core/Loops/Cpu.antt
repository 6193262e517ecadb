-- ===== src/Core/Loops/Cpu.antt =====
-- `emit_resource_metrics`: the increments of the CPU counter.
use bugpot.Base.{ℕ, List, [], ◌∷◌, ◌≡◌, leb, if◌then◌else◌, ◌-◌, ◌+◌, arith, ◌≤◌}
use bugpot.Core.Handle.{HandleInner}

-- What one sample of the cgroup's `cpu_usec` adds, and the new baseline.
unfoldable pub emit_resource_metrics : ℕ → HandleInner → ℕ × HandleInner
emit_resource_metrics cpu_usec inner =
    let last = inner.cpu_baseline in
    (
      if leb last cpu_usec then cpu_usec - last else cpu_usec,
      record inner { cpu_baseline = cpu_usec },
    )

-- The counter after those samples.
unfoldable pub count : List ℕ → HandleInner → ℕ × HandleInner
unfolding emit_resource_metrics
count [] inner = (0, inner)
count (s ∷ samples) inner =
    let (delta, inner') = emit_resource_metrics s inner in
    let (rest, inner'') = count samples inner' in (delta + rest, inner'')

-- Samples that never step back, from that baseline.
abbrev pub Monotone : ℕ → List ℕ → Type 0
Monotone b [] = Unit
Monotone b (s ∷ samples) = (b ≤ s) × Monotone s samples

-- While the cgroup's counter never steps back, the increments add up to how far it has moved.
pub count-Monotone :
    (samples : List ℕ) (inner : HandleInner)
    → Monotone inner.cpu_baseline samples
    → inner.cpu_baseline + (count samples inner).0 ≡ (count samples inner).1.cpu_baseline
unfolding count emit_resource_metrics
count-Monotone [] inner h = omega arith
count-Monotone (s ∷ samples) inner h =
    ground (arith, h.0, count-Monotone samples (record inner { cpu_baseline = s }) h.1)
