-- ===== src/Base/Pools.antt =====
-- A `sync.Map` with numbers for keys, as the function that `Load` computes.
use Prim.Native.Nat.{ℕ}
use mathlib.Core.Option.{Option, none, some}
use packet_rusher.Base.Tests.{◌==◌, if◌then◌else◌}

abbrev pub Pool : Type 0 → Type 0
Pool V = ℕ → Option V

abbrev pub no_entries : {V : Type 0} → Pool V
no_entries k = none

abbrev pub store : {V : Type 0} → ℕ → V → Pool V → Pool V
store k v m j = if j == k then some v else m j

abbrev pub delete : {V : Type 0} → ℕ → Pool V → Pool V
delete k m j = if j == k then none else m j

-- `CompareAndDelete`, over pointers.
abbrev pub compare_and_delete : ℕ → ℕ → Pool ℕ → Pool ℕ
compare_and_delete k p m j = elim (m j) [
  | none ↦ none
  | some q ↦ if j == k then (if q == p then none else some q) else some q
]
