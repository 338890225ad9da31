-- ===== src/Tests/Setup.antt =====
-- The numbers and the heap that the tests compute with.
use ai_infrastructure_platfo.Prelude.{ℕ, ◌*◌}
use ai_infrastructure_platfo.Prelude.Int.{ℤ, pos}
use ai_infrastructure_platfo.Floats.Fixed.{fixed, fixed-FloatOrder}
use ai_infrastructure_platfo.Heapq.{Heapq}
use ai_infrastructure_platfo.Heapq.Sorted.{sorted_heap}
use ai_infrastructure_platfo.Queue.{item_lt}
use ai_infrastructure_platfo.Queue.Weak.{item_lt-WeakOrder}

-- `float(n)` in thousandths
abbrev pub float : ℕ → ℤ
float n = pos (n * 1000)

instance abbrev pub test_heap : Heapq (item_lt {F = ℤ} {P = ℕ})
test_heap = sorted_heap item_lt (item_lt-WeakOrder fixed-FloatOrder)
