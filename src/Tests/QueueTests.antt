-- ===== src/Tests/QueueTests.antt =====
-- python/scheduler/priority_queue.py: three requests, one of them cancelled.
use ai_infrastructure_platfo.Prelude.{
  ℕ, ◌+◌, ◌≡◌, ◌≢◌, refl, ◌≤◌, ◌<◌, true, false, ◌&&◌, some, List, [], ◌∷◌, length, arith, nat_eq,
}
use ai_infrastructure_platfo.Prelude.Int.{ℤ}
use ai_infrastructure_platfo.Prelude.Counts.{count_if, NoneOf}
use ai_infrastructure_platfo.Floats.Fixed.{fixed, fixed-FloatOrder}
use ai_infrastructure_platfo.Dict
use ai_infrastructure_platfo.Heapq.{IsHeap}
use ai_infrastructure_platfo.Heapq.Sorted.{sorted_heap, sort, insert, IsSorted-IsHeap}
use ai_infrastructure_platfo.Queue.{
  PrioritizedItem, PriorityQueue, item_of, item_lt, init, depth, enqueue, cancel, update_priority,
  reinsert, skip, deliver, pop_live, next_item,
}
use ai_infrastructure_platfo.Queue.Runs.{Call, enqueues, cancels, updates, dequeues, apply, run}
use ai_infrastructure_platfo.Queue.Ledger.{accounted-run, reinsertions}
use ai_infrastructure_platfo.Queue.Order.{has_id, is_live, Distinct, run-IsHeap, next_item-Least}
use ai_infrastructure_platfo.Queue.Cancel.{cancel_stays_out}
use ai_infrastructure_platfo.Queue.Stale.{drain, drain_each, update_priority_repeats}
use ai_infrastructure_platfo.Queue.Windows.{run-waits}
use ai_infrastructure_platfo.Tests.Setup.{float, test_heap}

-- Request 1 is predicted long, 2 and 3 are short; 2 is cancelled.
abbrev calls : List (Call ℤ ℕ)
calls =
    enqueues (float 0) 1 (float 90) 11
    ∷ enqueues (float 1) 2 (float 20) 12
    ∷ enqueues (float 2) 3 (float 30) 13
    ∷ cancels 2
    ∷ []

abbrev three_jobs : PriorityQueue ℤ ℕ
three_jobs = run init calls

init-IsHeap : IsHeap item_lt (init {F = ℤ} {P = ℕ}).heap
unfolding init
init-IsHeap = IsSorted-IsHeap item_lt [] tt

run-IsHeap_example : IsHeap item_lt three_jobs.heap
run-IsHeap_example = run-IsHeap init calls init-IsHeap

three_jobs-IsHeap : IsHeap item_lt three_jobs.heap
three_jobs-IsHeap = run-IsHeap init calls init-IsHeap

three_jobs-Distinct : Distinct three_jobs.heap
unfolding run apply enqueue cancel sorted_heap sort insert item_lt init Dict.put Dict.get Dict.has
    Dict.add Dict.contains
three_jobs-Distinct k = ground arith

abbrev job3 : PrioritizedItem ℤ ℕ
job3 = item_of (float 30) (float 2) 3 13

three_jobs-next : (next_item (float 5) three_jobs).0 ≡ some job3
unfolding run apply enqueue cancel sorted_heap sort insert item_lt init next_item pop_live skip
    deliver Dict.put Dict.get Dict.has Dict.add Dict.contains Dict.discard
three_jobs-next = refl

next_item-Least_example :
    NoneOf (λ y. item_lt y job3 && is_live three_jobs.cancelled y) three_jobs.heap
    × (Dict.contains three_jobs.cancelled 3 ≡ false)
    × (0 < count_if (has_id 3) three_jobs.heap)
next_item-Least_example =
    next_item-Least fixed-FloatOrder (float 5) three_jobs job3 three_jobs-IsHeap three_jobs-Distinct
      three_jobs-next

abbrev two_jobs : List (Call ℤ ℕ)
two_jobs = enqueues (float 0) 1 (float 90) 11 ∷ enqueues (float 1) 2 (float 20) 12 ∷ []

abbrev more_calls : List (Call ℤ ℕ)
more_calls = updates 1 (float 10) ∷ cancels 7 ∷ enqueues (float 2) 3 (float 30) 13 ∷ []

two_jobs-pending : Dict.has (run init two_jobs).pending 2 ≡ true
unfolding run apply enqueue sorted_heap init Dict.put Dict.get Dict.has
two_jobs-pending = refl

two_jobs-one : count_if (has_id 2) (run init two_jobs).heap ≤ 1
unfolding run apply enqueue sorted_heap sort insert item_lt init
two_jobs-one = omega arith

abbrev job1 : PrioritizedItem ℤ ℕ
job1 = item_of (float 10) (float 0) 1 11

more_calls-next :
    (next_item (float 5) (run (cancel (run init two_jobs) 2).0 more_calls)).0 ≡ some job1
unfolding run apply enqueue cancel update_priority reinsert sorted_heap sort insert item_lt init
    next_item pop_live skip deliver Dict.put Dict.get Dict.has Dict.add Dict.contains Dict.discard
more_calls-next = refl

cancel_stays_out_example : ((cancel (run init two_jobs) 2).1 ≡ true) × (job1.request_id ≢ 2)
cancel_stays_out_example =
    cancel_stays_out 2 (float 5) (run init two_jobs) more_calls job1 two_jobs-pending two_jobs-one
      ((λ e. cc), (tt, ((λ e. cc), tt))) more_calls-next

accounted-run_example :
    depth (run init more_calls)
      + (run init more_calls).total_dequeued
      + (run init more_calls).total_cancelled
      + (init {F = ℤ} {P = ℕ}).total_enqueued
    ≡ depth (init {F = ℤ} {P = ℕ})
      + (init {F = ℤ} {P = ℕ}).total_dequeued
      + (init {F = ℤ} {P = ℕ}).total_cancelled
      + (run init more_calls).total_enqueued
      + reinsertions init more_calls
accounted-run_example = accounted-run init more_calls

three_jobs-three : length three_jobs.heap ≤ 3
unfolding run apply enqueue cancel sorted_heap sort insert item_lt init Dict.put Dict.get Dict.has
three_jobs-three = omega arith

three_jobs-live : Dict.contains three_jobs.cancelled 3 ≡ false
unfolding run apply enqueue cancel sorted_heap sort insert item_lt init Dict.put Dict.get Dict.has
    Dict.add Dict.contains
three_jobs-live = refl

drain_each_example :
    count_if (has_id 3) (drain 3 (float 5) three_jobs) ≡ count_if (has_id 3) three_jobs.heap
drain_each_example = drain_each 3 3 (float 5) three_jobs three_jobs-three three_jobs-live

three_jobs-pending : Dict.has three_jobs.pending 2 ≡ true
unfolding run apply enqueue cancel init Dict.put Dict.get Dict.has
three_jobs-pending = refl

update_priority_repeats_example :
    ((update_priority three_jobs 2 (float 5)).1 ≡ true)
    × (count_if
          (has_id 2)
          (drain (depth three_jobs + 1) (float 5) (update_priority three_jobs 2 (float 5)).0)
        ≡ count_if (has_id 2) three_jobs.heap + 1)
update_priority_repeats_example =
    update_priority_repeats 2 (float 5) (float 5) three_jobs three_jobs-pending

no_waits : length (init {F = ℤ} {P = ℕ}).wait_times ≤ 10000
unfolding init
no_waits = omega arith

run-waits_example : length (run init (dequeues (float 3) ∷ calls)).wait_times ≤ 10000
run-waits_example = run-waits init (dequeues (float 3) ∷ calls) no_waits
