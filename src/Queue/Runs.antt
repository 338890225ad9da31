-- ===== src/Queue/Runs.antt =====
-- python/scheduler/priority_queue.py: histories of calls, and `dequeue` with its waits.
use ai_infrastructure_platfo.Prelude.{
  ℕ, Bool, true, false, ◌&&◌, Option, none, some, List, [], ◌∷◌, if◌then◌else◌,
}
use ai_infrastructure_platfo.Floats.{Floats, fle, truthy}
use ai_infrastructure_platfo.Heapq.{Heapq}
use ai_infrastructure_platfo.Queue.Basic.{
  PrioritizedItem, PriorityQueue, item_lt, enqueue, cancel, update_priority, next_item,
}

-- A call of another task, with the times that it reads.
pub data Call (F P : Type 0) : Type 0 where
  enqueues : (now : F) (request_id : ℕ) (priority : F) (payload : P) → Call F P
  cancels : (request_id : ℕ) → Call F P
  updates : (request_id : ℕ) (new_priority : F) → Call F P
  dequeues : (now : F) → Call F P

-- One round of the outer loop of `dequeue`: the times that it reads, and, if it waits, the calls
-- that others make meanwhile and whether the wait timed out.
pub record Round (F P : Type 0) : Type 0 where
  pub popped_at : F
  pub checked_at : F
  pub remaining_at : F
  pub others : List (Call F P)
  pub expired : Bool

pub data Outcome (F P : Type 0) : Type 0 where
  delivered : PrioritizedItem F P → Outcome F P
  timed_out : Outcome F P
  waiting : Outcome F P

module _ {F : Type 0} ⦃fl : Floats F⦄ where
  -- `deadline and time.monotonic() >= deadline`, then `deadline - time.monotonic() <= 0`
  unfoldable pub is_past : Option F → F → F → Bool
  is_past none checked remaining = false
  is_past (some deadline) checked remaining =
      if truthy deadline && fle deadline checked
      then true
      else fle (fl.sub deadline remaining) (fl.lit 0 0)

  -- `await self._not_empty.wait()`, with a timeout if there is a deadline.
  unfoldable pub wait_expires : Option F → Bool → Bool
  wait_expires none expired = false
  wait_expires (some deadline) expired = expired

  -- `time.monotonic() + timeout if timeout else None`
  unfoldable pub deadline_of : F → Option F → Option F
  deadline_of now none = none
  deadline_of now (some timeout) = if truthy timeout then some (fl.add now timeout) else none

module _ {F P : Type 0} ⦃fl : Floats F⦄ ⦃hq : Heapq (item_lt {F = F} {P = P})⦄ where
  -- A `dequeues` that finds nothing leaves the queue waiting, with the lock given up.
  unfoldable pub apply : PriorityQueue F P → Call F P → PriorityQueue F P
  apply q (enqueues now request_id priority payload) = enqueue now q request_id priority payload
  apply q (cancels request_id) = (cancel q request_id).0
  apply q (updates request_id new_priority) = (update_priority q request_id new_priority).0
  apply q (dequeues now) = (next_item now q).1

  unfoldable pub run : PriorityQueue F P → List (Call F P) → PriorityQueue F P
  unfolding apply
  run q [] = q
  run q (c ∷ cs) = run (apply q c) cs

  unfoldable pub dequeue_from :
      Option F → PriorityQueue F P → List (Round F P) → Outcome F P × PriorityQueue F P
  unfolding run is_past wait_expires
  dequeue_from deadline q [] = (waiting, q)
  dequeue_from deadline q (r ∷ rs) =
      let (found, q') = next_item r.popped_at q in
      let later = dequeue_from deadline (run q' r.others) rs in
      elim found [
        | some item ↦ (delivered item, q')
        | none ↦
            if is_past deadline r.checked_at r.remaining_at
            then (timed_out, q')
            else if wait_expires deadline r.expired
            then (timed_out, run q' r.others)
            else later
      ]

  unfoldable pub dequeue :
      F → Option F → PriorityQueue F P → List (Round F P) → Outcome F P × PriorityQueue F P
  unfolding dequeue_from deadline_of
  dequeue now timeout q rounds = dequeue_from (deadline_of now timeout) q rounds
