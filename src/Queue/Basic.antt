-- ===== src/Queue/Basic.antt =====
-- python/scheduler/priority_queue.py: the items, the queue's state and its methods.
use ai_infrastructure_platfo.Prelude.{
  ℕ, zero, suc, ◌+◌, ◌-◌, Bool, true, false, Option, none, some, List, [], ◌∷◌, ◌++◌, length, drop,
  ltb, nat_eq, if◌then◌else◌,
}
use ai_infrastructure_platfo.Floats.{Floats, mean, maximum}
use ai_infrastructure_platfo.Dict
use ai_infrastructure_platfo.Heapq.{Heapq}

pub record PrioritizedItem (F P : Type 0) : Type 0 where
  pub priority : F
  pub enqueue_time : F
  pub request_id : ℕ
  pub payload : P

-- `PrioritizedItem(priority=..., enqueue_time=..., request_id=..., payload=...)`
abbrev pub item_of : {F P : Type 0} → F → F → ℕ → P → PrioritizedItem F P
item_of priority enqueue_time request_id payload = record {
  priority = priority;
  enqueue_time = enqueue_time;
  request_id = request_id;
  payload = payload;
}

pub record QueueStats (F : Type 0) : Type 0 where
  pub depth : ℕ
  pub total_enqueued : ℕ
  pub total_dequeued : ℕ
  pub total_cancelled : ℕ
  pub avg_wait_ms : F
  pub max_wait_ms : F

pub record PriorityQueue (F P : Type 0) : Type 0 where
  pub heap : List (PrioritizedItem F P)
  pub cancelled : List ℕ
  pub pending : List (ℕ × PrioritizedItem F P)
  pub total_enqueued : ℕ
  pub total_dequeued : ℕ
  pub total_cancelled : ℕ
  pub wait_times : List F

-- `PriorityQueue()`
unfoldable pub init : {F P : Type 0} → PriorityQueue F P
init = record {
  heap = [];
  cancelled = [];
  pending = [];
  total_enqueued = 0;
  total_dequeued = 0;
  total_cancelled = 0;
  wait_times = [];
}

-- The `depth` property.
unfoldable pub depth : {F P : Type 0} → PriorityQueue F P → ℕ
depth q = length q.heap

unfoldable pub cancel : {F P : Type 0} → PriorityQueue F P → ℕ → PriorityQueue F P × Bool
cancel q request_id =
    if Dict.has q.pending request_id
    then (record q { cancelled = Dict.add q.cancelled request_id }, true)
    else (q, false)

-- The waits of the last requests: past 10000 only the last 5000 are kept.
unfoldable pub trim : {F : Type 0} → List F → List F
trim waits = if ltb 10000 (length waits) then drop (length waits - 5000) waits else waits

module _ {F P : Type 0} ⦃fl : Floats F⦄ where
  -- `a < b` of the order that the dataclass derives: by priority, then by time of enqueuing.
  unfoldable pub item_lt : PrioritizedItem F P → PrioritizedItem F P → Bool
  item_lt a b =
      if fl.eq a.priority b.priority
      then fl.lt a.enqueue_time b.enqueue_time
      else fl.lt a.priority b.priority

  -- What the inner loop of `dequeue` does with a popped item that was cancelled...
  unfoldable pub skip :
      PriorityQueue F P → PrioritizedItem F P → List (PrioritizedItem F P) → PriorityQueue F P
  skip q item rest = record q {
    heap = rest;
    cancelled = Dict.discard q.cancelled item.request_id;
    pending = Dict.remove q.pending item.request_id;
    total_cancelled = q.total_cancelled + 1;
  }

  -- ... and with one that was not, at the time `now`.
  unfoldable pub deliver :
      F → PriorityQueue F P → PrioritizedItem F P → List (PrioritizedItem F P) → PriorityQueue F P
  unfolding trim
  deliver now q item rest = record q {
    heap = rest;
    pending = Dict.remove q.pending item.request_id;
    total_dequeued = q.total_dequeued + 1;
    wait_times = trim (q.wait_times ++ fl.mul (fl.sub now item.enqueue_time) (fl.lit 1000 0) ∷ []);
  }

  unfoldable pub stats : PriorityQueue F P → QueueStats F
  unfolding mean maximum
  stats q = record {
    depth = length q.heap;
    total_enqueued = q.total_enqueued;
    total_dequeued = q.total_dequeued;
    total_cancelled = q.total_cancelled;
    avg_wait_ms = mean q.wait_times;
    max_wait_ms = maximum q.wait_times;
  }

module _ {F P : Type 0} ⦃fl : Floats F⦄ ⦃hq : Heapq (item_lt {F = F} {P = P})⦄ where
  unfoldable pub enqueue : F → PriorityQueue F P → ℕ → F → P → PriorityQueue F P
  enqueue now q request_id priority payload =
      let item = item_of priority now request_id payload in
      record q {
        heap = hq.heappush q.heap item;
        pending = Dict.put q.pending request_id item;
        total_enqueued = q.total_enqueued + 1;
      }

  -- The lines after the `None` test of `update_priority`.
  unfoldable pub reinsert : PriorityQueue F P → ℕ → F → PrioritizedItem F P → PriorityQueue F P
  reinsert q request_id new_priority item =
      let new_item = item_of new_priority item.enqueue_time request_id item.payload in
      record q {
        heap = hq.heappush q.heap new_item;
        pending = Dict.put q.pending request_id new_item;
        cancelled = Dict.discard (Dict.add q.cancelled request_id) request_id;
      }

  unfoldable pub update_priority : PriorityQueue F P → ℕ → F → PriorityQueue F P × Bool
  unfolding reinsert
  update_priority q request_id new_priority = elim (Dict.get q.pending request_id) [
    | none ↦ (q, false)
    | some item ↦ (reinsert q request_id new_priority item, true)
  ]

  -- The inner loop of `dequeue`, on as much fuel as the heap has items: every round pops one.
  unfoldable pub pop_live :
      ℕ → F → PriorityQueue F P → Option (PrioritizedItem F P) × PriorityQueue F P
  unfolding skip deliver
  pop_live zero now q = (none, q)
  pop_live (suc fuel) now q = elim (hq.heappop q.heap) [
    | none ↦ (none, q)
    | some (item, rest) ↦ elim (Dict.contains q.cancelled item.request_id) [
      | true ↦ pop_live fuel now (skip q item rest)
      | false ↦ (some item, deliver now q item rest)
    ]
  ]

  unfoldable pub next_item :
      F → PriorityQueue F P → Option (PrioritizedItem F P) × PriorityQueue F P
  unfolding pop_live
  next_item now q = pop_live (length q.heap) now q
