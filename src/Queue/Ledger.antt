-- ===== src/Queue/Ledger.antt =====
-- python/scheduler/priority_queue.py: the counters, and the number of items in the heap.
use ai_infrastructure_platfo.Prelude.{
  ℕ, zero, suc, ◌+◌, ◌≡◌, refl, ◌≤◌, inl, inr, none, some, List, [], ◌∷◌, arith, length,
  length-eq-zero, nat_eq, ◌≤◌, none, Option-cases, if◌then◌else◌,
}
use ai_infrastructure_platfo.Prelude.Counts.{length-SameItems}
use ai_infrastructure_platfo.Floats.{Floats}
use ai_infrastructure_platfo.Dict
use ai_infrastructure_platfo.Heapq.{Heapq}
use ai_infrastructure_platfo.Queue.Basic.{
  PrioritizedItem, PriorityQueue, item_of, item_lt, depth, next_item, depth, enqueue, cancel,
  update_priority, reinsert, skip, deliver, pop_live, next_item,
}
use ai_infrastructure_platfo.Queue.Runs.{Call, enqueues, cancels, updates, dequeues, apply, run}

module _ {F P : Type 0} ⦃fl : Floats F⦄ ⦃hq : Heapq (item_lt {F = F} {P = P})⦄ where
  -- What has left the heap and what is in it.
  abbrev accounted : PriorityQueue F P → ℕ
  accounted q = length q.heap + q.total_dequeued + q.total_cancelled

  pub length-heappush :
      (h : List (PrioritizedItem F P)) (x : PrioritizedItem F P)
      → length (hq.heappush h x) ≡ suc (length h)
  length-heappush h x = length-SameItems _ (x ∷ h) (hq.push_items h x)

  pub length-heappop :
      (h : List (PrioritizedItem F P)) (x : PrioritizedItem F P) (r : List (PrioritizedItem F P))
      → hq.heappop h ≡ some (x, r)
      → length h ≡ suc (length r)
  length-heappop h x r e = length-SameItems h (x ∷ r) (hq.pop_items h x r e)

  pop_live-accounted :
      (fuel : ℕ) (now : F) (q : PriorityQueue F P)
      → (accounted (pop_live fuel now q).1 ≡ accounted q)
        × ((pop_live fuel now q).1.total_enqueued ≡ q.total_enqueued)
  unfolding pop_live skip deliver
  pop_live-accounted zero now q = (refl, refl)
  pop_live-accounted (suc fuel) now q = elim (Option-cases (hq.heappop q.heap)) [
    | inl e ↦ rw (e, pop_live) (refl, refl)
    | inr ((item, rest), e) ↦
        ground
          (arith, length-heappop q.heap item rest e, pop_live-accounted fuel now (skip q item rest))
  ]

  -- How many calls of `update_priority` put a second item into the heap.
  abbrev pub reinsertions : PriorityQueue F P → List (Call F P) → ℕ
  reinsertions q [] = 0
  reinsertions q (updates request_id new_priority ∷ cs) =
      (if (update_priority q request_id new_priority).1 then 1 else 0)
      + reinsertions (apply q (updates request_id new_priority)) cs
  reinsertions q (c ∷ cs) = reinsertions (apply q c) cs

  apply-accounted :
      (q : PriorityQueue F P) (c : Call F P)
      → accounted (apply q c) + q.total_enqueued
        ≡ accounted q + (apply q c).total_enqueued + reinsertions q (c ∷ [])
  unfolding apply enqueue cancel update_priority reinsert next_item
  apply-accounted q (enqueues now request_id priority payload) =
      omega (arith, length-heappush q.heap (item_of priority now request_id payload))
  apply-accounted q (cancels request_id) = ground arith
  apply-accounted q (updates request_id new_priority) =
      elim (Option-cases (Dict.get q.pending request_id)) [
        | inl e ↦ rw (e, apply, update_priority) (omega arith)
        | inr (item, e) ↦
            let pushed =
              length-heappush q.heap
                (item_of new_priority item.enqueue_time request_id item.payload) in
            rw (e, apply, update_priority) (omega arith)
      ]
  apply-accounted q (dequeues now) = omega (arith, pop_live-accounted (length q.heap) now q)

  reinsertions-cons :
      (q : PriorityQueue F P) (c : Call F P) (cs : List (Call F P))
      → reinsertions q (c ∷ cs) ≡ reinsertions q (c ∷ []) + reinsertions (apply q c) cs
  reinsertions-cons q (enqueues now request_id priority payload) cs = omega arith
  reinsertions-cons q (cancels request_id) cs = omega arith
  reinsertions-cons q (updates request_id new_priority) cs = omega arith
  reinsertions-cons q (dequeues now) cs = omega arith

  -- Over any history of calls, what was enqueued or put in a second time by `update_priority` is
  -- exactly what is in the heap, was dequeued or was dropped as cancelled.
  pub accounted-run :
      (q : PriorityQueue F P) (cs : List (Call F P))
      → depth (run q cs) + (run q cs).total_dequeued + (run q cs).total_cancelled + q.total_enqueued
        ≡ depth q
          + q.total_dequeued
          + q.total_cancelled
          + (run q cs).total_enqueued
          + reinsertions q cs
  unfolding run depth
  accounted-run q [] = omega arith
  accounted-run q (c ∷ cs) =
      omega (arith, accounted-run (apply q c) cs, apply-accounted q c, reinsertions-cons q c cs)

  pub heappop-eq-none : (h : List (PrioritizedItem F P)) → hq.heappop h ≡ none → h ≡ []
  heappop-eq-none [] e = refl
  heappop-eq-none (x ∷ h) e = cc (hq.pop_ready x h).2

  -- The inner loop has fuel enough: it reports nothing only when it has emptied the heap.
  pop_live_empties :
      (fuel : ℕ) (now : F) (q : PriorityQueue F P)
      → length q.heap ≤ fuel
      → (pop_live fuel now q).0 ≡ none
      → (pop_live fuel now q).1.heap ≡ []
  unfolding pop_live skip
  pop_live_empties zero now q h e = length-eq-zero q.heap (omega arith)
  pop_live_empties (suc fuel) now q h e = elim (Option-cases (hq.heappop q.heap)) [
    | inl e' ↦ rw (e', pop_live) (heappop-eq-none q.heap e')
    | inr ((item, rest), e') ↦
        ground
          (arith, length-heappop q.heap item rest e', pop_live_empties fuel now (skip q item rest))
  ]

  next_item_empties :
      (now : F) (q : PriorityQueue F P) → (next_item now q).0 ≡ none → (next_item now q).1.heap ≡ []
  unfolding next_item
  next_item_empties now q = pop_live_empties (length q.heap) now q (omega arith)
