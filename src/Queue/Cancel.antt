-- ===== src/Queue/Cancel.antt =====
-- python/scheduler/priority_queue.py: cancelled requests.
use mathlib.Core.Path.{subst}
use mathlib.Core.Option.{some-injective}
use ai_infrastructure_platfo.Prelude.{
  ℕ, zero, suc, ◌≡◌, ◌≢◌, ◌≤◌, inl, inr, true, false, some, List, [], ◌∷◌, arith, length,
  Bool-cases, Option-cases, nat_eq, if◌then◌else◌,
}
use ai_infrastructure_platfo.Prelude.Counts.{count_if, All}
use ai_infrastructure_platfo.Floats.{Floats}
use ai_infrastructure_platfo.Dict
use ai_infrastructure_platfo.Dict.{contains-add, contains-discard}
use ai_infrastructure_platfo.Heapq.{Heapq}
use ai_infrastructure_platfo.Queue.Basic.{
  PrioritizedItem, PriorityQueue, item_lt, item_of, enqueue, cancel, update_priority, reinsert,
  skip, deliver, pop_live, next_item,
}
use ai_infrastructure_platfo.Queue.Runs.{Call, enqueues, cancels, updates, dequeues, apply, run}
use ai_infrastructure_platfo.Queue.Order.{has_id}

-- A request that will not be delivered: the heap has at most one item for it, and none unless its
-- id is marked as cancelled.
abbrev Doomed : {F P : Type 0} → ℕ → PriorityQueue F P → Type 0
Doomed k q = count_if (has_id k) q.heap ≤ (if Dict.contains q.cancelled k then 1 else 0)

-- A call that does not put the request `k` into the queue.
abbrev Avoids : {F P : Type 0} → ℕ → Call F P → Type 0
Avoids k (enqueues now request_id priority payload) = request_id ≢ k
Avoids k (updates request_id new_priority) = request_id ≢ k
Avoids k (cancels request_id) = Unit
Avoids k (dequeues now) = Unit

module _ {F P : Type 0} ⦃fl : Floats F⦄ ⦃hq : Heapq (item_lt {F = F} {P = P})⦄ where
  skip-Doomed :
      (k : ℕ) (q : PriorityQueue F P) (x : PrioritizedItem F P) (rest : List (PrioritizedItem F P))
      → hq.heappop q.heap ≡ some (x, rest)
      → Doomed k q
      → Doomed k (skip q x rest)
  unfolding skip
  skip-Doomed k q x rest e d =
      ground (
        arith,
        hq.pop_items q.heap x rest e (has_id k),
        contains-discard q.cancelled x.request_id k,
      )

  deliver-Doomed :
      (k : ℕ) (now : F) (q : PriorityQueue F P) (x : PrioritizedItem F P)
      (rest : List (PrioritizedItem F P))
      → hq.heappop q.heap ≡ some (x, rest)
      → Dict.contains q.cancelled x.request_id ≡ false
      → Doomed k q
      → Doomed k (deliver now q x rest) × (x.request_id ≢ k)
  unfolding deliver
  deliver-Doomed k now q x rest e c d = (
    omega (arith, hq.pop_items q.heap x rest e (has_id k)),
    λ same. ground (arith, hq.pop_items q.heap x rest e (has_id k)),
  )

  pop_live-Doomed :
      (fuel k : ℕ) (now : F) (q : PriorityQueue F P)
      → Doomed k q
      → Doomed k (pop_live fuel now q).1
        × ((item : PrioritizedItem F P) → (pop_live fuel now q).0 ≡ some item → item.request_id ≢ k)
  unfolding pop_live
  pop_live-Doomed zero k now q d = (d, λ item e. cc)
  pop_live-Doomed (suc fuel) k now q d = elim (Option-cases (hq.heappop q.heap)) [
    | inl e ↦ rw (e, pop_live) (d, λ item f. cc)
    | inr ((x, rest), e) ↦ elim (Bool-cases (Dict.contains q.cancelled x.request_id)) [
      | inl c ↦
          rw (e, c, pop_live)
            (pop_live-Doomed fuel k now (skip q x rest) (skip-Doomed k q x rest e d))
      | inr c ↦
          let out = deliver-Doomed k now q x rest e c d in
          rw (e, c, pop_live)
            (
              out.0,
              λ item f.
                  subst (λ (y : PrioritizedItem F P). y.request_id ≢ k) (some-injective _ _ f)
                    out.1,
            )
    ]
  ]

  apply-Doomed :
      (k : ℕ) (q : PriorityQueue F P) (c : Call F P)
      → Avoids k c
      → Doomed k q
      → Doomed k (apply q c)
  unfolding apply enqueue cancel update_priority reinsert next_item
  apply-Doomed k q (enqueues now request_id priority payload) a d =
      let item = item_of priority now request_id payload in
      ground (arith, hq.push_items q.heap item (has_id k))
  apply-Doomed k q (cancels request_id) a d = ground (arith, contains-add q.cancelled request_id k)
  apply-Doomed k q (updates request_id new_priority) a d =
      elim (Option-cases (Dict.get q.pending request_id)) [
        | inl e ↦ rw (e, apply, update_priority) d
        | inr (item, e) ↦
            let again = item_of new_priority item.enqueue_time request_id item.payload in
            rw (e, apply, update_priority)
              (ground (
                arith,
                hq.push_items q.heap again (has_id k),
                contains-discard (Dict.add q.cancelled request_id) request_id k,
                contains-add q.cancelled request_id k,
              ))
      ]
  apply-Doomed k q (dequeues now) a d = (pop_live-Doomed (length q.heap) k now q d).0

  run-Doomed :
      (k : ℕ) (q : PriorityQueue F P) (cs : List (Call F P))
      → All (Avoids k) cs
      → Doomed k q
      → Doomed k (run q cs)
  unfolding run
  run-Doomed k q [] a d = d
  run-Doomed k q (c ∷ cs) a d = run-Doomed k (apply q c) cs a.1 (apply-Doomed k q c a.0 d)

  -- A request that is pending, with one item at most in the heap, is cancelled with the answer
  -- `True`, and after any calls that do not put it in again no `dequeue` gives it out.
  pub cancel_stays_out :
      (k : ℕ) (now : F) (q : PriorityQueue F P) (cs : List (Call F P)) (item : PrioritizedItem F P)
      → Dict.has q.pending k ≡ true
      → count_if (has_id k) q.heap ≤ 1
      → All (Avoids k) cs
      → (next_item now (run (cancel q k).0 cs)).0 ≡ some item
      → ((cancel q k).1 ≡ true) × (item.request_id ≢ k)
  unfolding next_item cancel
  cancel_stays_out k now q cs item p one a e =
      let start : Doomed k (cancel q k).0 = ground (arith, contains-add q.cancelled k k) in
      let after = run-Doomed k (cancel q k).0 cs a start in
      (ground arith, (pop_live-Doomed _ k now (run (cancel q k).0 cs) after).1 item e)
