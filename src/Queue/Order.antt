-- ===== src/Queue/Order.antt =====
-- python/scheduler/priority_queue.py: the heap and the order in which items leave it.
use mathlib.Core.Path.{subst}
use mathlib.Core.Option.{some-injective}
use ai_infrastructure_platfo.Prelude.{
  ==_iff, ℕ, zero, suc, ◌≡◌, refl, ◌≤◌, ◌<◌, inl, inr, Bool, true, false, not, ◌&&◌, some, List, [],
  ◌∷◌, arith, ◌==◌, length, Bool-cases, Option-cases, nat_eq,
}
use ai_infrastructure_platfo.Prelude.Counts.{count_if, NoneOf, NoneOf-imp}
use ai_infrastructure_platfo.Floats.{Floats, FloatOrder}
use ai_infrastructure_platfo.Dict
use ai_infrastructure_platfo.Dict.{contains-discard}
use ai_infrastructure_platfo.Heapq.{Heapq, IsHeap}
use ai_infrastructure_platfo.Queue.Basic.{
  PrioritizedItem, PriorityQueue, item_lt, item_of, enqueue, cancel, update_priority, reinsert,
  skip, deliver, pop_live, next_item,
}
use ai_infrastructure_platfo.Queue.Runs.{Call, enqueues, cancels, updates, dequeues, apply, run}

-- Whether an item has the request id `k`, and whether a set of cancelled ids leaves it alone.
abbrev pub has_id : {F P : Type 0} → ℕ → PrioritizedItem F P → Bool
has_id k y = y.request_id == k

abbrev pub is_live : {F P : Type 0} → List ℕ → PrioritizedItem F P → Bool
is_live cancelled y = not (Dict.contains cancelled y.request_id)

-- No two items of the heap have one request id.
abbrev pub Distinct : {F P : Type 0} → List (PrioritizedItem F P) → Type 0
Distinct h = (k : ℕ) → count_if (has_id k) h ≤ 1

-- Discarding an id that no item has leaves the live items as they were.
count_if-discard :
    {F P : Type 0} (p : PrioritizedItem F P → Bool) (cancelled : List ℕ) (k : ℕ)
    (h : List (PrioritizedItem F P))
    → NoneOf (has_id k) h
    → count_if (λ y. p y && is_live (Dict.discard cancelled k) y) h
      ≡ count_if (λ y. p y && is_live cancelled y) h
count_if-discard p cancelled k [] n = refl
count_if-discard p cancelled k (y ∷ h) n =
    ground (arith, contains-discard cancelled k y.request_id, count_if-discard p cancelled k h)

module _ {F P : Type 0} ⦃fl : Floats F⦄ ⦃hq : Heapq (item_lt {F = F} {P = P})⦄ where
  pop_live-IsHeap :
      (fuel : ℕ) (now : F) (q : PriorityQueue F P)
      → IsHeap item_lt q.heap
      → IsHeap item_lt (pop_live fuel now q).1.heap
  unfolding pop_live skip deliver
  pop_live-IsHeap zero now q h = h
  pop_live-IsHeap (suc fuel) now q h = elim (Option-cases (hq.heappop q.heap)) [
    | inl e ↦ rw (e, pop_live) h
    | inr ((item, rest), e) ↦
        let kept = hq.pop_heap q.heap item rest h e in
        elim (Bool-cases (Dict.contains q.cancelled item.request_id)) [
          | inl c ↦ rw (e, c, pop_live) (pop_live-IsHeap fuel now (skip q item rest) kept)
          | inr c ↦ rw (e, c, pop_live) kept
        ]
  ]

  apply-IsHeap :
      (q : PriorityQueue F P) (c : Call F P)
      → IsHeap item_lt q.heap
      → IsHeap item_lt (apply q c).heap
  unfolding apply enqueue cancel update_priority reinsert next_item
  apply-IsHeap q (enqueues now request_id priority payload) h =
      hq.push_heap q.heap (item_of priority now request_id payload) h
  apply-IsHeap q (cancels request_id) h = elim (Bool-cases (Dict.has q.pending request_id)) [
    | inl e ↦ rw (e, apply, cancel) h
    | inr e ↦ rw (e, apply, cancel) h
  ]
  apply-IsHeap q (updates request_id new_priority) h =
      elim (Option-cases (Dict.get q.pending request_id)) [
        | inl e ↦ rw (e, apply, update_priority) h
        | inr (item, e) ↦
            rw (e, apply, update_priority)
              (hq.push_heap q.heap (item_of new_priority item.enqueue_time request_id item.payload)
                h)
      ]
  apply-IsHeap q (dequeues now) h = pop_live-IsHeap (length q.heap) now q h

  -- Every history of calls keeps the heap invariant.
  pub run-IsHeap :
      (q : PriorityQueue F P) (cs : List (Call F P))
      → IsHeap item_lt q.heap
      → IsHeap item_lt (run q cs).heap
  unfolding run
  run-IsHeap q [] h = h
  run-IsHeap q (c ∷ cs) h = run-IsHeap (apply q c) cs (apply-IsHeap q c h)

  -- What is left once an item with a distinct id is popped.
  popped-Distinct :
      (h r : List (PrioritizedItem F P)) (x : PrioritizedItem F P)
      → hq.heappop h ≡ some (x, r)
      → Distinct h
      → Distinct r × NoneOf (has_id x.request_id) r
  popped-Distinct h r x e d = (
    (λ k. omega (arith, d k, hq.pop_items h x r e (has_id k))),
    ground (arith, d x.request_id, hq.pop_items h x r e (has_id x.request_id)),
  )

  abbrev Least : PriorityQueue F P → PrioritizedItem F P → Type 0
  Least q item =
      NoneOf (λ y. item_lt y item && is_live q.cancelled y) q.heap
      × (Dict.contains q.cancelled item.request_id ≡ false)
      × (0 < count_if (has_id item.request_id) q.heap)

  Least-skip :
      (q : PriorityQueue F P) (x item : PrioritizedItem F P) (rest : List (PrioritizedItem F P))
      → hq.heappop q.heap ≡ some (x, rest)
      → Dict.contains q.cancelled x.request_id ≡ true
      → Distinct q.heap
      → Least (skip q x rest) item
      → Least q item
  unfolding skip
  Least-skip q x item rest e c d (least, live, found) =
      let gone = (popped-Distinct q.heap rest x e d).1 in
      let same = count_if-discard (λ y. item_lt y item) q.cancelled x.request_id rest gone in
      let split = hq.pop_items q.heap x rest e (λ y. item_lt y item && is_live q.cancelled y) in
      let held = hq.pop_items q.heap x rest e (has_id item.request_id) in
      let discarded = contains-discard q.cancelled x.request_id item.request_id in
      let other_id : Dict.contains q.cancelled item.request_id ≡ false =
        elim (Bool-cases (x.request_id == item.request_id)) [
          | inl e ↦
              let none_left : NoneOf (has_id item.request_id) rest =
                subst (λ k. NoneOf (has_id k) rest) ((==_iff _ _).0 e) gone in
              absurd (omega arith)
          | inr e ↦ ground arith
        ] in
      (ground arith, other_id, ground arith)

  module _ (fo : FloatOrder fl) where
    item_lt_irrefl : (x : PrioritizedItem F P) → item_lt x x ≡ false
    unfolding item_lt
    item_lt_irrefl x = ground (arith, fo.lt_irrefl x.enqueue_time, fo.lt_irrefl x.priority)

    Least-front :
        (q : PriorityQueue F P) (x : PrioritizedItem F P) (rest : List (PrioritizedItem F P))
        → hq.heappop q.heap ≡ some (x, rest)
        → IsHeap item_lt q.heap
        → Dict.contains q.cancelled x.request_id ≡ false
        → Least q x
    Least-front q x rest e h c =
        let smaller : NoneOf (λ y. item_lt y x && is_live q.cancelled y) rest =
          NoneOf-imp (λ y. item_lt y x) (λ y. item_lt y x && is_live q.cancelled y) rest
            (λ y. ground arith) (hq.pop_least q.heap x rest h e) in
        let itself = item_lt_irrefl x in
        let split = hq.pop_items q.heap x rest e (λ y. item_lt y x && is_live q.cancelled y) in
        let held = hq.pop_items q.heap x rest e (has_id x.request_id) in
        (ground arith, c, ground arith)

    pop_live-Least :
        (fuel : ℕ) (now : F) (q : PriorityQueue F P) (item : PrioritizedItem F P)
        → IsHeap item_lt q.heap
        → Distinct q.heap
        → (pop_live fuel now q).0 ≡ some item
        → Least q item
    unfolding pop_live skip
    pop_live-Least zero now q item h d f = cc
    pop_live-Least (suc fuel) now q item h d f = elim (Option-cases (hq.heappop q.heap)) [
      | inl e ↦ ground arith
      | inr ((x, rest), e) ↦ elim (Bool-cases (Dict.contains q.cancelled x.request_id)) [
        | inl c ↦ Least-skip q x item rest e c d (
            pop_live-Least fuel now (skip q x rest) item (hq.pop_heap q.heap x rest h e)
              (popped-Distinct q.heap rest x e d).0 (rw (e, c, pop_live) at f))
        | inr c ↦
            subst (Least q) (some-injective _ _ (rw (e, c, pop_live) at f))
              (Least-front q x rest e h c)
      ]
    ]

    -- Shortest job first: of a heap with distinct ids, the item that is taken is one of the heap's,
    -- was not cancelled, and no item that was not cancelled comes before it.
    pub next_item-Least :
        (now : F) (q : PriorityQueue F P) (item : PrioritizedItem F P)
        → IsHeap item_lt q.heap
        → Distinct q.heap
        → (next_item now q).0 ≡ some item
        → NoneOf (λ y. item_lt y item && is_live q.cancelled y) q.heap
          × (Dict.contains q.cancelled item.request_id ≡ false)
          × (0 < count_if (has_id item.request_id) q.heap)
    unfolding next_item
    next_item-Least now q item = pop_live-Least (length q.heap) now q item
