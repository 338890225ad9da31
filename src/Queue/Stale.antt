-- ===== src/Queue/Stale.antt =====
-- python/scheduler/priority_queue.py: how often a request is given out, and the items that
-- `update_priority` leaves behind.
use ai_infrastructure_platfo.Prelude.{
  ℕ, zero, suc, ◌+◌, ◌≡◌, refl, ap, sym, ◌≤◌, inl, inr, true, false, Option, some, none, List, [],
  ◌∷◌, arith, ◌==◌, length, length-eq-zero, Bool-cases, Option-cases, nat_eq, if◌then◌else◌,
}
use ai_infrastructure_platfo.Prelude.Counts.{count_if, NoneOf}
use ai_infrastructure_platfo.Floats.{Floats}
use ai_infrastructure_platfo.Dict
use ai_infrastructure_platfo.Dict.{contains-add, contains-discard, get-has}
use ai_infrastructure_platfo.Heapq.{Heapq}
use ai_infrastructure_platfo.Queue.Basic.{
  PrioritizedItem, PriorityQueue, item_lt, item_of, depth, update_priority, reinsert, skip, deliver,
  pop_live, next_item,
}
use ai_infrastructure_platfo.Queue.Ledger.{length-heappush, length-heappop, heappop-eq-none}
use ai_infrastructure_platfo.Queue.Order.{has_id}

module _ {F P : Type 0} ⦃fl : Floats F⦄ ⦃hq : Heapq (item_lt {F = F} {P = P})⦄ where
  -- The items that calls of `dequeue`, one after another, give out while the heap has any.
  unfoldable pub drain : ℕ → F → PriorityQueue F P → List (PrioritizedItem F P)
  drain zero now q = []
  drain (suc fuel) now q =
      let later = drain fuel now (next_item now q).1 in
      elim (next_item now q).0 [ none ↦ [] | some item ↦ item ∷ later ]

  -- What one `dequeue` does to the items of a request that is not cancelled.
  abbrev Gives : ℕ → PriorityQueue F P → Option (PrioritizedItem F P) × PriorityQueue F P → Type 0
  Gives k q (none, q') = NoneOf (has_id k) q.heap
  Gives k q (some item, q') =
      (count_if (has_id k) q.heap ≡ (if has_id k item then 1 else 0) + count_if (has_id k) q'.heap)
      × (Dict.contains q'.cancelled k ≡ false)
      × (suc (length q'.heap) ≤ length q.heap)

  Gives-skip :
      (k : ℕ) (q : PriorityQueue F P) (x : PrioritizedItem F P) (rest : List (PrioritizedItem F P))
      (r : Option (PrioritizedItem F P) × PriorityQueue F P)
      → hq.heappop q.heap ≡ some (x, rest)
      → x.request_id == k ≡ false
      → Gives k (skip q x rest) r
      → Gives k q r
  unfolding skip
  Gives-skip k q x rest (none, q') e n g = ground (arith, hq.pop_items q.heap x rest e (has_id k))
  Gives-skip k q x rest (some item, q') e n g =
      let held = hq.pop_items q.heap x rest e (has_id k) in
      (ground arith, g.1, omega (arith, length-heappop q.heap x rest e))

  pop_live-Gives :
      (fuel k : ℕ) (now : F) (q : PriorityQueue F P)
      → length q.heap ≤ fuel
      → Dict.contains q.cancelled k ≡ false
      → Gives k q (pop_live fuel now q)
  unfolding pop_live skip deliver
  pop_live-Gives zero k now q h live =
      ap (count_if (has_id k)) (length-eq-zero q.heap (omega arith))
  pop_live-Gives (suc fuel) k now q h live = elim (Option-cases (hq.heappop q.heap)) [
    | inl e ↦ rw (e, pop_live) (ap (count_if (has_id k)) (heappop-eq-none q.heap e))
    | inr ((x, rest), e) ↦
        let shorter = length-heappop q.heap x rest e in
        elim (Bool-cases (Dict.contains q.cancelled x.request_id)) [
          | inl c ↦
              let other : x.request_id == k ≡ false = ground arith in
              let still = contains-discard q.cancelled x.request_id k in
              rw (e, c, pop_live)
                (Gives-skip k q x rest _ e other
                  (pop_live-Gives fuel k now (skip q x rest) (omega arith) (ground arith)))
          | inr c ↦ rw (e, c, pop_live) (hq.pop_items q.heap x rest e (has_id k), live, omega arith)
        ]
  ]

  drain-some :
      (fuel : ℕ) (now : F) (q q' : PriorityQueue F P) (item : PrioritizedItem F P)
      → next_item now q ≡ (some item, q')
      → drain (suc fuel) now q ≡ item ∷ drain fuel now q'
  unfolding drain
  drain-some fuel now q q' item e =
      ap {B = List (PrioritizedItem F P)}
        (λ (t : Option (PrioritizedItem F P) × PriorityQueue F P). elim t.0 [
          | none ↦ []
          | some x ↦ x ∷ drain fuel now t.1
        ])
        e

  drain-Gives :
      (fuel k : ℕ) (now : F) (q : PriorityQueue F P)
      (r : Option (PrioritizedItem F P) × PriorityQueue F P)
      → next_item now q ≡ r
      → length q.heap ≤ suc fuel
      → Gives k q r
      → ((q' : PriorityQueue F P)
          → length q'.heap ≤ fuel
          → Dict.contains q'.cancelled k ≡ false
          → count_if (has_id k) (drain fuel now q') ≡ count_if (has_id k) q'.heap)
      → count_if (has_id k) (drain (suc fuel) now q) ≡ count_if (has_id k) q.heap
  unfolding drain
  drain-Gives fuel k now q (none, q') e h g later = rw (e, drain) (omega arith)
  drain-Gives fuel k now q (some item, q') e h g later =
      rw (drain-some fuel now q q' item e) (ground (arith, later q' (omega arith) g.1))

  -- Calls of `dequeue` until the heap is empty give each request that is not cancelled out, as often
  -- as the heap holds it.
  pub drain_each :
      (fuel k : ℕ) (now : F) (q : PriorityQueue F P)
      → length q.heap ≤ fuel
      → Dict.contains q.cancelled k ≡ false
      → count_if (has_id k) (drain fuel now q) ≡ count_if (has_id k) q.heap
  unfolding drain next_item
  drain_each zero k now q h live =
      sym (ap (count_if (has_id k)) (length-eq-zero q.heap (omega arith)))
  drain_each (suc fuel) k now q h live =
      drain-Gives fuel k now q (next_item now q) refl h
        (pop_live-Gives (length q.heap) k now q (omega arith) live) (λ q'. drain_each fuel k now q')

  -- `update_priority` of a pending request answers `True`, leaves the old item in the heap beside
  -- the new one and takes the mark of a cancelled request away: draining the queue gives the request
  -- out once more often than the heap held it before.
  pub update_priority_repeats :
      (k : ℕ) (now new_priority : F) (q : PriorityQueue F P)
      → Dict.has q.pending k ≡ true
      → ((update_priority q k new_priority).1 ≡ true)
        × (count_if (has_id k) (drain (depth q + 1) now (update_priority q k new_priority).0)
            ≡ count_if (has_id k) q.heap + 1)
  unfolding update_priority reinsert depth
  update_priority_repeats k now new_priority q p = elim (get-has q.pending k) [
    | inr (absent, _) ↦ cc
    | inl (_, (item, e)) ↦
        let again = item_of new_priority item.enqueue_time k item.payload in
        let q' = reinsert q k new_priority item in
        let revived = contains-discard (Dict.add q.cancelled k) k k in
        let given =
          drain_each (length q.heap + 1) k now q' (omega (arith, length-heappush q.heap again))
            (ground arith) in
        rw (e, update_priority) (refl, ground (arith, hq.push_items q.heap again (has_id k)))
  ]
