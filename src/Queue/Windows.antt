-- ===== src/Queue/Windows.antt =====
-- python/scheduler/priority_queue.py: the kept waits, and the timeouts of `dequeue`.
use ai_infrastructure_platfo.Prelude.{
  ℕ, zero, suc, ◌-◌, ◌++◌, ap, ◌≡◌, ◌≢◌, refl, ◌≤◌, inl, inr, Bool, true, false, some, none, List,
  [], ◌∷◌, arith, length, length-append, length-drop, Bool-cases, Option-cases, nat_eq,
}
use ai_infrastructure_platfo.Floats.{Floats, truthy}
use ai_infrastructure_platfo.Dict
use ai_infrastructure_platfo.Heapq.{Heapq}
use ai_infrastructure_platfo.Queue.Basic.{
  PriorityQueue, item_lt, enqueue, cancel, update_priority, reinsert, trim, skip, deliver, pop_live,
  next_item,
}
use ai_infrastructure_platfo.Queue.Runs.{
  Call, Round, Outcome, delivered, timed_out, waiting, enqueues, cancels, updates, dequeues, apply,
  run, dequeue, dequeue_from, deadline_of, is_past, wait_expires,
}

length-trim : {F : Type 0} (ws : List F) → length ws ≤ 10001 → length (trim ws) ≤ 10000
unfolding trim
length-trim ws h = ground (arith, length-drop (length ws - 5000) ws)

module _ {F P : Type 0} ⦃fl : Floats F⦄ ⦃hq : Heapq (item_lt {F = F} {P = P})⦄ where
  pop_live-waits :
      (fuel : ℕ) (now : F) (q : PriorityQueue F P)
      → length q.wait_times ≤ 10000
      → length (pop_live fuel now q).1.wait_times ≤ 10000
  unfolding pop_live skip deliver
  pop_live-waits zero now q h = h
  pop_live-waits (suc fuel) now q h = elim (Option-cases (hq.heappop q.heap)) [
    | inl e ↦ rw (e, pop_live) h
    | inr ((item, rest), e) ↦
        let wait = fl.mul (fl.sub now item.enqueue_time) (fl.lit 1000 0) in
        let longer = length-append q.wait_times (wait ∷ []) in
        elim (Bool-cases (Dict.contains q.cancelled item.request_id)) [
          | inl c ↦ rw (e, c, pop_live) (pop_live-waits fuel now (skip q item rest) h)
          | inr c ↦ rw (e, c, pop_live) (length-trim (q.wait_times ++ wait ∷ []) (omega arith))
        ]
  ]

  apply-waits :
      (q : PriorityQueue F P) (c : Call F P)
      → length q.wait_times ≤ 10000
      → length (apply q c).wait_times ≤ 10000
  unfolding apply enqueue cancel update_priority reinsert next_item
  apply-waits q (enqueues now request_id priority payload) h = h
  apply-waits q (cancels request_id) h = ground arith
  apply-waits q (updates request_id new_priority) h =
      elim (Option-cases (Dict.get q.pending request_id)) [
        | inl e ↦ rw (e, apply, update_priority) h
        | inr (item, e) ↦ rw (e, apply, update_priority) h
      ]
  apply-waits q (dequeues now) h = pop_live-waits (length q.heap) now q h

  -- No history of calls lets the list of waits grow past 10000 entries.
  pub run-waits :
      (q : PriorityQueue F P) (cs : List (Call F P))
      → length q.wait_times ≤ 10000
      → length (run q cs).wait_times ≤ 10000
  unfolding run
  run-waits q [] h = h
  run-waits q (c ∷ cs) h = run-waits (apply q c) cs (apply-waits q c h)

  abbrev is_timed_out : Outcome F P → Bool
  is_timed_out timed_out = true
  is_timed_out (delivered _) = false
  is_timed_out waiting = false

  dequeue_from-untimed :
      (q : PriorityQueue F P) (rs : List (Round F P))
      → is_timed_out (dequeue_from none q rs).0 ≡ false
  unfolding dequeue_from is_past wait_expires
  dequeue_from-untimed q [] = refl
  dequeue_from-untimed q (r ∷ rs) = elim (Option-cases (next_item r.popped_at q).0) [
    | inl e ↦
        rw (e, dequeue_from) (dequeue_from-untimed (run (next_item r.popped_at q).1 r.others) rs)
    | inr (item, e) ↦ rw (e, dequeue_from) refl
  ]

  -- A timeout of zero is no timeout: the call behaves as without one, and never times out.
  dequeue_zero_timeout :
      (now timeout : F) (q : PriorityQueue F P) (rs : List (Round F P))
      → truthy timeout ≡ false
      → (dequeue now (some timeout) q rs ≡ dequeue now none q rs)
        × ((dequeue now (some timeout) q rs).0 ≢ timed_out)
  unfolding dequeue deadline_of
  dequeue_zero_timeout now timeout q rs z =
      (rw z, rw z (λ e. cc (ap is_timed_out e, dequeue_from-untimed q rs)))
