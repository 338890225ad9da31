-- ===== src/Scheduler/Sjf/Expiry.antt =====
-- python/scheduler/sjf_scheduler.py: the requests that the aging loop gives up.
use ai_infrastructure_platfo.Prelude.{
  ℕ, ◌≡◌, refl, ap, ◌∙◌, Bool, true, false, ◌&&◌, List, [], ◌∷◌, ◌++◌, arith, nat_eq, ◌==◌, ==_iff,
  if◌then◌else◌,
}
use ai_infrastructure_platfo.Prelude.Counts.{All}
use ai_infrastructure_platfo.Floats.{Floats}
use ai_infrastructure_platfo.Dict
use ai_infrastructure_platfo.Dict.{has-remove}
use ai_infrastructure_platfo.Heapq.{Heapq}
use ai_infrastructure_platfo.Queue.{item_lt}
use ai_infrastructure_platfo.Scheduler.Sjf.State.{SjfScheduler, cancel, store}
use ai_infrastructure_platfo.Scheduler.Sjf.Loop.{lower_priority, age, age_all, aging_round}

module _ {F : Type 0} ⦃fl : Floats F⦄ where
  -- Whether the request at `ref` has waited longer than the timeout.
  abbrev pub overdue : F → SjfScheduler F → ℕ → Bool
  overdue now s ref = fl.lt s.timeout (fl.sub now (s.objects ref).enqueue_time)

module _ {F : Type 0} ⦃fl : Floats F⦄ ⦃hq : Heapq (item_lt {F = F} {P = ℕ})⦄ where
  -- What a turn of the loop leaves alone, and what it does to the pending table.
  age-overdue :
      (now : F) (s : SjfScheduler F) (k ref r : ℕ)
      → overdue now (age now s (k, ref)) r ≡ overdue now s r
  unfolding age cancel lower_priority store
  age-overdue now s k ref r = ground (arith, ==_iff ref r)

  age-pending :
      (now : F) (s : SjfScheduler F) (k ref j : ℕ)
      → Dict.has (age now s (k, ref)).pending j
        ≡ (if overdue now s ref && (k == j) then false else Dict.has s.pending j)
  unfolding age cancel lower_priority
  age-pending now s k ref j = ground (arith, has-remove s.pending k j)

  age_all-gone :
      (now : F) (s : SjfScheduler F) (es : List (ℕ × ℕ)) (k : ℕ)
      → Dict.has s.pending k ≡ false
      → Dict.has (age_all now s es).pending k ≡ false
  unfolding age_all
  age_all-gone now s [] k h = h
  age_all-gone now s ((j, ref) ∷ es) k h =
      age_all-gone now (age now s (j, ref)) es k (ground (arith, age-pending now s j ref k))

  age_all-overdue :
      (now : F) (s : SjfScheduler F) (xs ys : List (ℕ × ℕ)) (k ref : ℕ)
      → overdue now s ref ≡ true
      → Dict.has (age_all now s (xs ++ (k, ref) ∷ ys)).pending k ≡ false
  unfolding age_all
  age_all-overdue now s [] ys k ref h =
      age_all-gone now (age now s (k, ref)) ys k
        (ground (arith, age-pending now s k ref k, ==_iff k k))
  age_all-overdue now s ((j, r) ∷ xs) ys k ref h =
      age_all-overdue now (age now s (j, r)) xs ys k ref (age-overdue now s j r ref ∙ h)

  -- No entry of the list for the id `k` is overdue.
  abbrev InTime : F → SjfScheduler F → ℕ → List (ℕ × ℕ) → Type 0
  InTime now s k es = All (λ (e : ℕ × ℕ). (e.0 == k) ≡ true → overdue now s e.1 ≡ false) es

  age-InTime :
      (now : F) (s : SjfScheduler F) (j r k : ℕ) (es : List (ℕ × ℕ))
      → InTime now s k es
      → InTime now (age now s (j, r)) k es
  age-InTime now s j r k [] a = tt
  age-InTime now s j r k ((i, ref) ∷ es) a =
      (λ same. age-overdue now s j r ref ∙ a.0 same, age-InTime now s j r k es a.1)

  age_all-InTime :
      (now : F) (s : SjfScheduler F) (es : List (ℕ × ℕ)) (k : ℕ)
      → InTime now s k es
      → Dict.has (age_all now s es).pending k ≡ Dict.has s.pending k
  unfolding age_all
  age_all-InTime now s [] k a = refl
  age_all-InTime now s ((j, r) ∷ es) k a =
      age_all-InTime now (age now s (j, r)) es k (age-InTime now s j r k es a.1)
      ∙ ground (arith, age-pending now s j r k, a.0)

  -- A request of whose id no pending entry has waited longer than the timeout stays pending, or not
  -- pending, over a round of the aging loop.
  pub aging_round_keeps :
      (now : F) (s : SjfScheduler F) (k : ℕ)
      → InTime now s k s.pending
      → Dict.has (aging_round now s).pending k ≡ Dict.has s.pending k
  unfolding aging_round
  aging_round_keeps now s k a = age_all-InTime now s s.pending k a

  -- A round of the aging loop takes every pending request that has waited longer than the timeout
  -- out of the pending table.
  pub aging_round_expires :
      (now : F) (s : SjfScheduler F) (xs ys : List (ℕ × ℕ)) (k ref : ℕ)
      → s.pending ≡ xs ++ (k, ref) ∷ ys
      → overdue now s ref ≡ true
      → Dict.has (aging_round now s).pending k ≡ false
  unfolding aging_round
  aging_round_expires now s xs ys k ref e h =
      ap (λ es. Dict.has (age_all now s es).pending k) e ∙ age_all-overdue now s xs ys k ref h
