-- ===== src/Scheduler/Sjf/Compounding.antt =====
-- python/scheduler/sjf_scheduler.py: the priority of a request over two rounds of the aging loop.
use ai_infrastructure_platfo.Prelude.{
  ℕ, ◌≡◌, ap, ◌∙◌, Bool, true, false, [], ◌∷◌, arith, nat_eq, ==_iff,
}
use ai_infrastructure_platfo.Floats.{Floats}
use ai_infrastructure_platfo.Heapq.{Heapq}
use ai_infrastructure_platfo.Queue.{item_lt}
use ai_infrastructure_platfo.Scheduler.Aging.{boost}
use ai_infrastructure_platfo.Scheduler.Sjf.State.{SjfScheduler, store}
use ai_infrastructure_platfo.Scheduler.Sjf.Loop.{lower_priority, age, age_all, aging_round}
use ai_infrastructure_platfo.Scheduler.Sjf.Expiry.{overdue}

module _ {F : Type 0} ⦃fl : Floats F⦄ ⦃hq : Heapq (item_lt {F = F} {P = ℕ})⦄ where
  -- The priority that a round gives a request of priority `p`, and whether it is lower enough.
  abbrev pub aged : F → SjfScheduler F → ℕ → F → F
  aged now s ref p = boost s.aging (fl.sub now (s.objects ref).enqueue_time) p

  abbrev pub lowers : F → SjfScheduler F → ℕ → F → Bool
  lowers now s ref p = fl.lt (aged now s ref p) (fl.sub p (fl.lit 1 2))

  -- What the first round leaves for the second.
  age-objects :
      (now : F) (s : SjfScheduler F) (k ref : ℕ)
      → overdue now s ref ≡ false
      → lowers now s ref (s.objects ref).priority ≡ true
      → (((age now s (k, ref)).objects ref).priority ≡ aged now s ref (s.objects ref).priority)
        × (((age now s (k, ref)).objects ref).enqueue_time ≡ (s.objects ref).enqueue_time)
        × ((age now s (k, ref)).aging ≡ s.aging)
        × ((age now s (k, ref)).timeout ≡ s.timeout)
        × ((age now s (k, ref)).pending ≡ s.pending)
  unfolding age lower_priority store
  age-objects now s k ref late low = ground (arith, ==_iff ref ref)

  -- For the one pending request, in time at both rounds of the aging loop and lowered by both, the
  -- second round takes its boost, which is that of the whole wait, off the priority that the first
  -- has already lowered.
  pub aging_round-aging_round :
      (t u : F) (s : SjfScheduler F) (k ref : ℕ)
      → s.pending ≡ (k, ref) ∷ []
      → overdue t s ref ≡ false
      → overdue u s ref ≡ false
      → lowers t s ref (s.objects ref).priority ≡ true
      → lowers u s ref (aged t s ref (s.objects ref).priority) ≡ true
      → ((aging_round u (aging_round t s)).objects ref).priority
        ≡ aged u s ref (aged t s ref (s.objects ref).priority)
  unfolding aging_round age_all
  aging_round-aging_round t u s k ref e late_t late_u low_t low_u =
      let once = age-objects t s k ref late_t low_t in
      let s' : SjfScheduler F = age t s (k, ref) in
      let twice = age-objects u s' k ref (ground arith) (ground arith) in
      let first : aging_round t s ≡ s' = ap (age_all t s) e in
      let pending : s'.pending ≡ (k, ref) ∷ [] = once.4 ∙ e in
      let second : aging_round u s' ≡ age u s' (k, ref) = ap (age_all u s') pending in
      ap (λ (r : SjfScheduler F). ((aging_round u r).objects ref).priority) first
      ∙ ap (λ (r : SjfScheduler F). (r.objects ref).priority) second
      ∙ twice.0
      ∙ ground arith
