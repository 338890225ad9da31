-- ===== src/Scheduler/Fcfs/Order.antt =====
-- python/scheduler/fcfs_scheduler.py: the order of requests, and what `cancel` does to it.
use ai_infrastructure_platfo.Prelude.{
  ℕ, zero, suc, ◌+◌, ◌≡◌, refl, sym, ◌∙◌, ap, Bool, true, false, Option, none, some, List, [], ◌∷◌,
  ◌++◌, length, map, arith, nat_eq,
}
use mathlib.Core.List.{append_assoc, append-nil}
use ai_infrastructure_platfo.Floats.{Floats}
use ai_infrastructure_platfo.Dict
use ai_infrastructure_platfo.Dict.{has-put, has-remove}
use ai_infrastructure_platfo.Scheduler.Fcfs.{
  FcfsScheduler, Acquired, got, submit, take_front, acquire, cancel,
}

module _ {F R : Type 0} where
  abbrev pub submit_all : FcfsScheduler F R → List (ℕ × R) → FcfsScheduler F R
  submit_all s [] = s
  submit_all s ((k, r) ∷ rs) = submit_all (submit s k r) rs

  module _ ⦃fl : Floats F⦄ where
    -- Calls of `acquire` without a timeout, while the queue is as the calls before left it.
    abbrev pub acquire_all : ℕ → FcfsScheduler F R → List (Acquired R)
    acquire_all zero s = []
    acquire_all (suc n) s = (acquire s none [] false).0 ∷ acquire_all n (acquire s none [] false).1

    queue-submit_all :
        (s : FcfsScheduler F R) (rs : List (ℕ × R))
        → (submit_all s rs).queue ≡ s.queue ++ map (λ p. p.1) rs
    unfolding submit
    queue-submit_all s [] = sym (append-nil s.queue)
    queue-submit_all s ((k, r) ∷ rs) =
        queue-submit_all (submit s k r) rs ∙ append_assoc s.queue (r ∷ []) (map (λ p. p.1) rs)

    acquire-cons :
        (s : FcfsScheduler F R) (x : R) (xs : List R) (timeout : Option F) (arrived : List R)
        (expired : Bool)
        → s.queue ≡ x ∷ xs
        → acquire s timeout arrived expired ≡ (got x, record s { queue = xs })
    unfolding acquire take_front
    acquire-cons s x xs timeout arrived expired e = rw (e, acquire)

    acquire_all-queue :
        (s : FcfsScheduler F R) (xs : List R)
        → s.queue ≡ xs
        → acquire_all (length xs) s ≡ map got xs
    acquire_all-queue s [] e = refl
    acquire_all-queue s (x ∷ xs) e =
        rw (acquire-cons s x xs none [] false e)
          (ap (λ l. got x ∷ l) (acquire_all-queue (record s { queue = xs }) xs refl))

    -- First come, first served: what is submitted to an empty queue is acquired in that order, none
    -- left out and none twice.
    pub acquire_all-submit_all :
        (s : FcfsScheduler F R) (rs : List (ℕ × R))
        → s.queue ≡ []
        → acquire_all (length (map (λ p. p.1) rs)) (submit_all s rs) ≡ map got (map (λ p. p.1) rs)
    acquire_all-submit_all s rs e =
        acquire_all-queue (submit_all s rs) (map (λ p. p.1) rs)
          (queue-submit_all s rs ∙ ap (λ q. q ++ map (λ p. p.1) rs) e)

    acquire-queue :
        (s s' : FcfsScheduler F R) (timeout : Option F) (arrived : List R) (expired : Bool)
        (q : List R)
        → s.queue ≡ q
        → s'.queue ≡ q
        → (acquire s' timeout arrived expired).0 ≡ (acquire s timeout arrived expired).0
    unfolding acquire take_front
    acquire-queue s s' timeout arrived expired (x ∷ q) e e' = rw (e, e', acquire)
    acquire-queue s s' timeout (x ∷ arrived) expired [] e e' = rw (e, e', acquire)
    acquire-queue s s' none [] expired [] e e' = rw (e, e', acquire)
    acquire-queue s s' (some t) [] expired [] e e' = rw (e, e', acquire)

    abbrev cancelled : FcfsScheduler F R → ℕ → FcfsScheduler F R
    cancelled s k = record s {
      pending = Dict.remove s.pending k;
      total_cancelled = s.total_cancelled + 1;
    }

    -- `cancel` of a pending request answers `True` and forgets it, but the next `acquire` gives out
    -- what it would have given out without the call, a cancelled request too.
    pub acquire-cancel :
        (s : FcfsScheduler F R) (k : ℕ) (timeout : Option F) (arrived : List R) (expired : Bool)
        → Dict.has s.pending k ≡ true
        → ((cancel s k).1 ≡ true)
          × (Dict.has (cancel s k).0.pending k ≡ false)
          × ((acquire (cancel s k).0 timeout arrived expired).0
              ≡ (acquire s timeout arrived expired).0)
    unfolding cancel
    acquire-cancel s k timeout arrived expired p = rw p (
      refl,
      ground (arith, has-remove s.pending k k),
      acquire-queue s (cancelled s k) timeout arrived expired s.queue refl refl,
    )
