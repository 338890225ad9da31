-- ===== src/Gateway/Forward.antt =====
-- python/scheduler/gateway.py: what `_forward_request` does to the futures and to the counters.
use mathlib.Core.Option
use ai_infrastructure_platfo.Prelude.{
  ℕ, ◌+◌, ◌≡◌, refl, ap, ◌∙◌, String, Bool, true, false, Option, none, some, List, [], ◌∷◌, arith,
  nat_eq, ◌==◌, ==_iff, if◌then◌else◌, map, ◌++◌,
}
use ai_infrastructure_platfo.Dict
use ai_infrastructure_platfo.Dict.{get-put}
use ai_infrastructure_platfo.Scheduler.Base.{count_complete}
use ai_infrastructure_platfo.Scheduler.Oracle.Interface.{Scheduling}
use ai_infrastructure_platfo.Gateway.State.{
  Gateway, Backend, replied, refused, streamed, broken, Future, unresolved, resolved, abandoned,
  Reply, set_future, settle, put_all, result_of, set_depth, count, forward, forward_request,
}

-- What a plain request's answer comes to, and whether the request counts as a success.
abbrev pub answer : Backend → Reply
answer (replied status_code json text) = result_of status_code json text
answer (refused message) = ("error", message) ∷ []
answer (streamed chunks) = []
answer (broken chunks message) = ("error", message) ∷ []

abbrev pub succeeded : Backend → Bool
succeeded (replied status_code json text) = true
succeeded (refused message) = false
succeeded (streamed chunks) = true
succeeded (broken chunks message) = false

-- A request that does not stream.
abbrev pub is_plain : Backend → Bool
is_plain (replied status_code json text) = true
is_plain (refused message) = true
is_plain (streamed chunks) = false
is_plain (broken chunks message) = false

-- A future after a reply: kept if it was done.
abbrev pub after : Option Future → Reply → Option Future
after none reply = none
after (some unresolved) reply = some (resolved reply)
after (some (resolved old)) reply = some (resolved old)
after (some abandoned) reply = some abandoned

module _ {S : Type 0} where
  settle-futures :
      (g : Gateway S) (k j : ℕ) (reply : Reply)
      → Dict.get (settle g k reply).futures j
        ≡ (if k == j then after (Dict.get g.futures j) reply else Dict.get g.futures j)
  unfolding settle set_future
  settle-futures g k j reply = ground (arith, get-put g.futures k j (resolved reply), ==_iff k j)

  put_all-others :
      (g : Gateway S) (k : ℕ) (items : List (Option String))
      → ((put_all g k items).futures ≡ g.futures)
        × ((put_all g k items).metrics ≡ g.metrics)
        × ((put_all g k items).scheduler ≡ g.scheduler)
  unfolding put_all
  put_all-others g k items = ground arith

  settle-others :
      (g : Gateway S) (k : ℕ) (reply : Reply)
      → ((settle g k reply).metrics ≡ g.metrics) × ((settle g k reply).scheduler ≡ g.scheduler)
  unfolding settle set_future
  settle-others g k reply = ground arith

module _ {F S : Type 0} (ops : Scheduling F S) where
  pub set_depth-others :
      (g : Gateway S)
      → ((set_depth ops g).futures ≡ g.futures)
        × ((set_depth ops g).scheduler ≡ g.scheduler)
        × ((set_depth ops g).metrics.requests_success ≡ g.metrics.requests_success)
        × ((set_depth ops g).metrics.requests_error ≡ g.metrics.requests_error)
  unfolding set_depth
  set_depth-others g = ground arith

  count-others : (g : Gateway S) (k : ℕ) (b : Bool) → (count ops g k b).futures ≡ g.futures
  unfolding count
  count-others g k true = refl
  count-others g k false = refl

  -- The forwarding of a plain request resolves its future by the server's answer, unless the future
  -- was done, which stays as it was; the futures of other requests stay too.
  pub forward_request-futures :
      (g : Gateway S) (k j : ℕ) (b : Backend)
      → is_plain b ≡ true
      → Dict.get (forward_request ops g k b).futures j
        ≡ (if k == j then after (Dict.get g.futures j) (answer b) else Dict.get g.futures j)
  unfolding forward_request forward
  forward_request-futures g k j (replied status_code json text) p =
      let reply = result_of status_code json text in
      ap (λ d. Dict.get d j)
        ((set_depth-others (count ops (settle g k reply) k true)).0
          ∙ count-others (settle g k reply) k true)
      ∙ settle-futures g k j reply
  forward_request-futures g k j (refused message) p =
      let reply : Reply = ("error", message) ∷ [] in
      ap (λ d. Dict.get d j) (set_depth-others (settle (count ops g k false) k reply)).0
      ∙ settle-futures (count ops g k false) k j reply
      ∙ ap (λ (d : List (ℕ × Future)). if k == j then after (Dict.get d j) reply else Dict.get d j)
          (count-others g k false)
  forward_request-futures g k j (streamed chunks) p = cc
  forward_request-futures g k j (broken chunks message) p = cc

  count-counts :
      (g : Gateway S) (s : S) (k : ℕ) (b : Bool)
      → g.scheduler ≡ some s
      → ((count ops g k b).scheduler ≡ some (ops.complete s k b))
        × ((count ops g k b).metrics.requests_success
            ≡ g.metrics.requests_success + (if b then 1 else 0))
        × ((count ops g k b).metrics.requests_error
            ≡ g.metrics.requests_error + (if b then 0 else 1))
  unfolding count
  count-counts g s k true e = (ap (Option.map (λ t. ops.complete t k true)) e, refl, omega arith)
  count-counts g s k false e = (ap (Option.map (λ t. ops.complete t k false)) e, omega arith, refl)

  -- Every forwarding, whatever the server does, completes its request with the scheduler exactly
  -- once, as a success or as an error, and counts it so, in the scheduler and in the metrics.
  pub forward_request-counts :
      (g : Gateway S) (s : S) (k : ℕ) (b : Backend)
      → g.scheduler ≡ some s
      → ((forward_request ops g k b).scheduler ≡ some (ops.complete s k (succeeded b)))
        × (ops.base (ops.complete s k (succeeded b)) ≡ count_complete (ops.base s) (succeeded b))
        × ((forward_request ops g k b).metrics.requests_success
            ≡ g.metrics.requests_success + (if succeeded b then 1 else 0))
        × ((forward_request ops g k b).metrics.requests_error
            ≡ g.metrics.requests_error + (if succeeded b then 0 else 1))
  unfolding forward_request forward
  forward_request-counts g s k (replied status_code json text) e =
      let reply = result_of status_code json text in
      let before = settle-others g k reply in
      let counted = count-counts (settle g k reply) s k true (before.1 ∙ e) in
      let last = set_depth-others (count ops (settle g k reply) k true) in
      (ground arith, ops.complete_counts s k true, ground arith, ground arith)
  forward_request-counts g s k (refused message) e =
      let reply : Reply = ("error", message) ∷ [] in
      let counted = count-counts g s k false e in
      let after_settle = settle-others (count ops g k false) k reply in
      let last = set_depth-others (settle (count ops g k false) k reply) in
      (ground arith, ops.complete_counts s k false, ground arith, ground arith)
  forward_request-counts g s k (streamed chunks) e =
      let items = map some chunks ++ none ∷ [] in
      let before = put_all-others g k items in
      let counted = count-counts (put_all g k items) s k true (before.2 ∙ e) in
      let last = set_depth-others (count ops (put_all g k items) k true) in
      (ground arith, ops.complete_counts s k true, ground arith, ground arith)
  forward_request-counts g s k (broken chunks message) e =
      let reply : Reply = ("error", message) ∷ [] in
      let items = map some chunks in
      let before = put_all-others g k items in
      let counted = count-counts (put_all g k items) s k false (before.2 ∙ e) in
      let after_settle = settle-others (count ops (put_all g k items) k false) k reply in
      let last = set_depth-others (settle (count ops (put_all g k items) k false) k reply) in
      (ground arith, ops.complete_counts s k false, ground arith, ground arith)
