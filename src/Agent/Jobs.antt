-- ===== src/Agent/Jobs.antt =====
-- mlx-gateway/server.mjs: the jobs of an enrolled gateway, from the request to the backend.
use swiftlm_platform.Base.{
  Bytes, ℕ, ◌≡◌, ◌⊎◌, refl, inl, inr, All-append, Option, none, some, List, [], ◌∷◌, All, arith,
  Bool-cases,
}
use swiftlm_platform.NodeAuth.{Host, Cache}
use swiftlm_platform.Gateway.{Job, Gateway, drain_queue, enqueue, enqueued}
use swiftlm_platform.Gateway.Handlers.{Json, Input, step, new_job}
use swiftlm_platform.Agent.{AgentState, Rejection, verify_gateway_request}
use swiftlm_platform.Agent.Entry.{
  Incoming, Door, handle, collect_body, Collected, collected, uncollected, enter, check_identity,
  job_of, admit, is_inference,
}
use swiftlm_platform.Agent.Signed.{IsSigned, verified-IsSigned}
use swiftlm_platform.Agent.Callbacks.{
  JobIsSigned, JobsAreSigned, IsCallback, step-JobsAreSigned, drain-JobsAreSigned,
}

-- What comes to the gateway: requests, and the callbacks of the ones it has taken.
pub data Happening : Type 0 where
  requested : ℕ → Incoming → Happening
  called_back : Input → Happening

abbrev pub happen : ℕ → ℕ → Host → Json → AgentState → Happening → Door → Door
happen limit max_bytes h k a (requested now r) d = (handle limit max_bytes h (some a) now r d).0
happen limit max_bytes h k a (called_back i) d = record d { gateway = step limit k i d.gateway }

abbrev pub history : ℕ → ℕ → Host → Json → AgentState → List Happening → Door → Door
history limit max_bytes h k a [] d = d
history limit max_bytes h k a (e ∷ es) d =
    history limit max_bytes h k a es (happen limit max_bytes h k a e d)

abbrev pub CallsBack : Happening → Type 0
CallsBack (requested now r) = Unit
CallsBack (called_back i) = IsCallback i

module _ (h : Host) (a : AgentState) where
  enqueue-JobsAreSigned :
      (limit now : ℕ) (j : Job) (s : Gateway)
      → JobIsSigned h a j
      → JobsAreSigned h a s.jobs
      → JobsAreSigned h a (enqueue limit now j s).jobs
  unfolding enqueue drain_queue
  enqueue-JobsAreSigned limit now j s signed all =
      drain-JobsAreSigned h a limit now (enqueued j s).queue (enqueued j s)
        (All-append (JobIsSigned h a) s.jobs (j ∷ []) all (signed, tt))

  admit-JobsAreSigned :
      (limit now : ℕ) (r : Incoming) (body : Bytes) (d : Door)
      → IsSigned h a r.headers r.method r.url body
      → JobsAreSigned h a d.gateway.jobs
      → JobsAreSigned h a (admit limit now r body d).0.gateway.jobs
  unfolding new_job
  admit-JobsAreSigned limit now r body d signed all =
      let queued = enqueue-JobsAreSigned limit now (job_of r body now) d.gateway signed all in
      elim (Bool-cases (is_inference r.pathname r.method)) [
        | inl e ↦ rw e queued
        | inr e ↦ rw e all
      ]

  check-JobsAreSigned :
      (limit now : ℕ) (r : Incoming) (body : Bytes) (d : Door) (v : Cache × Option Rejection)
      → (v.1 ≡ none → IsSigned h a r.headers r.method r.url body)
      → JobsAreSigned h a d.gateway.jobs
      → JobsAreSigned h a (check_identity limit now r body d v).0.gateway.jobs
  check-JobsAreSigned limit now r body d (seen, some e) signed all = all
  check-JobsAreSigned limit now r body d (seen, none) signed all =
      admit-JobsAreSigned limit now r body (record d { seen = seen }) (signed refl) all

  enter-JobsAreSigned :
      (limit now : ℕ) (r : Incoming) (d : Door) (c : Collected)
      → JobsAreSigned h a d.gateway.jobs
      → JobsAreSigned h a (enter limit h (some a) now r d c).0.gateway.jobs
  enter-JobsAreSigned limit now r d (uncollected e) all = all
  enter-JobsAreSigned limit now r d (collected body) all =
      check-JobsAreSigned limit now r body d
        (verify_gateway_request h a r.headers r.method r.url body now d.seen)
        (verified-IsSigned h a r.headers r.method r.url body now d.seen) all

  handle-enter :
      (limit max_bytes now : ℕ) (r : Incoming) (d : Door)
      → ((handle limit max_bytes h (some a) now r d).0 ≡ d)
        ⊎ (handle limit max_bytes h (some a) now r d
            ≡ enter limit h (some a) now r d (collect_body max_bytes 0 [] r.chunks r.ending))
  unfolding handle
  handle-enter limit max_bytes now r d = ground arith

  handle-JobsAreSigned :
      (limit max_bytes now : ℕ) (r : Incoming) (d : Door)
      → JobsAreSigned h a d.gateway.jobs
      → JobsAreSigned h a (handle limit max_bytes h (some a) now r d).0.gateway.jobs
  handle-JobsAreSigned limit max_bytes now r d all =
      let entered =
        enter-JobsAreSigned limit now r d (collect_body max_bytes 0 [] r.chunks r.ending) all in
      elim (handle-enter limit max_bytes now r d) [ inl e ↦ rw e all | inr e ↦ rw e entered ]

-- Every job of an enrolled gateway carries the dashboard's signature over the method and the address
-- that its backend gets, and over the text that the UTF-8 decoding of the bytes of its body gives,
-- whatever requests and callbacks come, in any order, if this is so of the jobs at the start. The
-- callbacks bring no jobs.
pub history-JobsAreSigned :
    (limit max_bytes : ℕ) (h : Host) (k : Json) (a : AgentState) (es : List Happening) (d : Door)
    → All CallsBack es
    → JobsAreSigned h a d.gateway.jobs
    → JobsAreSigned h a (history limit max_bytes h k a es d).gateway.jobs
history-JobsAreSigned limit max_bytes h k a [] d c all = all
history-JobsAreSigned limit max_bytes h k a (requested now r ∷ es) d c all =
    history-JobsAreSigned limit max_bytes h k a es
      (happen limit max_bytes h k a (requested now r) d) c.1
      (handle-JobsAreSigned h a limit max_bytes now r d all)
history-JobsAreSigned limit max_bytes h k a (called_back i ∷ es) d c all =
    history-JobsAreSigned limit max_bytes h k a es (happen limit max_bytes h k a (called_back i) d)
      c.1 (step-JobsAreSigned h a limit k i d.gateway c.0 all)
