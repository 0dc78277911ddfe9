-- ===== src/Gateway/Capacity.antt =====
-- mlx-gateway/server.mjs: how many jobs run at once, and that none waits for nothing.
use swiftlm_platform.Base.{
  ℕ, ◌+◌, ◌≤◌, ◌≡◌, refl, ap, ◌⊎◌, inl, inr, Bool, true, not, Option, none, some, List, [], ◌∷◌,
  Text, ◌==◌, length, length-append, length-filter-le, filter, arith, Option-cases,
}
use swiftlm_platform.Gateway.{
  Job, Gateway, Event, find_job, start_upstream, drain, drain_queue, enqueue, finish_job,
  closed_off, job_record, with_job, failed, cancelled,
}
use swiftlm_platform.Gateway.Handlers.{
  Json, Input, arrives, responds, receives, ends, breaks, fails, closes, step, run, event_of,
  parse_json_metrics, unavailable, gone,
}

-- At most `limit` jobs run, and a job waits only while that many do.
pub record IsFull (limit : ℕ) (s : Gateway) : Type 0 where
  pub bounded : length s.running ≤ limit
  pub busy : (s.queue ≡ []) ⊎ (limit ≤ length s.running)

running-start :
    (now : ℕ) (id : Text) (queue : List Text) (s : Gateway)
    → length (start_upstream now id queue s).running ≤ length s.running + 1
unfolding start_upstream
running-start now id queue s = ground (arith, length-append s.running (id ∷ []))

-- Whatever the queue holds, the loop ends with it empty or with every place taken.
pub drain-IsFull :
    (limit now : ℕ) (queue : List Text) (s : Gateway)
    → length s.running ≤ limit
    → IsFull limit (drain limit now queue s)
unfolding drain
drain-IsFull limit now [] s h = record { bounded = h; busy = inl refl }
drain-IsFull limit now (id ∷ queue) s h = ground (
  arith,
  running-start now id queue s,
  drain-IsFull limit now queue (start_upstream now id queue s),
)

finish-IsFull :
    (limit now : ℕ) (id : Text) (e : Event) (status : ℕ) (error : Option Text) (s : Gateway)
    → length s.running ≤ limit
    → (s.queue ≡ []) ⊎ (limit ≤ length s.running)
    → IsFull limit (finish_job limit now id e status error s).0
unfolding finish_job drain_queue
finish-IsFull limit now id e status error s h b = elim (Option-cases (find_job id s.jobs)) [
  | inl q ↦ ground arith
  | inr (j, q) ↦ ground (
    arith,
    length-filter-le (λ i. not (i == id)) s.running,
    drain-IsFull limit now s.queue (closed_off e (job_record now e status error j) id s),
  )
]

enqueue-IsFull :
    (limit now : ℕ) (j : Job) (s : Gateway)
    → length s.running ≤ limit
    → IsFull limit (enqueue limit now j s)
unfolding enqueue drain_queue
enqueue-IsFull limit now j s h = drain-IsFull limit now _ _ h

waits_after :
    (limit : ℕ) (p : Text → Bool) (queue running : List Text)
    → (queue ≡ []) ⊎ (limit ≤ length running)
    → (filter p queue ≡ []) ⊎ (limit ≤ length running)
waits_after limit p queue running (inl e) = inl (ap (filter p) e)
waits_after limit p queue running (inr h) = inr h

-- Every callback keeps both.
pub step-IsFull :
    (limit : ℕ) (k : Json) (i : Input) (s : Gateway)
    → IsFull limit s
    → IsFull limit (step limit k i s)
unfolding step
step-IsFull limit k (arrives now j) s v = enqueue-IsFull limit now j s v.bounded
step-IsFull limit k (responds id status is_sse) s v = record { bounded = v.bounded; busy = v.busy }
step-IsFull limit k (receives now id text bytes) s v = ground arith
step-IsFull limit k (ends now id) s v =
    let f =
      finish-IsFull limit now id
        (event_of (find_job id (with_job id (parse_json_metrics k) s).jobs)) 502 none
        (with_job id (parse_json_metrics k) s) v.bounded v.busy in
    record { bounded = f.bounded; busy = f.busy }
step-IsFull limit k (breaks now id message) s v =
    finish-IsFull limit now id failed 502 (some message) s v.bounded v.busy
step-IsFull limit k (fails now id message) s v =
    finish-IsFull limit now id failed 502 (some message) (with_job id unavailable s) v.bounded
      v.busy
step-IsFull limit k (closes now id) s v = ground (
  arith,
  finish-IsFull limit now id cancelled 499 none
      (with_job id (λ j. record j { cancelled = true })
        (record (with_job id gone s) { queue = filter (λ i. not (i == id)) s.queue }))
      v.bounded (waits_after limit (λ i. not (i == id)) s.queue s.running v.busy),
)

-- Whatever comes in, in any order, the jobs that run are never more than the limit, and while a job
-- waits they are no fewer.
pub run-IsFull :
    (limit : ℕ) (k : Json) (is : List Input) (s : Gateway)
    → IsFull limit s
    → IsFull limit (run limit k is s)
run-IsFull limit k [] s v = v
run-IsFull limit k (i ∷ is) s v =
    run-IsFull limit k is (step limit k i s) (step-IsFull limit k i s v)
