-- ===== src/Gateway/Progress.antt =====
-- mlx-gateway/server.mjs: a job that waits gets its turn.
use swiftlm_platform.Base.{
  one_if, ℕ, suc, ◌+◌, ◌≤◌, ◌<◌, ◌≡◌, ◌≢◌, refl, inl, inr, Bool, true, false, not, ◌&&◌, Option,
  none, some, List, [], ◌∷◌, ◌++◌, Text, ◌==◌, any, length, filter, if◌then◌else◌, arith,
  Option-cases, All, length-filter-le, find-update_where,
}
use swiftlm_platform.Gateway.{
  Job, Gateway, Event, failed, cancelled, find_job, start_upstream, drain, drain_queue, enqueue,
  finish_job, closed_off, job_record, with_job, enqueued,
}
use swiftlm_platform.Gateway.Handlers.{
  Json, Input, arrives, responds, receives, ends, breaks, fails, closes, step, run, event_of,
  parse_json_metrics, unavailable, gone, settled,
}
use swiftlm_platform.Gateway.Capacity.{IsFull, step-IsFull}
use swiftlm_platform.Gateway.Records.{metrics_keep}

abbrev pub waits : Text → List Text → Bool
waits id = any (λ x. x == id)

-- How many stand before a job's last place in the queue.
abbrev pub ahead : Text → List Text → ℕ
ahead id [] = 0
ahead id (x ∷ q) = if waits id q then suc (ahead id q) else 0

ahead-lt : (id : Text) (q : List Text) → waits id q ≡ true → ahead id q < length q
ahead-lt id [] h = ground arith
ahead-lt id (x ∷ q) h = ground (arith, ahead-lt id q)

-- The queue that the loop leaves is a rest of the one that it was given.
ahead-drain :
    (id : Text) (limit now : ℕ) (q : List Text) (s : Gateway)
    → waits id (drain limit now q s).queue ≡ true
    → (waits id q ≡ true) × (ahead id (drain limit now q s).queue ≤ ahead id q)
unfolding drain
ahead-drain id limit now [] s h = ground arith
ahead-drain id limit now (x ∷ q) s h =
    ground (arith, ahead-drain id limit now q (start_upstream now x q s))

-- With a place free, the first one at least has left it.
ahead-drain_free :
    (id : Text) (limit now : ℕ) (q : List Text) (s : Gateway)
    → length s.running < limit
    → waits id (drain limit now q s).queue ≡ true
    → ahead id (drain limit now q s).queue < ahead id q
unfolding drain
ahead-drain_free id limit now [] s free h = ground arith
ahead-drain_free id limit now (x ∷ q) s free h =
    ground (arith, ahead-drain id limit now q (start_upstream now x q s))

length-remove :
    (id : Text) (xs : List Text)
    → waits id xs ≡ true
    → length (filter (λ x. not (x == id)) xs) < length xs
length-remove id [] h = ground arith
length-remove id (x ∷ xs) h =
    ground (arith, length-remove id xs, length-filter-le (λ y. not (y == id)) xs)

-- Whether a call of `finishJob` frees a place.
abbrev frees_found : Text → List Text → Option Job → Bool
frees_found id running none = false
frees_found id running (some j) = waits id running && not j.finished

abbrev frees : Text → Gateway → Bool
frees id s = frees_found id s.running (find_job id s.jobs)

ahead-finish :
    (id : Text) (limit now : ℕ) (i : Text) (e : Event) (status : ℕ) (error : Option Text)
    (s : Gateway)
    → length s.running ≤ limit
    → waits id (finish_job limit now i e status error s).0.queue ≡ true
    → (waits id s.queue ≡ true)
      × (ahead id (finish_job limit now i e status error s).0.queue + one_if (frees i s)
          ≤ ahead id s.queue)
unfolding finish_job drain_queue
ahead-finish id limit now i e status error s b h = elim (Option-cases (find_job i s.jobs)) [
  | inl q ↦ ground arith
  | inr (j, q) ↦
      let c = closed_off e (job_record now e status error j) i s in
      ground (
        arith,
        length-remove i s.running,
        ahead-drain id limit now s.queue c,
        ahead-drain_free id limit now s.queue c,
      )
]

ahead-remove :
    (id c : Text) (q : List Text)
    → waits id (filter (λ x. not (x == c)) q) ≡ true
    → (waits id q ≡ true) × (ahead id (filter (λ x. not (x == c)) q) ≤ ahead id q)
ahead-remove id c [] h = ground arith
ahead-remove id c (x ∷ q) h = ground (arith, ahead-remove id c q)

ahead-append :
    (id i : Text) (q : List Text)
    → i ≢ id
    → (waits id (q ++ (i ∷ [])) ≡ waits id q) × (ahead id (q ++ (i ∷ [])) ≡ ahead id q)
ahead-append id i [] ne = ground arith
ahead-append id i (x ∷ q) ne = ground (arith, ahead-append id i q ne)

-- Whether a callback ends a job that runs.
abbrev pub ends_running : Input → Gateway → Bool
ends_running (ends now i) s = frees i s
ends_running (breaks now i message) s = frees i s
ends_running (fails now i message) s = frees i s
ends_running (closes now i) s = not (settled (find_job i s.jobs)) && frees i s
ends_running _ s = false

abbrev pub IsOther : Text → Input → Type 0
IsOther id (arrives now j) = j.id ≢ id
IsOther id _ = Unit

frees-with_job :
    (i : Text) (f : Job → Job) (s : Gateway)
    → ((j : Job) → (f j).id ≡ j.id)
    → ((j : Job) → (f j).finished ≡ j.finished)
    → frees i (with_job i f s) ≡ frees i s
frees-with_job i f s same end = elim (Option-cases (find_job i s.jobs)) [
  | inl q ↦ ground (arith, find-update_where (λ (j : Job). j.id) i i f s.jobs same)
  | inr (j, q) ↦ ground (arith, end j, find-update_where (λ (j : Job). j.id) i i f s.jobs same)
]

-- One callback never puts anybody before a waiting job, and moves it up where it ends a running one.
ahead-step :
    (id : Text) (limit : ℕ) (k : Json) (i : Input) (s : Gateway)
    → IsFull limit s
    → IsOther id i
    → waits id (step limit k i s).queue ≡ true
    → (waits id s.queue ≡ true)
      × (ahead id (step limit k i s).queue + one_if (ends_running i s) ≤ ahead id s.queue)
unfolding step enqueue drain_queue
ahead-step id limit k (arrives now j) s v other h = ground (
  arith,
  ahead-append id j.id s.queue other,
  ahead-drain id limit now (s.queue ++ (j.id ∷ [])) (enqueued j s),
)
ahead-step id limit k (responds i status is_sse) s v other h = ground arith
ahead-step id limit k (receives now i text bytes) s v other h = ground arith
ahead-step id limit k (ends now i) s v other h =
    let s₁ = with_job i (parse_json_metrics k) s in
    rw
      (← frees-with_job i (parse_json_metrics k) s (λ j. (metrics_keep k j).0)
        (λ j. (metrics_keep k j).1))
      (ahead-finish id limit now i (event_of (find_job i s₁.jobs)) 502 none s₁ v.bounded h)
ahead-step id limit k (breaks now i message) s v other h =
    ahead-finish id limit now i failed 502 (some message) s v.bounded h
ahead-step id limit k (fails now i message) s v other h =
    rw (← frees-with_job i unavailable s (λ j. ground arith) (λ j. ground arith))
      (ahead-finish id limit now i failed 502 (some message) (with_job i unavailable s) v.bounded h)
ahead-step id limit k (closes now i) s v other h =
    let c : Job → Job = λ j. record j { cancelled = true } in
    let s₁ : Gateway = record (with_job i gone s) { queue = filter (λ x. not (x == i)) s.queue } in
    ground (
      arith,
      ahead-finish id limit now i cancelled 499 none (with_job i c s₁) v.bounded,
      ahead-remove id i s.queue,
      frees-with_job i gone s (λ j. refl) (λ j. refl),
      frees-with_job i c s₁ (λ j. refl) (λ j. refl),
    )

abbrev pub freed : ℕ → Json → List Input → Gateway → ℕ
freed limit k [] s = 0
freed limit k (i ∷ is) s = one_if (ends_running i s) + freed limit k is (step limit k i s)

pub ahead-run :
    (id : Text) (limit : ℕ) (k : Json) (is : List Input) (s : Gateway)
    → IsFull limit s
    → All (IsOther id) is
    → waits id (run limit k is s).queue ≡ true
    → (waits id s.queue ≡ true)
      × (ahead id (run limit k is s).queue + freed limit k is s ≤ ahead id s.queue)
ahead-run id limit k [] s v other h = (h, omega arith)
ahead-run id limit k (i ∷ is) s v other h =
    let (w, later) =
      ahead-run id limit k is (step limit k i s) (step-IsFull limit k i s v) other.1 h in
    let (w', now) = ahead-step id limit k i s v other.0 w in (w', omega arith)
