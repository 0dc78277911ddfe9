-- ===== src/Gateway/Records.antt =====
-- mlx-gateway/server.mjs: how often a job is recorded.
use swiftlm_platform.Base.{
  one_if, ℕ, ◌+◌, ◌≡◌, refl, inl, inr, Bool, true, false, not, ◌&&◌, Option, none, some, List, [],
  ◌∷◌, ◌++◌, Text, ◌==◌, length, filter, count_where, arith, Option-cases, Bool-cases,
  find-update_where, find-append, count-append, All,
}
use swiftlm_platform.Gateway.{
  Job, Gateway, JobRecord, Event, queued, started, first_token, completed, failed, cancelled,
  LogLine, find_job, start_upstream, drain, drain_queue, enqueue, finish_job, closed_off,
  job_record, with_job,
}
use swiftlm_platform.Gateway.Handlers.{
  Json, Input, arrives, responds, receives, ends, breaks, fails, closes, step, run, event_of,
  parse_json_metrics, unavailable, gone, on_data, read_events, read_event, parse_sse, after_end,
  empty,
}
use swiftlm_platform.Sse.{feed}

-- The line that says how a job ended.
abbrev is_final : Event → Bool
is_final completed = true
is_final failed = true
is_final cancelled = true
is_final _ = false

abbrev ends_job : Text → LogLine → Bool
ends_job id l = (l.request_id == id) && is_final l.event

abbrev pub final_lines : Text → List LogLine → ℕ
final_lines id log = count_where (ends_job id) log

abbrev pub expected_lines : Option Job → ℕ
expected_lines none = 0
expected_lines (some j) = one_if j.finished

-- The log has one such line for a finished job, and none for any other.
abbrev pub IsRecorded : Text → Gateway → Type 0
IsRecorded id s = final_lines id s.log ≡ expected_lines (find_job id s.jobs)

start-IsRecorded :
    (id : Text) (now : ℕ) (i : Text) (queue : List Text) (s : Gateway)
    → IsRecorded id s
    → IsRecorded id (start_upstream now i queue s)
unfolding start_upstream
start-IsRecorded id now i queue s h = ground (
  arith,
  find-update_where (λ (j : Job). j.id) id i (λ j. record j { upstream_started_at = some now })
      s.jobs (λ j. refl),
  count-append (ends_job id) s.log (record {
    request_id = i;
    event = started;
    running = length s.running + 1;
    waiting = length queue;
  }),
)

drain-IsRecorded :
    (id : Text) (limit now : ℕ) (queue : List Text) (s : Gateway)
    → IsRecorded id s
    → IsRecorded id (drain limit now queue s)
unfolding drain
drain-IsRecorded id limit now [] s h = h
drain-IsRecorded id limit now (i ∷ queue) s h = ground (
  arith,
  drain-IsRecorded id limit now queue (start_upstream now i queue s)
      (start-IsRecorded id now i queue s h),
)

closed_off-IsRecorded :
    (id : Text) (e : Event) (r : JobRecord) (i : Text) (j : Job) (s : Gateway)
    → is_final e ≡ true
    → find_job i s.jobs ≡ some j
    → j.finished ≡ false
    → IsRecorded id s
    → IsRecorded id (closed_off e r i s)
closed_off-IsRecorded id e r i j s final found open_job h = ground (
  arith,
  find-update_where (λ (x : Job). x.id) id i (λ x. record x { finished = true }) s.jobs (λ x. refl),
  count-append (ends_job id) s.log (record { request_id = i; event = e; running = 0; waiting = 0 }),
)

finish-IsRecorded :
    (id : Text) (limit now : ℕ) (i : Text) (e : Event) (status : ℕ) (error : Option Text)
    (s : Gateway)
    → is_final e ≡ true
    → IsRecorded id s
    → IsRecorded id (finish_job limit now i e status error s).0
unfolding finish_job drain_queue
finish-IsRecorded id limit now i e status error s final h =
    elim (Option-cases (find_job i s.jobs)) [
      | inl q ↦ ground arith
      | inr (j, q) ↦ elim (Bool-cases j.finished) [
        | inl over ↦ ground arith
        | inr more ↦
            let r = job_record now e status error j in
            ground (
              arith,
              drain-IsRecorded id limit now s.queue (closed_off e r i s)
                  (closed_off-IsRecorded id e r i j s final q more h),
            )
      ]
    ]

-- A change of a job that leaves its id and its end alone.
with_job-IsRecorded :
    (id i : Text) (f : Job → Job) (s : Gateway)
    → ((j : Job) → (f j).id ≡ j.id)
    → ((j : Job) → (f j).finished ≡ j.finished)
    → IsRecorded id s
    → IsRecorded id (with_job i f s)
with_job-IsRecorded id i f s same end h = elim (Option-cases (find_job id s.jobs)) [
  | inl q ↦ ground (arith, find-update_where (λ (j : Job). j.id) id i f s.jobs same)
  | inr (j, q) ↦ ground (arith, end j, find-update_where (λ (j : Job). j.id) id i f s.jobs same)
]

enqueue-IsRecorded :
    (id : Text) (limit now : ℕ) (j : Job) (s : Gateway)
    → j.finished ≡ false
    → IsRecorded id s
    → IsRecorded id (enqueue limit now j s)
unfolding enqueue drain_queue
enqueue-IsRecorded id limit now j s new h =
    let l : LogLine = record {
      request_id = j.id;
      event = queued;
      running = length s.running;
      waiting = length s.queue + 1;
    } in
    let s₁ : Gateway = record s {
      jobs = s.jobs ++ (j ∷ []);
      queue = s.queue ++ (j.id ∷ []);
      log = s.log ++ (l ∷ []);
    } in
    let h₁ : IsRecorded id s₁ =
      ground
        (arith, find-append (λ (x : Job). x.id) id s.jobs j, count-append (ends_job id) s.log l) in
    drain-IsRecorded id limit now s₁.queue s₁ h₁

read_events_keeps :
    (k : Json) (now : ℕ) (es : List Text) (j : Job)
    → ((read_events k now es j).id ≡ j.id) × ((read_events k now es j).finished ≡ j.finished)
unfolding read_events
read_events_keeps k now [] j = (refl, refl)
read_events_keeps k now (e ∷ es) j =
    ground (arith, read_events_keeps k now es (read_event k now e j))

on_data_keeps :
    (k : Json) (now : ℕ) (text : Text) (bytes : ℕ) (j : Job)
    → ((on_data k now text bytes j).id ≡ j.id)
      × ((on_data k now text bytes j).finished ≡ j.finished)
unfolding on_data parse_sse
on_data_keeps k now text bytes j = ground (
  arith,
  read_events_keeps k now (feed j.sse_buffer text).0
      (record j { sse_buffer = (feed j.sse_buffer text).1 }),
)

after_end_keeps :
    (k : Json) (r : Option JobRecord) (j : Job)
    → ((after_end k r j).id ≡ j.id) × ((after_end k r j).finished ≡ j.finished)
after_end_keeps k none j = (refl, refl)
after_end_keeps k (some r) j = ground arith

pub metrics_keep :
    (k : Json) (j : Job)
    → ((parse_json_metrics k j).id ≡ j.id) × ((parse_json_metrics k j).finished ≡ j.finished)
metrics_keep k j = ground arith

outcome_final : (o : Option Job) → is_final (event_of o) ≡ true
outcome_final none = refl
outcome_final (some j) = ground arith

abbrev pub IsNew : Input → Type 0
IsNew (arrives now j) = j.finished ≡ false
IsNew _ = Unit

step-IsRecorded :
    (id : Text) (limit : ℕ) (k : Json) (i : Input) (s : Gateway)
    → IsNew i
    → IsRecorded id s
    → IsRecorded id (step limit k i s)
unfolding step
step-IsRecorded id limit k (arrives now j) s new h = enqueue-IsRecorded id limit now j s new h
step-IsRecorded id limit k (responds i status is_sse) s new h =
    with_job-IsRecorded id i _ s (λ j. refl) (λ j. refl) h
step-IsRecorded id limit k (receives now i text bytes) s new h = ground (
  arith,
  with_job-IsRecorded id i (on_data k now text bytes) s (λ j. (on_data_keeps k now text bytes j).0)
      (λ j. (on_data_keeps k now text bytes j).1) h,
  count-append (ends_job id) s.log
      (record { request_id = i; event = first_token; running = 0; waiting = 0 }),
)
step-IsRecorded id limit k (ends now i) s new h =
    let s₁ = with_job i (parse_json_metrics k) s in
    let o = find_job i s₁.jobs in
    let f = finish_job limit now i (event_of o) 502 none s₁ in
    with_job-IsRecorded id i (after_end k f.1) f.0 (λ j. (after_end_keeps k f.1 j).0)
      (λ j. (after_end_keeps k f.1 j).1)
      (finish-IsRecorded id limit now i (event_of o) 502 none s₁ (outcome_final o) (
        with_job-IsRecorded id i (parse_json_metrics k) s (λ j. (metrics_keep k j).0)
          (λ j. (metrics_keep k j).1) h))
step-IsRecorded id limit k (breaks now i message) s new h =
    finish-IsRecorded id limit now i failed 502 (some message) s refl h
step-IsRecorded id limit k (fails now i message) s new h =
    finish-IsRecorded id limit now i failed 502 (some message) (with_job i unavailable s) refl
      (with_job-IsRecorded id i unavailable s (λ j. ground arith) (λ j. ground arith) h)
step-IsRecorded id limit k (closes now i) s new h =
    let h₁ = with_job-IsRecorded id i gone s (λ j. refl) (λ j. refl) h in
    let s₂ : Gateway = record (with_job i gone s) { queue = filter (λ x. not (x == i)) s.queue } in
    let c : Job → Job = λ j. record j { cancelled = true } in
    ground (
      arith,
      finish-IsRecorded id limit now i cancelled 499 none (with_job i c s₂) refl
          (with_job-IsRecorded id i c s₂ (λ j. refl) (λ j. refl) h₁),
    )

run-IsRecorded :
    (id : Text) (limit : ℕ) (k : Json) (is : List Input) (s : Gateway)
    → All IsNew is
    → IsRecorded id s
    → IsRecorded id (run limit k is s)
run-IsRecorded id limit k [] s new h = h
run-IsRecorded id limit k (i ∷ is) s new h =
    run-IsRecorded id limit k is (step limit k i s) new.1 (step-IsRecorded id limit k i s new.0 h)

-- However the callbacks of a job come, and however often, from a fresh gateway on the log has exactly
-- one line on its end if it is finished, and none if it is not. A job that arrives is not finished.
pub recorded_once :
    (id : Text) (limit : ℕ) (k : Json) (is : List Input)
    → All IsNew is
    → final_lines id (run limit k is empty).log
      ≡ expected_lines (find_job id (run limit k is empty).jobs)
recorded_once id limit k is new = run-IsRecorded id limit k is empty new refl
