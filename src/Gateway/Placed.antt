-- ===== src/Gateway/Placed.antt =====
-- mlx-gateway/server.mjs: no job gets lost.
use swiftlm_platform.Base.{
  ℕ, ◌<◌, ◌≡◌, ◌≢◌, refl, ◌⊎◌, inl, inr, Bool, true, false, not, ◌&&◌, ◌||◌, Option, none, some,
  List, [], ◌∷◌, ◌++◌, Text, ◌==◌, filter, arith, Option-cases, Bool-cases, All, find-update_where,
  find-append, text_discrete,
}
use swiftlm_platform.Sse.{feed}
use swiftlm_platform.Gateway.{
  Job, Gateway, JobRecord, Event, failed, cancelled, find_job, start_upstream, drain, drain_queue,
  enqueue, enqueued, finish_job, closed_off, job_record, with_job,
}
use swiftlm_platform.Gateway.Handlers.{
  Json, Input, arrives, responds, receives, ends, breaks, fails, closes, step, run, event_of,
  parse_json_metrics, unavailable, gone, on_data, parse_sse, read_events, read_event, after_end,
  empty,
}
use swiftlm_platform.Gateway.Capacity.{run-IsFull}
use swiftlm_platform.Gateway.Progress.{waits, ahead, freed, IsOther, ahead-run}

abbrev is_set : Option ℕ → Bool
is_set none = false
is_set (some t) = true

abbrev pub has_started : Job → Bool
has_started j = is_set j.upstream_started_at

-- A job waits, has started or is finished, and one that is cancelled is finished.
abbrev placed : Text → List Text → Option Job → Bool
placed id q none = true
placed id q (some j) =
    (waits id q || has_started j || j.finished) && (not j.cancelled || j.finished)

abbrev pub IsPlaced : Text → Gateway → Type 0
IsPlaced id s = placed id s.queue (find_job id s.jobs) ≡ true

start-placed :
    (id : Text) (now : ℕ) (i : Text) (q : List Text) (s : Gateway)
    → placed id (i ∷ q) (find_job id s.jobs) ≡ true
    → placed id q (find_job id (start_upstream now i q s).jobs) ≡ true
unfolding start_upstream
start-placed id now i q s h = elim (Option-cases (find_job id s.jobs)) [
  | inl e ↦ ground (
    arith,
    find-update_where (λ (j : Job). j.id) id i (λ j. record j { upstream_started_at = some now })
        s.jobs (λ j. refl),
  )
  | inr (j, e) ↦ ground (
    arith,
    find-update_where (λ (j : Job). j.id) id i (λ j. record j { upstream_started_at = some now })
        s.jobs (λ j. refl),
  )
]

drain-IsPlaced :
    (id : Text) (limit now : ℕ) (q : List Text) (s : Gateway)
    → placed id q (find_job id s.jobs) ≡ true
    → IsPlaced id (drain limit now q s)
unfolding drain
drain-IsPlaced id limit now [] s h = h
drain-IsPlaced id limit now (i ∷ q) s h =
    ground (
      arith,
      drain-IsPlaced id limit now q (start_upstream now i q s) (start-placed id now i q s h),
    )

-- What a job has to be before `finishJob` is called: placed, or just cancelled.
closed_off-placed :
    (id : Text) (e : Event) (r : JobRecord) (i : Text) (s : Gateway)
    → (IsPlaced id s) ⊎ (i ≡ id)
    → placed id s.queue (find_job id (closed_off e r i s).jobs) ≡ true
closed_off-placed id e r i s h = elim (Option-cases (find_job id s.jobs)) [
  | inl q ↦ ground (
    arith,
    find-update_where (λ (j : Job). j.id) id i (λ j. record j { finished = true }) s.jobs
        (λ j. refl),
  )
  | inr (j, q) ↦ ground (
    arith,
    find-update_where (λ (j : Job). j.id) id i (λ j. record j { finished = true }) s.jobs
        (λ j. refl),
  )
]

finish-IsPlaced :
    (id : Text) (limit now : ℕ) (i : Text) (e : Event) (status : ℕ) (error : Option Text)
    (s : Gateway)
    → IsPlaced id s
    → IsPlaced id (finish_job limit now i e status error s).0
unfolding finish_job drain_queue
finish-IsPlaced id limit now i e status error s h = elim (Option-cases (find_job i s.jobs)) [
  | inl q ↦ ground arith
  | inr (j, q) ↦
      let r = job_record now e status error j in
      let c = closed_off e r i s in
      ground (arith, drain-IsPlaced id limit now s.queue c (closed_off-placed id e r i s (inl h)))
]

cancelled-IsPlaced :
    (id : Text) (limit now : ℕ) (i : Text) (e : Event) (status : ℕ) (error : Option Text)
    (s : Gateway) (j : Job)
    → find_job i s.jobs ≡ some j
    → j.finished ≡ false
    → (IsPlaced id s) ⊎ (i ≡ id)
    → IsPlaced id (finish_job limit now i e status error s).0
unfolding finish_job drain_queue
cancelled-IsPlaced id limit now i e status error s j q more h =
    let r = job_record now e status error j in
    let c = closed_off e r i s in
    ground (arith, drain-IsPlaced id limit now s.queue c (closed_off-placed id e r i s h))

-- A change that leaves alone what a job's place depends on.
abbrev Keeps : Job → Job → Type 0
Keeps j' j =
    (j'.id ≡ j.id)
    × (j'.finished ≡ j.finished)
    × (j'.cancelled ≡ j.cancelled)
    × (j'.upstream_started_at ≡ j.upstream_started_at)

with_job-IsPlaced :
    (id i : Text) (f : Job → Job) (s : Gateway)
    → ((j : Job) → Keeps (f j) j)
    → IsPlaced id s
    → IsPlaced id (with_job i f s)
with_job-IsPlaced id i f s keep h = elim (Option-cases (find_job id s.jobs)) [
  | inl q ↦ ground (arith, find-update_where (λ (j : Job). j.id) id i f s.jobs (λ j. (keep j).0))
  | inr (j, q) ↦
      ground (arith, keep j, find-update_where (λ (j : Job). j.id) id i f s.jobs (λ j. (keep j).0))
]

read_events-Keeps :
    (k : Json) (now : ℕ) (es : List Text) (j : Job) → Keeps (read_events k now es j) j
unfolding read_events
read_events-Keeps k now [] j = (refl, refl, refl, refl)
read_events-Keeps k now (e ∷ es) j =
    ground (arith, read_events-Keeps k now es (read_event k now e j))

on_data-Keeps :
    (k : Json) (now : ℕ) (text : Text) (bytes : ℕ) (j : Job) → Keeps (on_data k now text bytes j) j
unfolding on_data parse_sse
on_data-Keeps k now text bytes j = ground (
  arith,
  read_events-Keeps k now (feed j.sse_buffer text).0
      (record j { sse_buffer = (feed j.sse_buffer text).1 }),
)

after_end-Keeps : (k : Json) (r : Option JobRecord) (j : Job) → Keeps (after_end k r j) j
after_end-Keeps k none j = (refl, refl, refl, refl)
after_end-Keeps k (some r) j = ground arith

waits-remove :
    (id i : Text) (q : List Text) → i ≢ id → waits id (filter (λ x. not (x == i)) q) ≡ waits id q
waits-remove id i [] ne = refl
waits-remove id i (x ∷ q) ne = ground (arith, waits-remove id i q ne)

waits-append_self :
    (id i : Text) (q : List Text) → waits id (q ++ (i ∷ [])) ≡ waits id q || (i == id)
waits-append_self id i [] = ground arith
waits-append_self id i (x ∷ q) = ground (arith, waits-append_self id i q)

abbrev pub IsFresh : Input → Type 0
IsFresh (arrives now j) = (j.finished ≡ false) × (j.cancelled ≡ false)
IsFresh _ = Unit

enqueue-IsPlaced :
    (id : Text) (limit now : ℕ) (j : Job) (s : Gateway)
    → j.finished ≡ false
    → j.cancelled ≡ false
    → IsPlaced id s
    → IsPlaced id (enqueue limit now j s)
unfolding enqueue drain_queue
enqueue-IsPlaced id limit now j s f c h =
    let h₁ : IsPlaced id (enqueued j s) =
      ground
        (arith, find-append (λ (x : Job). x.id) id s.jobs j, waits-append_self id j.id s.queue) in
    drain-IsPlaced id limit now (s.queue ++ (j.id ∷ [])) (enqueued j s) h₁

close_open :
    (id : Text) (limit now : ℕ) (i : Text) (s : Gateway) (j : Job)
    → find_job i s.jobs ≡ some j
    → j.finished ≡ false
    → IsPlaced id s
    → IsPlaced id
        (finish_job limit now i cancelled 499 none (
          with_job i
            (λ x. record x { cancelled = true })
            (record (with_job i gone s) { queue = filter (λ x. not (x == i)) s.queue }))).0
close_open id limit now i s j q more h =
    let c : Job → Job = λ x. record x { cancelled = true } in
    let s₁ : Gateway = record (with_job i gone s) { queue = filter (λ x. not (x == i)) s.queue } in
    let g₁ = find-update_where (λ (x : Job). x.id) id i gone s.jobs (λ x. refl) in
    let g₂ = find-update_where (λ (x : Job). x.id) id i c s₁.jobs (λ x. refl) in
    let same₁ = find-update_where (λ (x : Job). x.id) i i gone s.jobs (λ x. refl) in
    let same₂ = find-update_where (λ (x : Job). x.id) i i c s₁.jobs (λ x. refl) in
    cancelled-IsPlaced id limit now i cancelled 499 none (with_job i c s₁) (c (gone j))
      (ground arith) more
      (elim (text_discrete i id) [
        | yes e ↦ inr e
        | no ne ↦ inl (ground (arith, waits-remove id i s.queue ne))
      ])

step-IsPlaced :
    (id : Text) (limit : ℕ) (k : Json) (i : Input) (s : Gateway)
    → IsFresh i
    → IsPlaced id s
    → IsPlaced id (step limit k i s)
unfolding step
step-IsPlaced id limit k (arrives now j) s new h = enqueue-IsPlaced id limit now j s new.0 new.1 h
step-IsPlaced id limit k (responds i status is_sse) s new h =
    with_job-IsPlaced id i _ s (λ j. (refl, refl, refl, refl)) h
step-IsPlaced id limit k (receives now i text bytes) s new h = ground (
  arith,
  with_job-IsPlaced id i (on_data k now text bytes) s (λ j. on_data-Keeps k now text bytes j) h,
)
step-IsPlaced id limit k (ends now i) s new h =
    let s₁ = with_job i (parse_json_metrics k) s in
    let o = find_job i s₁.jobs in
    let f = finish_job limit now i (event_of o) 502 none s₁ in
    with_job-IsPlaced id i (after_end k f.1) f.0 (λ j. after_end-Keeps k f.1 j)
      (finish-IsPlaced id limit now i (event_of o) 502 none s₁
        (with_job-IsPlaced id i (parse_json_metrics k) s (λ j. ground arith) h))
step-IsPlaced id limit k (breaks now i message) s new h =
    finish-IsPlaced id limit now i failed 502 (some message) s h
step-IsPlaced id limit k (fails now i message) s new h =
    finish-IsPlaced id limit now i failed 502 (some message) (with_job i unavailable s)
      (with_job-IsPlaced id i unavailable s (λ j. ground arith) h)
step-IsPlaced id limit k (closes now i) s new h = elim (Option-cases (find_job i s.jobs)) [
  | inl q ↦ ground (arith, with_job-IsPlaced id i gone s (λ j. (refl, refl, refl, refl)) h)
  | inr (j, q) ↦ elim (Bool-cases (j.response.ended || j.finished)) [
    | inl t ↦ ground (arith, with_job-IsPlaced id i gone s (λ j. (refl, refl, refl, refl)) h)
    | inr f ↦ ground (arith, close_open id limit now i s j q (ground arith) h)
  ]
]

run-IsPlaced :
    (id : Text) (limit : ℕ) (k : Json) (is : List Input) (s : Gateway)
    → All IsFresh is
    → IsPlaced id s
    → IsPlaced id (run limit k is s)
run-IsPlaced id limit k [] s new h = h
run-IsPlaced id limit k (i ∷ is) s new h =
    run-IsPlaced id limit k is (step limit k i s) new.1 (step-IsPlaced id limit k i s new.0 h)

-- A job that waits gets its turn: after any callbacks that end more running jobs than stand before it,
-- it does not wait any more, and has started or is over. This holds from every state on that a fresh
-- gateway comes to; the job's id arrives once, and jobs arrive neither finished nor cancelled.
pub turn_comes :
    (id : Text) (limit : ℕ) (k : Json) (before after : List Input) (j : Job)
    → All IsFresh before
    → All IsFresh after
    → All (IsOther id) after
    → ahead id (run limit k before empty).queue < freed limit k after (run limit k before empty)
    → find_job id (run limit k after (run limit k before empty)).jobs ≡ some j
    → (waits id (run limit k after (run limit k before empty)).queue ≡ false)
      × ((has_started j ≡ true) ⊎ (j.finished ≡ true))
turn_comes id limit k before after j new new' other enough found =
    let s = run limit k before empty in
    let full =
      run-IsFull limit k before empty (record { bounded = omega arith; busy = inl refl }) in
    let ok = run-IsPlaced id limit k after s new' (run-IsPlaced id limit k before empty new refl) in
    elim (Bool-cases (waits id (run limit k after s).queue)) [
      | inl w ↦ absurd (omega (arith, (ahead-run id limit k after s full other w).1))
      | inr w ↦ (w, ground arith)
    ]
