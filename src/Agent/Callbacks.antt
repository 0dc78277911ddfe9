-- ===== src/Agent/Callbacks.antt =====
-- mlx-gateway/server.mjs: the callbacks change nothing of what a job's backend gets.
use swiftlm_platform.Base.{
  ℕ, ◌≡◌, refl, inl, inr, All-update_where, ltb, length, Bool, true, false, Option, none, some,
  List, [], ◌∷◌, Text, ◌==◌, All, arith, Bool-cases, not, filter,
}
use swiftlm_platform.NodeAuth.{Host}
use swiftlm_platform.Sse.{feed}
use swiftlm_platform.Gateway.{
  Job, Gateway, Event, failed, cancelled, JobRecord, start_upstream, drain, drain_queue, finish_job,
  closed_off, job_record, find_job, with_job, finish_found, is_over,
}
use swiftlm_platform.Gateway.Handlers.{
  Json, Input, arrives, responds, receives, ends, breaks, fails, closes, step, read_events,
  read_event, on_data, parse_sse, event_of, parse_json_metrics, after_end, unavailable, gone,
  settled, noted, has_token,
}
use swiftlm_platform.Agent.{AgentState}
use swiftlm_platform.Agent.Signed.{IsSigned}

-- A job comes by a request only.
abbrev pub IsCallback : Input → Type 0
IsCallback (arrives now j) = ⊥
IsCallback _ = Unit

-- What the backend gets of a job was signed, its body by the text of its bytes.
abbrev pub JobIsSigned : Host → AgentState → Job → Type 0
JobIsSigned h a j = IsSigned h a j.headers j.method j.upstream_path j.body

abbrev pub JobsAreSigned : Host → AgentState → List Job → Type 0
JobsAreSigned h a jobs = All (JobIsSigned h a) jobs

abbrev Same : Job → Job → Type 0
Same i j =
    (i.headers ≡ j.headers)
    × (i.method ≡ j.method)
    × (i.upstream_path ≡ j.upstream_path)
    × (i.body ≡ j.body)

module _ (h : Host) (a : AgentState) where
  Same-JobIsSigned : (i j : Job) → Same i j → JobIsSigned h a j → JobIsSigned h a i
  Same-JobIsSigned i j (e₁, e₂, e₃, e₄) signed = rw (e₁, e₂, e₃, e₄) signed

  with_job-JobsAreSigned :
      (id : Text) (f : Job → Job) (s : Gateway)
      → ((j : Job) → Same (f j) j)
      → JobsAreSigned h a s.jobs
      → JobsAreSigned h a (with_job id f s).jobs
  with_job-JobsAreSigned id f s same all =
      All-update_where (JobIsSigned h a) (λ j. j.id == id) f s.jobs
        (λ j signed. Same-JobIsSigned (f j) j (same j) signed) all

  start-JobsAreSigned :
      (now : ℕ) (id : Text) (q : List Text) (s : Gateway)
      → JobsAreSigned h a s.jobs
      → JobsAreSigned h a (start_upstream now id q s).jobs
  unfolding start_upstream
  start-JobsAreSigned now id q s all =
      let started =
        with_job-JobsAreSigned id (λ j. record j { upstream_started_at = some now }) s
          (λ j. (refl, refl, refl, refl)) all in
      elim (Bool-cases (is_over (find_job id s.jobs))) [ inl e ↦ rw e all | inr e ↦ rw e started ]

  pub drain-JobsAreSigned :
      (limit now : ℕ) (q : List Text) (s : Gateway)
      → JobsAreSigned h a s.jobs
      → JobsAreSigned h a (drain limit now q s).jobs
  unfolding drain
  drain-JobsAreSigned limit now [] s all = all
  drain-JobsAreSigned limit now (id ∷ q) s all =
      let next =
        drain-JobsAreSigned limit now q (start_upstream now id q s)
          (start-JobsAreSigned now id q s all) in
      elim (Bool-cases (ltb (length s.running) limit)) [ inl e ↦ rw e next | inr e ↦ rw e all ]

  finish_found-JobsAreSigned :
      (limit now : ℕ) (id : Text) (e : Event) (status : ℕ) (error : Option Text) (s : Gateway)
      (o : Option Job)
      → JobsAreSigned h a s.jobs
      → JobsAreSigned h a (finish_found limit now id e status error s o).0.jobs
  unfolding drain_queue
  finish_found-JobsAreSigned limit now id e status error s none all = all
  finish_found-JobsAreSigned limit now id e status error s (some j) all =
      let c = closed_off e (job_record now e status error j) id s in
      let closed =
        with_job-JobsAreSigned id (λ j. record j { finished = true }) s
          (λ j. (refl, refl, refl, refl)) all in
      let drained = drain-JobsAreSigned limit now s.queue c closed in
      elim (Bool-cases j.finished) [ inl e ↦ rw e all | inr e ↦ rw e drained ]

  finish-JobsAreSigned :
      (limit now : ℕ) (id : Text) (e : Event) (status : ℕ) (error : Option Text) (s : Gateway)
      → JobsAreSigned h a s.jobs
      → JobsAreSigned h a (finish_job limit now id e status error s).0.jobs
  unfolding finish_job drain_queue
  finish-JobsAreSigned limit now id e status error s all =
      finish_found-JobsAreSigned limit now id e status error s (find_job id s.jobs) all

  read_events-Same :
      (k : Json) (now : ℕ) (es : List Text) (j : Job) → Same (read_events k now es j) j
  unfolding read_events
  read_events-Same k now [] j = (refl, refl, refl, refl)
  read_events-Same k now (e ∷ es) j =
      ground (arith, read_events-Same k now es (read_event k now e j))

  on_data-Same :
      (k : Json) (now : ℕ) (text : Text) (bytes : ℕ) (j : Job) → Same (on_data k now text bytes j) j
  unfolding on_data parse_sse
  on_data-Same k now text bytes j = ground (
    arith,
    read_events-Same k now (feed j.sse_buffer text).0
        (record j { sse_buffer = (feed j.sse_buffer text).1 }),
  )

  after_end-Same : (k : Json) (r : Option JobRecord) (j : Job) → Same (after_end k r j) j
  after_end-Same k none j = (refl, refl, refl, refl)
  after_end-Same k (some r) j = ground arith

  noted-JobsAreSigned :
      (id : Text) (before : Bool) (s : Gateway)
      → JobsAreSigned h a s.jobs
      → JobsAreSigned h a (noted id before s).jobs
  noted-JobsAreSigned id true s all = all
  noted-JobsAreSigned id false s all = elim (Bool-cases (has_token (find_job id s.jobs))) [
    | inl e ↦ rw e all
    | inr e ↦ rw e all
  ]

  pub step-JobsAreSigned :
      (limit : ℕ) (k : Json) (i : Input) (s : Gateway)
      → IsCallback i
      → JobsAreSigned h a s.jobs
      → JobsAreSigned h a (step limit k i s).jobs
  unfolding step
  step-JobsAreSigned limit k (arrives now j) s c all = absurd c
  step-JobsAreSigned limit k (responds id status is_sse) s c all =
      with_job-JobsAreSigned id _ s (λ j. (refl, refl, refl, refl)) all
  step-JobsAreSigned limit k (receives now id text bytes) s c all =
      let s₁ =
        with_job-JobsAreSigned id (on_data k now text bytes) s
          (λ j. on_data-Same k now text bytes j) all in
      noted-JobsAreSigned id (has_token (find_job id s.jobs))
        (with_job id (on_data k now text bytes) s) s₁
  step-JobsAreSigned limit k (ends now id) s c all =
      let s₁ = with_job id (parse_json_metrics k) s in
      let f = finish_job limit now id (event_of (find_job id s₁.jobs)) 502 none s₁ in
      with_job-JobsAreSigned id (after_end k f.1) f.0 (λ j. after_end-Same k f.1 j)
        (finish-JobsAreSigned limit now id (event_of (find_job id s₁.jobs)) 502 none s₁
          (with_job-JobsAreSigned id (parse_json_metrics k) s (λ j. ground arith) all))
  step-JobsAreSigned limit k (breaks now id message) s c all =
      finish-JobsAreSigned limit now id failed 502 (some message) s all
  step-JobsAreSigned limit k (fails now id message) s c all =
      finish-JobsAreSigned limit now id failed 502 (some message) (with_job id unavailable s)
        (with_job-JobsAreSigned id unavailable s (λ j. ground arith) all)
  step-JobsAreSigned limit k (closes now id) s c all =
      let s₁ = with_job-JobsAreSigned id gone s (λ j. (refl, refl, refl, refl)) all in
      let q : Gateway = record (with_job id gone s) {
        queue = filter (λ x. not (x == id)) s.queue;
      } in
      let f : Job → Job = λ j. record j { cancelled = true } in
      let ended =
        finish-JobsAreSigned limit now id cancelled 499 none (with_job id f q)
          (with_job-JobsAreSigned id f q (λ j. (refl, refl, refl, refl)) s₁) in
      elim (Bool-cases (settled (find_job id s.jobs))) [ inl e ↦ rw e s₁ | inr e ↦ rw e ended ]
