-- ===== src/Gateway/Tests.antt =====
-- Runs and instances of the theorems on mlx-gateway/server.mjs.
use swiftlm_platform.Base.{
  ◌≡◌, refl, inl, true, false, none, some, List, [], ◌∷◌, Text, codes, arith, text_discrete,
  ℕ_discrete, ◌⊎◌,
}
use swiftlm_platform.Gateway.{
  job_record, JobRecord, completed, Job, find_job, start_upstream, drain, drain_queue, enqueue,
  finish_job,
}
use swiftlm_platform.Gateway.Handlers.{
  Json, Input, arrives, ends, breaks, responds, step, run, empty, new_job,
}
use swiftlm_platform.Gateway.Capacity.{IsFull, run-IsFull}
use swiftlm_platform.Gateway.Records.{final_lines, expected_lines, recorded_once}
use swiftlm_platform.Gateway.Progress.{waits}
use swiftlm_platform.Gateway.Placed.{has_started, turn_comes}

abbrev json : Json
json = record { parse = λ t. none; read_metrics = λ t. none; record_text = λ r. r.request_id }

abbrev job : Text → Job
job id = new_job id (codes "POST") (codes "/v1/completions") (codes "/v1/completions") [] [] 10

-- Two jobs for one place.
abbrev arrivals : List Input
arrivals = arrives 10 (job (codes "a")) ∷ arrives 11 (job (codes "b")) ∷ []

abbrev endings : List Input
endings =
    responds (codes "a") 200 false ∷ ends 20 (codes "a") ∷ breaks 21 (codes "a") (codes "late") ∷ []

running_gateway : Unit {0}
unfolding step enqueue drain_queue drain finish_job start_upstream new_job text_discrete ℕ_discrete
running_gateway = tt

second_waits : (run 1 json arrivals empty).queue ≡ codes "b" ∷ []
unfolding running_gateway
second_waits = refl

second_runs : (run 1 json endings (run 1 json arrivals empty)).running ≡ codes "b" ∷ []
unfolding running_gateway
second_runs = refl

run-IsFull_example : IsFull 1 (run 1 json arrivals empty)
run-IsFull_example =
    run-IsFull 1 json arrivals empty (record { bounded = omega arith; busy = inl refl })

recorded_once_example :
    final_lines (codes "a") (run 1 json (arrives 10 (job (codes "a")) ∷ endings) empty).log
    ≡ expected_lines
        (find_job (codes "a") (run 1 json (arrives 10 (job (codes "a")) ∷ endings) empty).jobs)
unfolding new_job
recorded_once_example =
    recorded_once (codes "a") 1 json (arrives 10 (job (codes "a")) ∷ endings)
      (refl, (tt, (tt, (tt, tt))))

abbrev started_job : Job
started_job = record (job (codes "b")) { upstream_started_at = some 20 }

turn_comes_example :
    (waits (codes "b") (run 1 json endings (run 1 json arrivals empty)).queue ≡ false)
    × ((has_started started_job ≡ true) ⊎ (started_job.finished ≡ true))
unfolding running_gateway
turn_comes_example =
    turn_comes (codes "b") 1 json arrivals endings started_job ((refl, refl), ((refl, refl), tt))
      (tt, (tt, (tt, tt))) (tt, (tt, (tt, tt))) (omega arith) refl

abbrev ended : JobRecord
ended = job_record 30 completed 200 none (job (codes "{}"))
