-- ===== src/Collector.antt =====
-- dashboard/src/proxy.js: `createMetricsCollector`, the numbers of one request. A time is a number of
-- milliseconds and a throughput a number of thousandths; the quotient of the code is rounded to three
-- digits in binary floating point, here exactly.
use swiftlm_platform.Base.{ℕ, ◌+◌, ◌-◌, ◌*◌, ◌/◌, Option, none, some, leb, if◌then◌else◌}
use swiftlm_platform.Store.{Metrics, coalesce}

pub record Usage : Type 0 where
  pub prompt_tokens : Option ℕ
  pub completion_tokens : Option ℕ

pub record Collector : Type 0 where
  pub started_at : ℕ
  pub first_token_at : Option ℕ
  pub reported : Option Metrics
  pub usage : Option Usage

abbrev pub create_metrics_collector : ℕ → Collector
create_metrics_collector now = record {
  started_at = now;
  first_token_at = none;
  reported = none;
  usage = none;
}

unfoldable pub mark_first_token : ℕ → Collector → Collector
mark_first_token now c = record c { first_token_at = coalesce c.first_token_at (some now) }

unfoldable pub set_reported : Option Metrics → Collector → Collector
set_reported m c = record c { reported = coalesce m c.reported }

unfoldable pub set_usage : Option Usage → Collector → Collector
set_usage u c = record c { usage = coalesce u c.usage }

-- `a ?? b` on a field of a value that may be missing.
abbrev field {ℓ κ} : {A : Type ℓ} {B : Type κ} → (A → Option B) → Option A → Option B
field f none = none
field f (some a) = f a

abbrev at_least_one : ℕ → ℕ
at_least_one n = if leb 1 n then n else 1

abbrev decode_ms : ℕ → Option ℕ → Option ℕ
decode_ms now none = none
decode_ms now (some first) = some (at_least_one (now - first))

abbrev pub rounded_rate : ℕ → ℕ → ℕ
rounded_rate tokens ms = (2 * (tokens * 1000000) + ms) / (2 * ms)

abbrev measured : Option ℕ → Option ℕ → Option ℕ
measured none ms = none
measured (some tokens) none = none
measured (some tokens) (some ms) = some (rounded_rate tokens ms)

abbrev ttft : ℕ → Option ℕ → Option ℕ
ttft started none = none
ttft started (some first) = some (first - started)

abbrev completion : Collector → Option ℕ
completion c =
    coalesce (field (λ (m : Metrics). m.completion_tokens) c.reported)
      (field (λ (u : Usage). u.completion_tokens) c.usage)

unfoldable pub result : ℕ → Collector → Metrics
result now c = record {
  prompt_tokens =
      coalesce (field (λ (m : Metrics). m.prompt_tokens) c.reported)
        (field (λ (u : Usage). u.prompt_tokens) c.usage);
  completion_tokens = completion c;
  queue_ms = field (λ (m : Metrics). m.queue_ms) c.reported;
  ttft_ms =
      coalesce (field (λ (m : Metrics). m.ttft_ms) c.reported) (ttft c.started_at c.first_token_at);
  throughput_tps =
      coalesce (field (λ (m : Metrics). m.throughput_tps) c.reported)
        (measured (completion c) (decode_ms now c.first_token_at));
}
