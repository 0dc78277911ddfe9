-- ===== src/Relay.antt =====
-- dashboard/src/proxy.js: how `proxyOpenAI` forwards the events of a stream. JSON.parse and the events
-- of a provider are those of the codec of Stream.
pub mod Forwarding
use swiftlm_platform.Base.{
  ℕ, ◌-◌, Bool, true, false, not, ◌&&◌, ◌||◌, Option, none, some, List, [], ◌∷◌, ◌++◌, map, filter,
  Text, codes, ◌==◌, is_empty, or_else, if◌then◌else◌, length, take, ltb, leb,
}
use swiftlm_platform.Store.{Metrics}
use swiftlm_platform.Collector.{Collector, mark_first_token, set_reported, set_usage}
use swiftlm_platform.Sse.{sse_event_name, sse_data, feed}
use swiftlm_platform.Stream.{Codec, Chunk}

abbrev preview_limit : ℕ
preview_limit = 12000

-- The limit, and an ellipsis for the rest.
abbrev pub preview : Text → Text
preview t = if ltb preview_limit (length t) then take preview_limit t ++ (8230 ∷ []) else t

-- The state while a stream is forwarded.
pub record Forward : Type 0 where
  pub collector : Collector
  pub response_preview : Text
  pub written : List Text

abbrev first_token : ℕ → Text → Collector → Collector
first_token now [] c = c
first_token now (x ∷ xs) c = mark_first_token now c

abbrev observed : ℕ → Option Chunk → Collector → Collector
observed now none c = c
observed now (some k) c = set_usage k.usage (first_token now k.delta c)

abbrev pub observe_chunk : Codec → ℕ → Text → Collector → Collector
observe_chunk k now text c =
    if is_empty text || (text == codes "[DONE]") then c else observed now (k.parse text) c

abbrev pub provider_event : Codec → Text → Option (Option Metrics)
provider_event k event = k.provider_event (sse_event_name event) (sse_data event)

abbrev pub frame : Text → Text
frame event = event ++ codes "\n\n"

unfoldable pub forward_event : Codec → ℕ → Text → Forward → Forward
forward_event k now event f = elim (provider_event k event) [
  | some metrics ↦ record f { collector = set_reported metrics f.collector }
  | none ↦ record {
    collector = observe_chunk k now (sse_data event) f.collector;
    response_preview = preview (f.response_preview ++ event);
    written = f.written ++ (frame event ∷ []);
  }
]

unfoldable pub forward_events : Codec → ℕ → List Text → Forward → Forward
forward_events k now [] f = f
forward_events k now (e ∷ es) f = forward_events k now es (forward_event k now e f)

-- The chunks, and what is left in the buffer.
unfoldable pub forward_chunks : Codec → Text → List (ℕ × Text) → Forward → Forward × Text
forward_chunks k buffer [] f = (f, buffer)
forward_chunks k buffer ((now, c) ∷ cs) f =
    let (events, rest) = feed buffer c in forward_chunks k rest cs (forward_events k now events f)

abbrev pub flush : Forward × Text → Forward
flush (f, []) = f
flush (f, c ∷ s) = record f {
  response_preview = preview (f.response_preview ++ (c ∷ s));
  written = f.written ++ ((c ∷ s) ∷ []);
}
