-- ===== src/Stream/Consuming.antt =====
-- dashboard/src/proxy.js: what `streamDashboardChat` does with each event, and how it ends.
use swiftlm_platform.Base.{
  ℕ, Bool, true, false, not, ◌&&◌, ◌||◌, Option, none, some, List, [], ◌∷◌, ◌++◌, Text, codes, ◌==◌,
  is_empty, trim, if◌then◌else◌,
}
use swiftlm_platform.Collector.{
  Collector, create_metrics_collector, mark_first_token, set_reported, set_usage, result,
}
use swiftlm_platform.Sse.{sse_event_name, sse_data, feed}
use swiftlm_platform.Stream.{
  Chunk, Codec, Completion, Sent, chunk, saved, stopped, failed, done, Stream,
}

abbrev pub start : ℕ → Bool → Stream
start now connected = record {
  connected = connected;
  sent = [];
  collector = create_metrics_collector now;
  buffer = [];
  assistant = [];
  last_persisted = [];
  progress = [];
  attempted = false;
  completions = [];
}

-- A write, if the client is there.
abbrev pub emit : Sent → Stream → Stream
emit m s = if s.connected then record s { sent = s.sent ++ (m ∷ []) } else s

abbrev persist_progress : Stream → Stream
persist_progress s =
    if s.assistant == s.last_persisted
    then s
    else record s { last_persisted = s.assistant; progress = s.progress ++ (s.assistant ∷ []) }

abbrev first_token : ℕ → Text → Collector → Collector
first_token now [] c = c
first_token now (d ∷ ds) c = mark_first_token now c

abbrev with_chunk : Codec → ℕ → Text → Option Chunk → Stream → Stream
with_chunk k now text none s = record (emit (chunk (k.wrap text)) s) {
  collector = mark_first_token now s.collector;
  assistant = s.assistant ++ text;
}
with_chunk k now text (some c) s = emit (chunk c.text) (record s {
  collector = set_usage c.usage (first_token now c.delta s.collector);
  assistant = s.assistant ++ c.delta;
})

abbrev done_text : Text
done_text = codes "[DONE]"

unfoldable pub consume_data : Codec → ℕ → Option Text → Text → Stream → Stream
consume_data k now name text s =
    if is_empty text || text == done_text then s else elim (k.provider_event name text) [
      | some metrics ↦ record s { collector = set_reported metrics s.collector }
      | none ↦ persist_progress (with_chunk k now text (k.parse text) s)
    ]

unfoldable pub consume_event : Codec → ℕ → Text → Stream → Stream
consume_event k now event s = consume_data k now (sse_event_name event) (sse_data event) s

unfoldable pub consume_all : Codec → ℕ → List Text → Stream → Stream
consume_all k now [] s = s
consume_all k now (e ∷ es) s = consume_all k now es (consume_event k now e s)

-- What happens to the stream while it is read: a chunk arrives, or the browser goes away.
pub data Input : Type 0 where
  arrives : ℕ → Text → Input
  closes : Input

unfoldable pub take_input : Codec → Input → Stream → Stream
take_input k closes s = record s { connected = false }
take_input k (arrives now text) s =
    let (events, rest) = feed s.buffer text in record (consume_all k now events s) { buffer = rest }

unfoldable pub take_all : Codec → List Input → Stream → Stream
take_all k [] s = s
take_all k (i ∷ is) s = take_all k is (take_input k i s)

-- Once, and only for an answer with text in it or one that was cancelled.
unfoldable pub persist_completion : ℕ → Bool → Bool → Stream → Stream × Option Completion
persist_completion now completed cancelled s =
    if s.attempted || (is_empty (trim s.assistant) && not cancelled)
    then (s, none)
    else (record s { attempted = true; completions = s.completions ++ (c ∷ []) }, some c)
  where
    c : Completion
    c = record {
      assistant = s.assistant;
      usage = s.collector.usage;
      metrics = result now s.collector;
      completed = completed;
      cancelled = cancelled;
    }

abbrev end_response : Stream → Stream
end_response s = record s { connected = false }

abbrev pub left_over : Codec → ℕ → Stream → Stream
left_over k now s = if is_empty (trim s.buffer) then s else consume_event k now s.buffer s

-- The reader is done: the rest of the buffer is an event too.
unfoldable pub finish : Codec → ℕ → Stream → Stream
finish k now s =
    let (s', c) = persist_completion now true false (left_over k now s) in
    end_response (emit done (emit (saved c) s'))

-- The reader throws: the user has stopped the generation, or the upstream has failed.
unfoldable pub fail : ℕ → Bool → Text → Stream → Stream
fail now aborted message s =
    let (s', c) = persist_completion now false aborted s in
    if aborted && s'.connected
    then end_response (emit done (emit (stopped c) s'))
    else end_response (emit (failed message) s')

-- The reader is done and the completion cannot be kept: `onComplete` throws, or the text of what it
-- returns cannot be made, and the handler of errors takes over.
unfoldable pub finish_throws : Codec → ℕ → ℕ → Bool → Text → Stream → Stream
unfolding fail
finish_throws k now later aborted message s =
    fail later aborted message (persist_completion now true false (left_over k now s)).0
