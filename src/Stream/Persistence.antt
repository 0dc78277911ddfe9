-- ===== src/Stream/Persistence.antt =====
-- What `streamDashboardChat` of dashboard/src/proxy.js saves of an answer, and how often.
use swiftlm_platform.Base.{
  ℕ, ◌≡◌, refl, Bool, true, false, not, ◌&&◌, Option, List, [], ◌∷◌, ◌++◌, Text, is_empty, trim,
  if◌then◌else◌, arith, Option-cases, inl, inr,
}
use swiftlm_platform.Sse.{feed}
use swiftlm_platform.Collector.{result}
use swiftlm_platform.Stream.{Codec, Completion, Stream}
use swiftlm_platform.Stream.Consuming.{
  consume_data, consume_event, consume_all, Input, arrives, closes, take_input, take_all,
  persist_completion, finish, finish_throws, fail, start, left_over,
}

abbrev pub last_or : Text → List Text → Text
last_or d [] = d
last_or d (x ∷ xs) = last_or x xs

last_or-append : (d x : Text) (xs : List Text) → last_or d (xs ++ (x ∷ [])) ≡ x
last_or-append d x [] = refl
last_or-append d x (y ∷ ys) = last_or-append y x ys

-- While an answer streams: what was saved last is the text so far, and no completion is saved.
pub record IsStreaming (s : Stream) : Type 0 where
  pub saved_text : s.last_persisted ≡ s.assistant
  pub saved_last : last_or [] s.progress ≡ s.assistant
  pub not_attempted : s.attempted ≡ false
  pub no_completion : s.completions ≡ []

consume_data-IsStreaming :
    (k : Codec) (now : ℕ) (name : Option Text) (text : Text) (s : Stream)
    → IsStreaming s
    → IsStreaming (consume_data k now name text s)
unfolding consume_data
consume_data-IsStreaming k now name text s v = elim (Option-cases (k.parse text)) [
  | inl e ↦ ground (arith, last_or-append [] (s.assistant ++ text) s.progress)
  | inr (c, e) ↦ ground (arith, last_or-append [] (s.assistant ++ c.delta) s.progress)
]

consume_event-IsStreaming :
    (k : Codec) (now : ℕ) (event : Text) (s : Stream)
    → IsStreaming s
    → IsStreaming (consume_event k now event s)
unfolding consume_event
consume_event-IsStreaming k now event s v = consume_data-IsStreaming k now _ _ s v

consume_all-IsStreaming :
    (k : Codec) (now : ℕ) (events : List Text) (s : Stream)
    → IsStreaming s
    → IsStreaming (consume_all k now events s)
unfolding consume_all
consume_all-IsStreaming k now [] s v = v
consume_all-IsStreaming k now (e ∷ es) s v =
    consume_all-IsStreaming k now es _ (consume_event-IsStreaming k now e s v)

take_input-IsStreaming :
    (k : Codec) (i : Input) (s : Stream) → IsStreaming s → IsStreaming (take_input k i s)
unfolding take_input
take_input-IsStreaming k (arrives now text) s v =
    let w = consume_all-IsStreaming k now (feed s.buffer text).0 s v in
    record {
      saved_text = w.saved_text;
      saved_last = w.saved_last;
      not_attempted = w.not_attempted;
      no_completion = w.no_completion;
    }
take_input-IsStreaming k closes s v = record {
  saved_text = v.saved_text;
  saved_last = v.saved_last;
  not_attempted = v.not_attempted;
  no_completion = v.no_completion;
}

take_all-IsStreaming :
    (k : Codec) (is : List Input) (s : Stream) → IsStreaming s → IsStreaming (take_all k is s)
unfolding take_all
take_all-IsStreaming k [] s v = v
take_all-IsStreaming k (i ∷ is) s v = take_all-IsStreaming k is _ (take_input-IsStreaming k i s v)

start-IsStreaming : (now : ℕ) (connected : Bool) → IsStreaming (start now connected)
start-IsStreaming now connected = record {
  saved_text = refl;
  saved_last = refl;
  not_attempted = refl;
  no_completion = refl;
}

-- At every moment of the stream the progress that was saved last is the whole text so far, so a
-- reload of the page loses nothing, and nothing has been recorded as complete.
pub progress_up_to_date :
    (k : Codec) (now : ℕ) (connected : Bool) (is : List Input)
    → let s = take_all k is (start now connected) in
      (last_or [] s.progress ≡ s.assistant) × (s.completions ≡ [])
progress_up_to_date k now connected is =
    let v = take_all-IsStreaming k is (start now connected) (start-IsStreaming now connected) in
    (v.saved_last, v.no_completion)

abbrev pub completion_of : ℕ → Bool → Bool → Stream → Completion
completion_of now completed cancelled s = record {
  assistant = s.assistant;
  usage = s.collector.usage;
  metrics = result now s.collector;
  completed = completed;
  cancelled = cancelled;
}

left_over-IsStreaming :
    (k : Codec) (now : ℕ) (s : Stream) → IsStreaming s → IsStreaming (left_over k now s)
left_over-IsStreaming k now s v = ground (arith, consume_event-IsStreaming k now s.buffer s v)

finish_completions :
    (k : Codec) (now : ℕ) (s : Stream)
    → IsStreaming (left_over k now s)
    → (finish k now s).completions ≡ (
        if is_empty (trim (left_over k now s).assistant)
        then []
        else completion_of now true false (left_over k now s) ∷ [])
unfolding finish persist_completion
finish_completions k now s v = ground arith

fail_completions :
    (now : ℕ) (aborted : Bool) (message : Text) (s : Stream)
    → IsStreaming s
    → (fail now aborted message s).completions ≡ (
        if is_empty (trim s.assistant) && not aborted
        then []
        else completion_of now false aborted s ∷ [])
unfolding fail persist_completion
fail_completions now aborted message s v = ground arith

finish_throws_completions :
    (k : Codec) (now later : ℕ) (aborted : Bool) (message : Text) (s : Stream)
    → IsStreaming (left_over k now s)
    → (finish_throws k now later aborted message s).completions ≡ (
        if not (is_empty (trim (left_over k now s).assistant))
        then completion_of now true false (left_over k now s) ∷ []
        else if aborted
        then completion_of later false true (left_over k now s) ∷ []
        else [])
unfolding finish_throws fail persist_completion
finish_throws_completions k now later aborted message s v = ground arith

-- An answer is recorded at most once, however it ends. When the upstream is done it is recorded as
-- complete, if there is any text but white space; when it has failed, as not complete, if there is any
-- such text or the user has stopped it. When the upstream is done and keeping the completion throws, so
-- that the handler of errors runs too, the handler records nothing that was recorded before, and an
-- answer without text only if the user has stopped it. The record holds all of the text.
pub completed_once :
    (k : Codec) (started now later : ℕ) (aborted : Bool) (message : Text) (is : List Input)
    → let s = take_all k is (start started true) in
      let t = left_over k now s in
      ((finish k now s).completions
        ≡ (if is_empty (trim t.assistant) then [] else completion_of now true false t ∷ []))
      × ((fail now aborted message s).completions ≡ (
          if is_empty (trim s.assistant) && not aborted
          then []
          else completion_of now false aborted s ∷ []))
      × ((finish_throws k now later aborted message s).completions ≡ (
          if not (is_empty (trim t.assistant))
          then completion_of now true false t ∷ []
          else if aborted
          then completion_of later false true t ∷ []
          else []))
completed_once k started now later aborted message is =
    let v = take_all-IsStreaming k is (start started true) (start-IsStreaming started true) in
    (
      finish_completions k now _ (left_over-IsStreaming k now _ v),
      fail_completions now aborted message _ v,
      finish_throws_completions k now later aborted message _ (left_over-IsStreaming k now _ v),
    )
