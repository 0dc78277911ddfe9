-- ===== src/Stream/Disconnects.antt =====
-- A browser that goes away does not change what dashboard/src/proxy.js keeps of an answer.
use swiftlm_platform.Base.{ℕ, ◌≡◌, refl, Bool, true, Option, List, [], ◌∷◌, Text, arith}
use swiftlm_platform.Sse.{feed}
use swiftlm_platform.Stream.{Codec, Stream}
use swiftlm_platform.Stream.Consuming.{
  consume_data, consume_event, consume_all, Input, arrives, closes, take_input, take_all,
  persist_completion, finish, fail, start,
}

-- The stream without its connection: what is kept on the server.
abbrev pub kept : Stream → Stream
kept s = record s { connected = true; sent = [] }

consume_data-kept :
    (k : Codec) (now : ℕ) (name : Option Text) (text : Text) (s t : Stream)
    → kept s ≡ kept t
    → kept (consume_data k now name text s) ≡ kept (consume_data k now name text t)
unfolding consume_data
consume_data-kept k now name text s t e = ground arith

consume_event-kept :
    (k : Codec) (now : ℕ) (event : Text) (s t : Stream)
    → kept s ≡ kept t
    → kept (consume_event k now event s) ≡ kept (consume_event k now event t)
unfolding consume_event
consume_event-kept k now event s t e = consume_data-kept k now _ _ s t e

consume_all-kept :
    (k : Codec) (now : ℕ) (events : List Text) (s t : Stream)
    → kept s ≡ kept t
    → kept (consume_all k now events s) ≡ kept (consume_all k now events t)
unfolding consume_all
consume_all-kept k now [] s t e = e
consume_all-kept k now (x ∷ xs) s t e =
    consume_all-kept k now xs _ _ (consume_event-kept k now x s t e)

abbrev pub arrivals : List Input → List Input
arrivals [] = []
arrivals (arrives now text ∷ is) = arrives now text ∷ arrivals is
arrivals (closes ∷ is) = arrivals is

take_input-kept :
    (k : Codec) (now : ℕ) (text : Text) (s t : Stream)
    → kept s ≡ kept t
    → kept (take_input k (arrives now text) s) ≡ kept (take_input k (arrives now text) t)
unfolding take_input
take_input-kept k now text s t e =
    let same : s.buffer ≡ t.buffer = ground arith in
    ground (arith, consume_all-kept k now (feed s.buffer text).0 s t e)

take_all-kept :
    (k : Codec) (is : List Input) (s t : Stream)
    → kept s ≡ kept t
    → kept (take_all k is s) ≡ kept (take_all k (arrivals is) t)
unfolding take_all take_input
take_all-kept k [] s t e = e
take_all-kept k (arrives now text ∷ is) s t e =
    take_all-kept k is _ _ (take_input-kept k now text s t e)
take_all-kept k (closes ∷ is) s t e = take_all-kept k is _ t e

finish-kept :
    (k : Codec) (now : ℕ) (s t : Stream)
    → kept s ≡ kept t
    → kept (finish k now s) ≡ kept (finish k now t)
unfolding finish persist_completion
finish-kept k now s t e = ground (arith, consume_event-kept k now s.buffer s t e)

fail-kept :
    (now : ℕ) (aborted : Bool) (message : Text) (s t : Stream)
    → kept s ≡ kept t
    → kept (fail now aborted message s) ≡ kept (fail now aborted message t)
unfolding fail persist_completion
fail-kept now aborted message s t e = ground arith

-- The text, the metrics, the saved progress and the completion of an answer are the same whenever
-- the browser goes away, however often, and if it stays; so it is with an answer that fails or is
-- stopped.
pub disconnects_irrelevant :
    (k : Codec) (started now : ℕ) (aborted : Bool) (message : Text) (is : List Input)
    → (kept (finish k now (take_all k is (start started true)))
        ≡ kept (finish k now (take_all k (arrivals is) (start started true))))
      × (kept (fail now aborted message (take_all k is (start started true)))
          ≡ kept (fail now aborted message (take_all k (arrivals is) (start started true))))
disconnects_irrelevant k started now aborted message is =
    let same = take_all-kept k is (start started true) (start started true) refl in
    (finish-kept k now _ _ same, fail-kept now aborted message _ _ same)
