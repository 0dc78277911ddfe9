-- ===== src/Sse/Tests.antt =====
-- Runs and instances of the theorems on the events of dashboard/src/proxy.js.
use swiftlm_platform.Base.{
  ◌≡◌, refl, arith, none, [], ◌∷◌, ◌++◌, Text, codes, All, ℕ_discrete, newline,
}
use swiftlm_platform.Sse.{feed, feed_all, drain, drain_buffer, index_of_break, carriage_return}
use swiftlm_platform.Sse.Chunks.{chunking_irrelevant}
use swiftlm_platform.Sse.Events.{rejoin, Plain, drain_buffer_exact, crlf_cut_merges}

abbrev two_events : Text
two_events = codes "data: a\n\ndata: b\n\nda"

drain_two_events : drain_buffer two_events ≡ (codes "data: a" ∷ codes "data: b" ∷ [], codes "da")
unfolding drain_buffer drain index_of_break ℕ_discrete
drain_two_events = refl

chunking_irrelevant_example :
    feed_all [] (codes "data: a\n" ∷ codes "\ndata: b\n\nda" ∷ []) ≡ feed_all [] (two_events ∷ [])
chunking_irrelevant_example =
    chunking_irrelevant (codes "data: a\n" ∷ codes "\ndata: b\n\nda" ∷ []) (two_events ∷ []) refl
      (refl, (refl, tt)) (refl, tt)

drain_buffer_exact_example :
    (rejoin (drain_buffer two_events).0 ++ (drain_buffer two_events).1 ≡ two_events)
    × All (λ e. index_of_break e ≡ none) (drain_buffer two_events).0
    × (index_of_break (drain_buffer two_events).1 ≡ none)
drain_buffer_exact_example = drain_buffer_exact two_events

Plain-a : Plain (codes "a")
Plain-a = ((ground arith, ground arith), tt)

Plain-b : Plain (codes "b")
Plain-b = ((ground arith, ground arith), tt)

crlf_cut_merges_example :
    (feed [] (codes "a" ++ (carriage_return ∷ newline ∷ carriage_return ∷ newline ∷ codes "b"))
      ≡ (codes "a" ∷ [], codes "b"))
    × (feed_all [] (
          (codes "a" ++ (carriage_return ∷ newline ∷ carriage_return ∷ []))
          ∷ (newline ∷ codes "b")
          ∷ [])
        ≡ ([], codes "a" ++ (newline ∷ carriage_return ∷ newline ∷ codes "b")))
crlf_cut_merges_example = crlf_cut_merges (codes "a") (codes "b") Plain-a Plain-b
