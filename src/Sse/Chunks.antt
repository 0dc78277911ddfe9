-- ===== src/Sse/Chunks.antt =====
-- The events that dashboard/src/proxy.js reads do not depend on how the network cuts the stream, but
-- for a cut inside a line break.
use mathlib.Core.List.{append_assoc, append-nil}
use swiftlm_platform.Base.{
  ◌≡◌, refl, sym, Bool, false, none, List, [], ◌∷◌, ◌++◌, Text, eqb, length, arith, length-append,
  All,
}
use swiftlm_platform.Sse.{
  index_of_break, drain, drain_buffer, feed, feed_all, strip_crlf, carriage_return,
}
use swiftlm_platform.Sse.Framing.{drain-append, drain_fuel, drain_rest_le, drain_rest, drain-none}

abbrev pub concat : List Text → Text
concat [] = []
concat (s ∷ ss) = s ++ concat ss

abbrev pub strip_all : List Text → Text
strip_all [] = []
strip_all (s ∷ ss) = strip_crlf s ++ strip_all ss

drain_buffer-append :
    (b c : Text)
    → drain_buffer (b ++ c) ≡ (
      (drain_buffer b).0 ++ (drain_buffer ((drain_buffer b).1 ++ c)).0,
      (drain_buffer ((drain_buffer b).1 ++ c)).1,
    )
unfolding drain_buffer
drain_buffer-append b c =
    let whole = drain-append (length b) (length (b ++ c)) b c (omega arith) (omega arith) in
    let small = drain_rest_le (length b) b in
    let both = length-append b c in
    let left = length-append (drain (length b) b).1 c in
    rw
      (
        whole,
        drain_fuel (length (b ++ c)) (length ((drain (length b) b).1 ++ c))
            ((drain (length b) b).1 ++ c) (omega (arith, small, both, left)) (omega arith),
      )
      refl

drain_buffer_rest : (b : Text) → index_of_break (drain_buffer b).1 ≡ none
unfolding drain_buffer
drain_buffer_rest b = drain_rest (length b) b (omega arith)

drain_buffer-none : (b : Text) → index_of_break b ≡ none → drain_buffer b ≡ ([], b)
unfolding drain_buffer
drain_buffer-none b e = drain-none (length b) b e

pub feed_lem : (b c : Text) → feed b c ≡ drain_buffer (b ++ strip_crlf c)
unfolding feed
feed_lem b c = refl

-- From a buffer without a complete event, the chunks give what their concatenation gives.
pub feed_all-drain :
    (b : Text) (cs : List Text)
    → index_of_break b ≡ none
    → feed_all b cs ≡ drain_buffer (b ++ strip_all cs)
unfolding feed_all
feed_all-drain b [] e = rw append-nil (sym (drain_buffer-none b e))
feed_all-drain b (c ∷ cs) e =
    let rest = drain_buffer_rest (b ++ strip_crlf c) in
    let later = feed_all-drain (drain_buffer (b ++ strip_crlf c)).1 cs rest in
    rw (feed_lem b c, later, ← append_assoc b (strip_crlf c) (strip_all cs))
      (sym (drain_buffer-append (b ++ strip_crlf c) (strip_all cs)))

abbrev pub ends_cr : Text → Bool
ends_cr [] = false
ends_cr (c ∷ []) = eqb c carriage_return
ends_cr (c ∷ d ∷ s) = ends_cr (d ∷ s)

strip_crlf-append :
    (s t : Text) → ends_cr s ≡ false → strip_crlf (s ++ t) ≡ strip_crlf s ++ strip_crlf t
unfolding strip_crlf
strip_crlf-append [] t e = refl
strip_crlf-append (c ∷ []) [] e = refl
strip_crlf-append (c ∷ []) (d ∷ t) e = ground arith
strip_crlf-append (c ∷ d ∷ s) t e = ground (arith, strip_crlf-append (d ∷ s) t e)

strip_all-concat :
    (cs : List Text) → All (λ c. ends_cr c ≡ false) cs → strip_all cs ≡ strip_crlf (concat cs)
unfolding strip_crlf
strip_all-concat [] h = refl
strip_all-concat (c ∷ cs) h =
    rw (strip_all-concat cs h.1) (sym (strip_crlf-append c (concat cs) h.0))

-- Two ways to cut one stream into chunks give the same events and the same rest, where no chunk
-- ends in a carriage return.
pub chunking_irrelevant :
    (cs ds : List Text)
    → concat cs ≡ concat ds
    → All (λ c. ends_cr c ≡ false) cs
    → All (λ d. ends_cr d ≡ false) ds
    → feed_all [] cs ≡ feed_all [] ds
unfolding index_of_break
chunking_irrelevant cs ds e h k =
    rw
      (
        feed_all-drain [] cs refl,
        feed_all-drain [] ds refl,
        strip_all-concat cs h,
        strip_all-concat ds k,
        e,
      )
      refl
