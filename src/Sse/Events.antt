-- ===== src/Sse/Events.antt =====
-- The events that dashboard/src/proxy.js cuts out of its buffer: nothing is lost, and none is missed.
use mathlib.Core.List.{append_assoc, append-nil}
use swiftlm_platform.Base.{
  take-length, ℕ, zero, suc, ◌+◌, ◌≡◌, ◌≢◌, refl, sym, ap, ◌∙◌, none, some, List, [], ◌∷◌, ◌++◌,
  Text, newline, length, take, drop, arith, Option-cases, inl, inr, All,
}
use swiftlm_platform.Sse.{
  index_of_break, drain, drain_buffer, feed, feed_all, strip_crlf, carriage_return,
}
use swiftlm_platform.Sse.Framing.{drain_fuel, drain_rest, drain-none, drain-some}
use swiftlm_platform.Sse.Chunks.{feed_lem, feed_all-drain}

-- `event\n\n` for each event.
abbrev pub rejoin : List Text → Text
rejoin [] = []
rejoin (e ∷ es) = e ++ (newline ∷ newline ∷ rejoin es)

split_at_break :
    (b : Text) (i : ℕ)
    → index_of_break b ≡ some i
    → b ≡ take i b ++ (newline ∷ newline ∷ drop (i + 2) b)
unfolding index_of_break
split_at_break [] i e = absurd (ground arith)
split_at_break (c ∷ []) i e = absurd (ground arith)
split_at_break (c ∷ d ∷ s) zero e = ground arith
split_at_break (c ∷ d ∷ s) (suc i) e = ground (arith, split_at_break (d ∷ s) i)

rejoin-drain : (f : ℕ) (b : Text) → rejoin (drain f b).0 ++ (drain f b).1 ≡ b
rejoin-drain zero b = unfold drain in refl
rejoin-drain (suc f) b = elim (Option-cases (index_of_break b)) [
  | inl e ↦ rw (drain-none (suc f) b e) refl
  | inr (i, e) ↦
      rw
        (
          drain-some f b i e,
          append_assoc (take i b) (newline ∷ newline ∷ rejoin (drain f (drop (i + 2) b)).0)
              (drain f (drop (i + 2) b)).1,
          rejoin-drain f (drop (i + 2) b),
        )
        (sym (split_at_break b i e))
]

before_break : (b : Text) (i : ℕ) → index_of_break b ≡ some i → index_of_break (take i b) ≡ none
unfolding index_of_break
before_break [] i e = absurd (ground arith)
before_break (c ∷ []) i e = absurd (ground arith)
before_break (c ∷ d ∷ s) zero e = refl
before_break (c ∷ d ∷ s) (suc zero) e = refl
before_break (c ∷ d ∷ s) (suc (suc i)) e = ground (arith, before_break (d ∷ s) (suc i))

no_break_inside : (f : ℕ) (b : Text) → All (λ e. index_of_break e ≡ none) (drain f b).0
no_break_inside zero b = unfold drain in tt
no_break_inside (suc f) b = elim (Option-cases (index_of_break b)) [
  | inl e ↦ rw (drain-none (suc f) b e) tt
  | inr (i, e) ↦ rw (drain-some f b i e) (before_break b i e, no_break_inside f (drop (i + 2) b))
]

-- The loop cuts the buffer exactly at its blank lines: the events, with a blank line behind each,
-- and the rest make up the buffer, and neither an event nor the rest holds a blank line.
pub drain_buffer_exact :
    (b : Text)
    → (rejoin (drain_buffer b).0 ++ (drain_buffer b).1 ≡ b)
      × All (λ e. index_of_break e ≡ none) (drain_buffer b).0
      × (index_of_break (drain_buffer b).1 ≡ none)
unfolding drain_buffer
drain_buffer_exact b =
    (rejoin-drain (length b) b, no_break_inside (length b) b, drain_rest (length b) b (omega arith))

-- Text without a line break.
abbrev pub Plain : Text → Type 0
Plain s = All (λ c. (c ≢ carriage_return) × (c ≢ newline)) s

pub strip-Plain : (a t : Text) → Plain a → strip_crlf (a ++ t) ≡ a ++ strip_crlf t
unfolding strip_crlf
strip-Plain [] t h = refl
strip-Plain (c ∷ []) [] h = refl
strip-Plain (c ∷ []) (d ∷ t) h = ground arith
strip-Plain (c ∷ d ∷ s) t h = ground (arith, strip-Plain (d ∷ s) t h.1)

pub index-Plain : (b : Text) → Plain b → index_of_break b ≡ none
unfolding index_of_break
index-Plain [] h = refl
index-Plain (c ∷ []) h = refl
index-Plain (c ∷ d ∷ s) h = ground (arith, index-Plain (d ∷ s) h.1)

index_missed :
    (a b : Text)
    → Plain a
    → Plain b
    → index_of_break (a ++ (newline ∷ carriage_return ∷ newline ∷ b)) ≡ none
unfolding index_of_break
index_missed [] [] h k = refl
index_missed [] (d ∷ b) h k = ground (arith, index-Plain (d ∷ b) k)
index_missed (c ∷ []) b h k = ground (arith, index_missed [] b tt k)
index_missed (c ∷ d ∷ s) b h k = ground (arith, index_missed (d ∷ s) b h.1 k)

pub index_found :
    (a b : Text) → Plain a → index_of_break (a ++ (newline ∷ newline ∷ b)) ≡ some (length a)
unfolding index_of_break
index_found [] b h = refl
index_found (c ∷ []) b h = ground arith
index_found (c ∷ d ∷ s) b h = ground (arith, index_found (d ∷ s) b h.1)

pub drop-length : (a : Text) (c d : ℕ) (t : Text) → drop (length a + 2) (a ++ (c ∷ d ∷ t)) ≡ t
drop-length [] c d t = ground arith
drop-length (x ∷ a) c d t = ground (arith, drop-length a c d t)

strip_break : (b : Text) → Plain b → strip_crlf (newline ∷ b) ≡ newline ∷ b
unfolding strip_crlf
strip_break [] h = refl
strip_break (c ∷ b) h =
    ap (λ s. newline ∷ s)
      (sym (ap strip_crlf (append-nil (c ∷ b))) ∙ strip-Plain (c ∷ b) [] h ∙ append-nil (c ∷ b))

drain_found :
    (a b : Text) → Plain a → Plain b → drain_buffer (a ++ (newline ∷ newline ∷ b)) ≡ (a ∷ [], b)
unfolding drain_buffer
drain_found a b h k =
    let s = a ++ (newline ∷ newline ∷ b) in
    drain_fuel (length s) (suc (length s)) s (omega arith) (omega arith)
    ∙ drain-some (length s) s (length a) (index_found a b h)
    ∙ rw
        (
          take-length a (newline ∷ newline ∷ b),
          drop-length a newline newline b,
          drain-none (length s) b (index-Plain b k),
        )
        refl

strip_whole :
    (a b : Text)
    → Plain a
    → Plain b
    → strip_crlf (a ++ (carriage_return ∷ newline ∷ carriage_return ∷ newline ∷ b))
      ≡ a ++ (newline ∷ newline ∷ b)
unfolding strip_crlf
strip_whole a b h k =
    strip-Plain a (carriage_return ∷ newline ∷ carriage_return ∷ newline ∷ b) h
    ∙ ap (λ s. a ++ (newline ∷ s)) (strip_break b k)

strip_cut :
    (a : Text)
    → Plain a
    → strip_crlf (a ++ (carriage_return ∷ newline ∷ carriage_return ∷ []))
      ≡ a ++ (newline ∷ carriage_return ∷ [])
unfolding strip_crlf
strip_cut a h = strip-Plain a (carriage_return ∷ newline ∷ carriage_return ∷ []) h

-- A blank line of CR LF CR LF is missed when the network cuts it before its last line feed: in one
-- chunk it ends the event, and cut it ends none, so that two events are read as one.
pub crlf_cut_merges :
    (a b : Text)
    → Plain a
    → Plain b
    → (feed [] (a ++ (carriage_return ∷ newline ∷ carriage_return ∷ newline ∷ b)) ≡ (a ∷ [], b))
      × (feed_all []
            ((a ++ (carriage_return ∷ newline ∷ carriage_return ∷ [])) ∷ (newline ∷ b) ∷ [])
          ≡ ([], a ++ (newline ∷ carriage_return ∷ newline ∷ b)))
unfolding index_of_break drain_buffer
crlf_cut_merges a b h k = (
  feed_lem [] _ ∙ ap drain_buffer (strip_whole a b h k) ∙ drain_found a b h k,
  rw
      (
        feed_all-drain [] _ refl,
        strip_cut a h,
        strip_break b k,
        append-nil b,
        append_assoc a (newline ∷ carriage_return ∷ []) (newline ∷ b),
      )
      (drain-none _ _ (index_missed a b h k)),
)
