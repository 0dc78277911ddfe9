-- ===== src/Relay/Forwarding.antt =====
-- What a client gets of a stream that dashboard/src/proxy.js forwards.
use mathlib.Core.List.{append_assoc, append-nil}
use swiftlm_platform.Base.{
  ℕ, ◌≡◌, refl, sym, ap, ◌∙◌, Bool, true, false, Option, none, some, List, [], ◌∷◌, ◌++◌, map,
  filter, Text, arith, if◌then◌else◌, Option-cases, inl, inr,
}
use swiftlm_platform.Sse.{feed, feed_all}
use swiftlm_platform.Stream.{Codec}
use swiftlm_platform.Relay.{
  flush, Forward, forward_event, forward_events, forward_chunks, provider_event, frame,
}

abbrev is_none : {A : Type 0} → Option A → Bool
is_none none = true
is_none (some a) = false

-- An event that the provider does not keep for itself.
abbrev pub for_client : Codec → Text → Bool
for_client k event = is_none (provider_event k event)

abbrev texts : List (ℕ × Text) → List Text
texts [] = []
texts ((now, c) ∷ cs) = c ∷ texts cs

written-forward_event :
    (k : Codec) (now : ℕ) (e : Text) (f : Forward)
    → (forward_event k now e f).written ≡ f.written ++ (if for_client k e then frame e ∷ [] else [])
unfolding forward_event
written-forward_event k now e f = elim (Option-cases (provider_event k e)) [
  | inl q ↦ ground arith
  | inr (m, q) ↦ ground (arith, append-nil f.written)
]

map-filter_cons :
    (k : Codec) (e : Text) (es : List Text)
    → map frame (filter (for_client k) (e ∷ es))
      ≡ (if for_client k e then frame e ∷ [] else []) ++ map frame (filter (for_client k) es)
map-filter_cons k e es = ground arith

written-forward_events :
    (k : Codec) (now : ℕ) (es : List Text) (f : Forward)
    → (forward_events k now es f).written ≡ f.written ++ map frame (filter (for_client k) es)
unfolding forward_events
written-forward_events k now [] f = sym (append-nil f.written)
written-forward_events k now (e ∷ es) f =
    written-forward_events k now es (forward_event k now e f)
    ∙ ap (λ w. w ++ map frame (filter (for_client k) es)) (written-forward_event k now e f)
    ∙ append_assoc f.written _ _
    ∙ ap (λ w. f.written ++ w) (sym (map-filter_cons k e es))

map-filter_append :
    (k : Codec) (es fs : List Text)
    → map frame (filter (for_client k) (es ++ fs))
      ≡ map frame (filter (for_client k) es) ++ map frame (filter (for_client k) fs)
map-filter_append k [] fs = refl
map-filter_append k (e ∷ es) fs = ground (arith, map-filter_append k es fs)

written-forward_chunks :
    (k : Codec) (buffer : Text) (chunks : List (ℕ × Text)) (f : Forward)
    → ((forward_chunks k buffer chunks f).0.written
        ≡ f.written ++ map frame (filter (for_client k) (feed_all buffer (texts chunks)).0))
      × ((forward_chunks k buffer chunks f).1 ≡ (feed_all buffer (texts chunks)).1)
unfolding forward_chunks feed_all
written-forward_chunks k buffer [] f = (sym (append-nil f.written), refl)
written-forward_chunks k buffer ((now, c) ∷ cs) f =
    let events = (feed buffer c).0 in
    let (written, left) =
      written-forward_chunks k (feed buffer c).1 cs (forward_events k now events f) in
    (
      written
          ∙ ap
              (λ w.
                w ++ map frame (filter (for_client k) (feed_all (feed buffer c).1 (texts cs)).0))
              (written-forward_events k now events f)
          ∙ append_assoc f.written _ _
          ∙ ap (λ w. f.written ++ w)
              (sym (map-filter_append k events (feed_all (feed buffer c).1 (texts cs)).0)),
      left,
    )

abbrev pub nonempty : Text → List Text
nonempty [] = []
nonempty (c ∷ s) = (c ∷ s) ∷ []

written-flush : (f : Forward) (rest : Text) → (flush (f, rest)).written ≡ f.written ++ nonempty rest
written-flush f [] = sym (append-nil f.written)
written-flush f (c ∷ s) = refl

-- Of a stream that ends, a client gets, in order, each complete event that the provider does not keep for
-- itself, with its blank line, then what is left behind the last blank line, if anything is, and nothing
-- else. The rest is written as it is, without being read as an event, so that a provider's own event
-- that lacks its blank line does reach the client.
pub written-flush_chunks :
    (k : Codec) (chunks : List (ℕ × Text)) (f : Forward)
    → let (events, rest) = feed_all [] (texts chunks) in
      (flush (forward_chunks k [] chunks f)).written
      ≡ f.written ++ (map frame (filter (for_client k) events) ++ nonempty rest)
written-flush_chunks k chunks f =
    let (written, left) = written-forward_chunks k [] chunks f in
    let (g, rest) = forward_chunks k [] chunks f in
    written-flush g rest ∙ rw (written, left) (append_assoc f.written _ _)
