-- ===== src/Sse/Lines.antt =====
-- dashboard/src/proxy.js: an event of two lines, as one chunk brings it.
use mathlib.Core.List.{append_assoc}
use swiftlm_platform.Base.{
  take-length, ℕ, suc, ◌+◌, ◌≡◌, ◌≢◌, refl, sym, ap, ◌∙◌, some, [], ◌∷◌, ◌++◌, Text, newline,
  length, length-append, arith,
}
use swiftlm_platform.Sse.{index_of_break, drain_buffer, feed, strip_crlf, split_lines}
use swiftlm_platform.Sse.Framing.{drain_fuel, drain-none, drain-some}
use swiftlm_platform.Sse.Chunks.{feed_lem}
use swiftlm_platform.Sse.Events.{Plain, strip-Plain, index_found, drop-length}

index_line :
    (p s : Text) (c i : ℕ)
    → Plain p
    → c ≢ newline
    → index_of_break (c ∷ s) ≡ some i
    → index_of_break (p ++ (newline ∷ c ∷ s)) ≡ some (length p + 1 + i)
unfolding index_of_break
index_line [] s c i h ne e = ground (arith, e)
index_line (x ∷ []) s c i h ne e = ground (arith, index_line [] s c i tt ne e, e)
index_line (x ∷ y ∷ p) s c i h ne e = ground (arith, index_line (y ∷ p) s c i h.1 ne e)

pub split_lines-Plain : (q : Text) → Plain q → split_lines q ≡ q ∷ []
unfolding split_lines
split_lines-Plain [] h = refl
split_lines-Plain (c ∷ q) h = ground (arith, split_lines-Plain q h.1)

pub split_lines-append :
    (p q : Text) → Plain p → Plain q → split_lines (p ++ (newline ∷ q)) ≡ p ∷ q ∷ []
unfolding split_lines
split_lines-append [] q h k = ground (arith, split_lines-Plain q k)
split_lines-append (c ∷ p) q h k = ground (arith, split_lines-append p q h.1 k)

strip_lines :
    (p q : Text) (c : ℕ)
    → Plain p
    → Plain (c ∷ q)
    → strip_crlf (p ++ (newline ∷ c ∷ (q ++ (newline ∷ newline ∷ []))))
      ≡ p ++ (newline ∷ c ∷ (q ++ (newline ∷ newline ∷ [])))
unfolding strip_crlf
strip_lines p q c h k =
    strip-Plain p (newline ∷ c ∷ (q ++ (newline ∷ newline ∷ []))) h
    ∙ ap (λ s. p ++ (newline ∷ s)) (strip-Plain (c ∷ q) (newline ∷ newline ∷ []) k)

-- A chunk of two lines and a blank line is one event, and leaves nothing in the buffer.
pub feed-lines :
    (p q : Text) (c : ℕ)
    → Plain p
    → Plain (c ∷ q)
    → feed [] (p ++ (newline ∷ c ∷ (q ++ (newline ∷ newline ∷ []))))
      ≡ ((p ++ (newline ∷ c ∷ q)) ∷ [], [])
unfolding drain_buffer index_of_break
feed-lines p q c h k =
    let a = p ++ (newline ∷ c ∷ q) in
    let s = a ++ (newline ∷ newline ∷ []) in
    let whole : p ++ (newline ∷ c ∷ (q ++ (newline ∷ newline ∷ []))) ≡ s =
      sym (append_assoc p (newline ∷ c ∷ q) (newline ∷ newline ∷ [])) in
    let long : length a ≡ length p + 1 + length (c ∷ q) =
      length-append p (newline ∷ c ∷ q) ∙ omega arith in
    let found : index_of_break s ≡ some (length a) =
      ap index_of_break (sym whole)
      ∙ index_line p (q ++ (newline ∷ newline ∷ [])) c (length (c ∷ q)) h k.0.1
          (index_found (c ∷ q) [] k)
      ∙ ap some (sym long) in
    feed_lem [] _
    ∙ ap drain_buffer (strip_lines p q c h k ∙ whole)
    ∙ drain_fuel (length s) (suc (length s)) s (omega arith) (omega arith)
    ∙ drain-some (length s) s (length a) found
    ∙ rw
        (
          take-length a (newline ∷ newline ∷ []),
          drop-length a newline newline [],
          drain-none (length s) [] refl,
        )
        refl
