-- ===== src/Markdown/Streaming.antt =====
-- dashboard/public/markdown-enhancer.js: what the blocks of a streamed answer show together.
use mathlib.Core.List.{append_assoc, append-nil}
use swiftlm_platform.Base.{
  take-append, take-length, ◌≤◌, ◌≡◌, refl, sym, ap, ◌∙◌, inl, inr, Bool, false, List, [], ◌∷◌,
  ◌++◌, Text, All, arith, Bool-cases, take, drop, length, length-append, take-append-drop, ltb, eqb,
}
use swiftlm_platform.Markdown.{
  Renderer, normalize, with_line_feeds, line_unit, split_stable_markdown, append_completed, advance,
  update, finish, create_streaming_markdown_renderer, stable_end_of,
}

-- The blocks' sources, one behind the other.
abbrev pub joined : List Text → Text
joined [] = []
joined (t ∷ ts) = t ++ joined ts

abbrev pub IsPrefix : Text → Text → Type 0
IsPrefix s t = (r : Text) × (t ≡ s ++ r)

joined-append : (ts : List Text) (t : Text) → joined (ts ++ (t ∷ [])) ≡ joined ts ++ t
joined-append [] t = append-nil t
joined-append (s ∷ ts) t =
    ap (λ r. s ++ r) (joined-append ts t) ∙ sym (append_assoc s (joined ts) t)

with_line_feeds-append :
    (p : Bool) (s t : Text) → IsPrefix (with_line_feeds p s) (with_line_feeds p (s ++ t))
with_line_feeds-append p [] t = (with_line_feeds p t, refl)
with_line_feeds-append p (c ∷ s) t =
    let (r, e) = with_line_feeds-append (eqb c 13) s t in
    (
      r,
      ap (λ x. line_unit p c ++ x) e
          ∙ sym (append_assoc (line_unit p c) (with_line_feeds (eqb c 13) s) r),
    )

-- More text never changes how the text before it is normalized.
normalize-IsPrefix : (s t : Text) → IsPrefix s t → IsPrefix (normalize s) (normalize t)
unfolding normalize
normalize-IsPrefix s t (r, e) = rw e (with_line_feeds-append false s r)

joined-append_completed :
    (source : Text) (r : Renderer)
    → joined (append_completed source r).blocks ≡ joined r.blocks ++ source
joined-append_completed [] r = sym (append-nil (joined r.blocks))
joined-append_completed (c ∷ s) r = joined-append r.blocks (c ∷ s)

-- The blocks show what has been rendered of a text.
abbrev Shows : Text → Renderer → Type 0
Shows t r = (r.rendered_length ≤ length t) × (joined r.blocks ≡ take r.rendered_length t)

advance-Shows :
    (t completed rest : Text) (r : Renderer)
    → t ≡ completed ++ rest
    → Shows t r
    → Shows t (advance completed r)
advance-Shows t completed rest r e (le, shown) =
    let n = r.rendered_length in
    elim (Bool-cases (ltb n (length completed))) [
      | inl q ↦
          let before = shown ∙ ap (take n) e ∙ take-append n completed rest (ground arith) in
          rw q (
            rw e (omega (arith, length-append completed rest)),
            joined-append_completed (drop n completed) r
                ∙ ap (λ x. x ++ drop n completed) before
                ∙ take-append-drop n completed
                ∙ sym (ap (take (length completed)) e ∙ take-length completed rest),
          )
      | inr q ↦ rw q (le, shown)
    ]

update-Shows :
    (final source : Text) (r : Renderer)
    → IsPrefix source final
    → Shows (normalize final) r
    → Shows (normalize final) (update source r)
unfolding update split_stable_markdown
update-Shows final source r prefix shows =
    let text = normalize source in
    let end = stable_end_of text in
    let (rest, e) = normalize-IsPrefix source final prefix in
    let whole : normalize final ≡ take end text ++ (drop end text ++ rest) =
      e
      ∙ ap (λ x. x ++ rest) (sym (take-append-drop end text))
      ∙ append_assoc (take end text) (drop end text) rest in
    advance-Shows (normalize final) (take end text) (drop end text ++ rest) r whole shows

abbrev pub updates : List Text → Renderer → Renderer
updates [] r = r
updates (s ∷ ss) r = updates ss (update s r)

updates-Shows :
    (final : Text) (sources : List Text) (r : Renderer)
    → All (λ s. IsPrefix s final) sources
    → Shows (normalize final) r
    → Shows (normalize final) (updates sources r)
updates-Shows final [] r prefixes shows = shows
updates-Shows final (s ∷ ss) r prefixes shows =
    updates-Shows final ss (update s r) prefixes.1 (update-Shows final s r prefixes.0 shows)

-- Whatever pieces an answer comes in, and whenever its page is updated, the blocks that are shown at its
-- end are made of exactly its text, with line feeds for every line break, and nothing is left pending.
-- Every update shows a beginning of the answer.
pub joined-finish :
    (final : Text) (sources : List Text)
    → All (λ s. IsPrefix s final) sources
    → let r = finish final (updates sources create_streaming_markdown_renderer) in
      (joined r.blocks ≡ normalize final) × (r.pending ≡ [])
unfolding finish
joined-finish final sources prefixes =
    let r = updates sources create_streaming_markdown_renderer in
    let (le, shown) =
      updates-Shows final sources create_streaming_markdown_renderer prefixes (omega arith, refl) in
    let n = r.rendered_length in
    let t = normalize final in
    (
      joined-append_completed (drop n t) r ∙ ap (λ x. x ++ drop n t) shown ∙ take-append-drop n t,
      refl,
    )
