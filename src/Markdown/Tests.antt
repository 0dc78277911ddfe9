-- ===== src/Markdown/Tests.antt =====
-- Runs and instances of the theorems on dashboard/public/markdown-enhancer.js.
use swiftlm_platform.Base.{
  All, ◌≡◌, refl, true, [], ◌∷◌, codes, split, trim, trim_start, is_space, text_discrete,
  ℕ_discrete,
}
use swiftlm_platform.Markdown.{
  normalize, split_stable_markdown, update, finish, create_streaming_markdown_renderer, is_fence,
  is_table_divider, split_table_row, safe_href, escape_html, is_safe,
}
use swiftlm_platform.Markdown.Escaping.{IsHarmless, safe_href-IsHarmless}
use swiftlm_platform.Markdown.Streaming.{joined, updates, joined-finish}

running_markdown : Unit {0}
unfolding normalize split_stable_markdown split is_fence trim trim_start is_space update finish
    is_table_divider split_table_row safe_href escape_html text_discrete ℕ_discrete
running_markdown = tt

script_refused : safe_href (codes "javascript:x") ≡ codes "#"
unfolding running_markdown
script_refused = refl

divider : is_table_divider (codes "| --- |:---:|") ≡ true
unfolding running_markdown
divider = refl

cells : split_table_row (codes "| a | b |") ≡ codes "a" ∷ codes "b" ∷ []
unfolding running_markdown
cells = refl

-- The empty text behind a line break counts as a blank line: a line is completed with its line break.
line_completed : split_stable_markdown (codes "a\n") ≡ (codes "a\n", [])
unfolding running_markdown
line_completed = refl

paragraph_pending : split_stable_markdown (codes "a\nb") ≡ ([], codes "a\nb")
unfolding running_markdown
paragraph_pending = refl

joined-finish_example :
    (joined
        (finish
          (codes "a\r\nb")
          (updates (codes "a\r\n" ∷ codes "a\r\nb" ∷ []) create_streaming_markdown_renderer)).blocks
      ≡ codes "a\nb")
    × ((finish (codes "a\r\nb") (
          updates (codes "a\r\n" ∷ codes "a\r\nb" ∷ []) create_streaming_markdown_renderer)).pending
        ≡ [])
unfolding normalize
joined-finish_example =
    joined-finish (codes "a\r\nb") (codes "a\r\n" ∷ codes "a\r\nb" ∷ [])
      ((codes "b", refl), (([], refl), tt))

safe_href-IsHarmless_example :
    (is_safe (codes "/a&amp;b") ≡ true) × All IsHarmless (codes "/a&amp;b")
unfolding running_markdown
safe_href-IsHarmless_example = safe_href-IsHarmless (codes " /a&b")
