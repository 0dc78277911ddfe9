-- ===== src/Markdown.antt =====
-- dashboard/public/markdown-enhancer.js: how an answer that is still coming in is shown, the texts that
-- get into its page, and the cells of its tables. What `renderMarkdown` makes of a block is left out: a
-- block is its source.
pub mod Streaming
pub mod Escaping
mod Tests
use swiftlm_platform.Base.{
  ℕ, ◌+◌, Bool, true, false, not, ◌&&◌, ◌||◌, List, [], ◌∷◌, ◌++◌, Text, codes, ◌==◌, is_empty,
  split, trim, trim_start, starts_with, to_lower, eqb, leb, ltb, length, take, drop, map,
  if◌then◌else◌,
}

abbrev pub escaped : ℕ → Text
escaped c =
    if eqb c b'&'
    then codes "&amp;"
    else if eqb c b'<'
    then codes "&lt;"
    else if eqb c b'>'
    then codes "&gt;"
    else if eqb c 39
    then codes "&#39;"
    else if eqb c 34
    then codes "&quot;"
    else c ∷ []

unfoldable pub escape_html : Text → Text
escape_html [] = []
escape_html (c ∷ s) = escaped c ++ escape_html s

abbrev pub is_safe : Text → Bool
is_safe href =
    starts_with (codes "http:") (to_lower href)
    || starts_with (codes "https:") (to_lower href)
    || starts_with (codes "mailto:") (to_lower href)
    || starts_with (codes "/") href
    || starts_with (codes "#") href

unfoldable pub safe_href : Text → Text
unfolding trim escape_html
safe_href value = if is_safe (trim value) then escape_html (trim value) else codes "#"

-- `text.replace(/^\||\|$/g, "")`: a bar at the start and one at the end.
abbrev strip_first : Text → Text
strip_first [] = []
strip_first (c ∷ s) = if eqb c b'|' then s else c ∷ s

abbrev strip_last : Text → Text
strip_last [] = []
strip_last (c ∷ []) = if eqb c b'|' then [] else c ∷ []
strip_last (c ∷ d ∷ s) = c ∷ strip_last (d ∷ s)

abbrev row_cells : Text → List Text
row_cells line = split b'|' (strip_last (strip_first (trim line)))

unfoldable pub split_table_row : Text → List Text
unfolding split trim
split_table_row line = map trim (row_cells line)

abbrev drop_colon : Text → Text
drop_colon [] = []
drop_colon (c ∷ s) = if eqb c b':' then s else c ∷ s

-- `-{3,}:?` and nothing more.
abbrev dashes : ℕ → Text → Bool
dashes n [] = leb 3 n
dashes n (c ∷ s) =
    let more = dashes (n + 1) s in if eqb c b'-' then more else leb 3 n && eqb c b':' && is_empty s

abbrev every : (Text → Bool) → List Text → Bool
every p [] = true
every p (t ∷ ts) = p t && every p ts

unfoldable pub is_table_divider : Text → Bool
unfolding split trim
is_table_divider line = every (λ cell. dashes 0 (drop_colon (trim cell))) (row_cells line)

-- What stays of a unit, and whether the one before it is a carriage return.
abbrev pub line_unit : Bool → ℕ → Text
line_unit after_return c =
    if eqb c 13 then 10 ∷ [] else if eqb c 10 && after_return then [] else c ∷ []

abbrev pub with_line_feeds : Bool → Text → Text
with_line_feeds after_return [] = []
with_line_feeds after_return (c ∷ s) = line_unit after_return c ++ with_line_feeds (eqb c 13) s

-- `text.replace(/\r\n?/g, "\n")`
unfoldable pub normalize : Text → Text
normalize text = with_line_feeds false text

pub record Scan : Type 0 where
  pub fence_open : Bool
  pub stable_end : ℕ
  pub offset : ℕ

unfoldable pub is_fence : Text → Bool
unfolding trim_start
is_fence line = starts_with (codes "```") (trim_start line)

abbrev pub scan_line : Bool → Text → Scan → Scan
scan_line ends_with_newline line s =
    let line_end = s.offset + length line + (if ends_with_newline then 1 else 0) in
    if is_fence line
    then record {
      fence_open = not s.fence_open;
      stable_end = if s.fence_open then line_end else s.stable_end;
      offset = line_end;
    }
    else if not s.fence_open && is_empty (trim line)
    then record s { stable_end = line_end; offset = line_end }
    else record s { offset = line_end }

abbrev pub scan : List Text → Scan → Scan
scan [] s = s
scan (line ∷ []) s = scan_line false line s
scan (line ∷ next ∷ lines) s = scan (next ∷ lines) (scan_line true line s)

abbrev pub stable_end_of : Text → ℕ
stable_end_of text =
    (scan (split 10 text) (record { fence_open = false; stable_end = 0; offset = 0 })).stable_end

-- The completed part and the pending one.
unfoldable pub split_stable_markdown : Text → Text × Text
unfolding normalize split is_fence trim
split_stable_markdown source =
    let text = normalize source in (take (stable_end_of text) text, drop (stable_end_of text) text)

-- The element that shows an answer: its blocks by their sources, and the pending text.
pub record Renderer : Type 0 where
  pub blocks : List Text
  pub pending : Text
  pub rendered_length : ℕ

abbrev pub append_completed : Text → Renderer → Renderer
append_completed source r =
    if is_empty source then r else record r { blocks = r.blocks ++ (source ∷ []) }

abbrev pub advance : Text → Renderer → Renderer
advance completed r =
    if ltb r.rendered_length (length completed)
    then record (append_completed (drop r.rendered_length completed) r) {
      rendered_length = length completed;
    }
    else r

unfoldable pub update : Text → Renderer → Renderer
unfolding split_stable_markdown
update source r =
    let (completed, tail) = split_stable_markdown source in
    record (advance completed r) { pending = tail }

unfoldable pub finish : Text → Renderer → Renderer
unfolding normalize
finish source r = record (append_completed (drop r.rendered_length (normalize source)) r) {
  pending = [];
}

abbrev pub create_streaming_markdown_renderer : Renderer
create_streaming_markdown_renderer = record { blocks = []; pending = []; rendered_length = 0 }
