-- ===== src/Sse.antt =====
-- dashboard/src/proxy.js: the framing of server-sent events. Chunks are texts, as the TextDecoder of
-- the code makes them.
mod Framing
pub mod Chunks
pub mod Events
pub mod Lines
mod Tests
use swiftlm_platform.Base.{
  ℕ, zero, suc, ◌+◌, Bool, true, false, ◌&&◌, Option, none, some, List, [], ◌∷◌, ◌++◌, Text, codes,
  newline, eqb, length, take, drop, filter, find, map, join_lines, starts_with, trim, trim_start,
  if◌then◌else◌,
}

abbrev pub carriage_return : ℕ
carriage_return = 13

-- `replace(/\r\n/g, "\n")`
unfoldable pub strip_crlf : Text → Text
strip_crlf [] = []
strip_crlf (c ∷ []) = c ∷ []
strip_crlf (c ∷ d ∷ s) =
    let rest = strip_crlf (d ∷ s) in
    if eqb c carriage_return && eqb d newline then rest else c ∷ rest

-- `split("\n")`
abbrev cons_head : ℕ → List Text → List Text
cons_head c [] = (c ∷ []) ∷ []
cons_head c (l ∷ ls) = (c ∷ l) ∷ ls

unfoldable pub split_lines : Text → List Text
split_lines [] = [] ∷ []
split_lines (c ∷ s) =
    let rest = split_lines s in if eqb c newline then [] ∷ rest else cons_head c rest

abbrev event_prefix : Text
event_prefix = codes "event:"

abbrev data_prefix : Text
data_prefix = codes "data:"

abbrev name_of : Option Text → Option Text
name_of none = none
name_of (some line) = some (trim (drop 6 line))

unfoldable pub sse_event_name : Text → Option Text
unfolding split_lines trim
sse_event_name event = name_of (find (starts_with event_prefix) (split_lines event))

unfoldable pub sse_data : Text → Text
unfolding split_lines trim
sse_data event =
    join_lines (
      map (λ line. trim_start (drop 5 line)) (filter (starts_with data_prefix) (split_lines event)))

-- `buffer.indexOf("\n\n")`
abbrev bump : Option ℕ → Option ℕ
bump none = none
bump (some i) = some (suc i)

unfoldable pub index_of_break : Text → Option ℕ
index_of_break [] = none
index_of_break (c ∷ []) = none
index_of_break (c ∷ d ∷ s) =
    let later = index_of_break (d ∷ s) in
    if eqb c newline && eqb d newline then some 0 else bump later

-- `while ((boundary = buffer.indexOf("\n\n")) >= 0) …`: the events in order, and what is left.
unfoldable pub drain : ℕ → Text → List Text × Text
drain zero buffer = ([], buffer)
drain (suc fuel) buffer = elim (index_of_break buffer) [
  | none ↦ ([], buffer)
  | some i ↦ let (events, rest) = drain fuel (drop (i + 2) buffer) in (take i buffer ∷ events, rest)
]

-- Each round takes two units at least, so the length is fuel enough.
unfoldable pub drain_buffer : Text → List Text × Text
unfolding drain index_of_break
drain_buffer buffer = drain (length buffer) buffer

-- One round of the outer loop: a chunk joins the buffer, and the complete events leave it.
unfoldable pub feed : Text → Text → List Text × Text
unfolding drain_buffer strip_crlf
feed buffer chunk = drain_buffer (buffer ++ strip_crlf chunk)

unfoldable pub feed_all : Text → List Text → List Text × Text
unfolding feed
feed_all buffer [] = ([], buffer)
feed_all buffer (c ∷ cs) =
    let (events, rest) = feed buffer c in
    let (more, left) = feed_all rest cs in (events ++ more, left)
