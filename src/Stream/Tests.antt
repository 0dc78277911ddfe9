-- ===== src/Stream/Tests.antt =====
-- Instances of the theorems on `streamDashboardChat` of dashboard/src/proxy.js.
use swiftlm_platform.Base.{
  ◌≡◌, true, false, not, ◌&&◌, none, some, List, [], ◌∷◌, codes, is_empty, trim, if◌then◌else◌,
}
use swiftlm_platform.Stream.{Codec, Stream}
use swiftlm_platform.Stream.Consuming.{
  Input, arrives, closes, take_all, start, finish, finish_throws, fail, left_over,
}
use swiftlm_platform.Stream.Disconnects.{kept, arrivals, disconnects_irrelevant}
use swiftlm_platform.Stream.Persistence.{
  last_or, completion_of, progress_up_to_date, completed_once,
}

-- A codec that reads each datum as the text of its delta.
abbrev codec : Codec
codec = record {
  parse = λ t. some (record { delta = t; usage = none; text = t });
  wrap = λ t. t;
  provider_event = λ name t. none;
}

abbrev inputs : List Input
inputs = arrives 2 (codes "data: a\n\nda") ∷ closes ∷ arrives 3 (codes "ta: b\n\n") ∷ []

disconnects_irrelevant_example :
    (kept (finish codec 4 (take_all codec inputs (start 1 true)))
      ≡ kept (finish codec 4 (take_all codec (arrivals inputs) (start 1 true))))
    × (kept (fail 4 true (codes "x") (take_all codec inputs (start 1 true)))
        ≡ kept (fail 4 true (codes "x") (take_all codec (arrivals inputs) (start 1 true))))
disconnects_irrelevant_example = disconnects_irrelevant codec 1 4 true (codes "x") inputs

progress_up_to_date_example :
    (last_or [] (take_all codec inputs (start 1 true)).progress
      ≡ (take_all codec inputs (start 1 true)).assistant)
    × ((take_all codec inputs (start 1 true)).completions ≡ [])
progress_up_to_date_example = progress_up_to_date codec 1 true inputs

abbrev read : Stream
read = take_all codec inputs (start 1 true)

completed_once_example :
    ((finish codec 4 read).completions ≡ (
      if is_empty (trim (left_over codec 4 read).assistant)
      then []
      else completion_of 4 true false (left_over codec 4 read) ∷ []))
    × ((fail 4 false (codes "x") read).completions ≡ (
        if is_empty (trim read.assistant) && not false
        then []
        else completion_of 4 false false read ∷ []))
    × ((finish_throws codec 4 5 false (codes "x") read).completions ≡ (
        if not (is_empty (trim (left_over codec 4 read).assistant))
        then completion_of 4 true false (left_over codec 4 read) ∷ []
        else if false
        then completion_of 5 false true (left_over codec 4 read) ∷ []
        else []))
completed_once_example = completed_once codec 1 4 5 false (codes "x") inputs
