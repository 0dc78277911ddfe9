-- ===== src/MessageQueue.antt =====
-- dashboard/public/message-queue.js: the messages that wait in the browser while a model generates.
mod Order
mod Tests
use swiftlm_platform.Base.{
  ℕ, Bool, true, false, Option, none, some, List, [], ◌∷◌, ◌++◌, Text, ◌==◌, leb, length, filter,
  if◌then◌else◌,
}

pub record Entry : Type 0 where
  pub conversation_id : Text
  pub content : Text

abbrev pub max_queued_messages : ℕ
max_queued_messages = 20

unfoldable pub enqueue : ℕ → Entry → List Entry → List Entry × Bool
enqueue limit e entries =
    if leb limit (length entries) then (entries, false) else (entries ++ (e ∷ []), true)

unfoldable pub take : List Entry → List Entry × Option Entry
take [] = ([], none)
take (e ∷ entries) = (entries, some e)

unfoldable pub count_for : Text → List Entry → ℕ
count_for id entries = length (filter (λ e. e.conversation_id == id) entries)
