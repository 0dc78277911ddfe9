-- ===== src/MessageQueue/Tests.antt =====
-- An instance of the theorem on dashboard/public/message-queue.js.
use swiftlm_platform.Base.{◌≤◌, ◌≡◌, List, [], ◌∷◌, ◌++◌, codes, length, arith}
use swiftlm_platform.MessageQueue.{Entry}
use swiftlm_platform.MessageQueue.Order.{
  Call, enqueues, takes, after, accepted, handed_out, first_in_first_out,
}

abbrev one : Entry
one = record { conversation_id = codes "c"; content = codes "1" }

abbrev two : Entry
two = record { conversation_id = codes "c"; content = codes "2" }

abbrev calls : List Call
calls = enqueues one ∷ enqueues two ∷ takes ∷ enqueues two ∷ []

first_in_first_out_example :
    ([] ++ accepted 1 calls [] ≡ handed_out 1 calls [] ++ after 1 calls [])
    × (length (after 1 calls []) ≤ 1)
first_in_first_out_example = first_in_first_out 1 calls [] (omega arith)
