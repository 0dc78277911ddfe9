-- ===== src/MessageQueue/Order.antt =====
-- The queue of dashboard/public/message-queue.js is first in, first out, and bounded.
use mathlib.Core.List.{append_assoc, append-nil}
use swiftlm_platform.Base.{
  ℕ, ◌≤◌, ◌≡◌, refl, sym, ap, ◌∙◌, Bool, true, false, Option, none, some, List, [], ◌∷◌, ◌++◌,
  length, length-append, arith,
}
use swiftlm_platform.MessageQueue.{Entry, enqueue, take}

pub data Call : Type 0 where
  enqueues : Entry → Call
  takes : Call

abbrev pub call : ℕ → Call → List Entry → List Entry
call limit (enqueues e) q = (enqueue limit e q).0
call limit takes q = (take q).0

-- What a call lets in, and what it gives out.
abbrev one_if : Bool → Entry → List Entry
one_if true e = e ∷ []
one_if false e = []

abbrev listed : Option Entry → List Entry
listed none = []
listed (some e) = e ∷ []

abbrev pub after : ℕ → List Call → List Entry → List Entry
after limit [] q = q
after limit (c ∷ cs) q = after limit cs (call limit c q)

abbrev entered : ℕ → Call → List Entry → List Entry
entered limit (enqueues e) q = one_if (enqueue limit e q).1 e
entered limit takes q = []

abbrev left : Call → List Entry → List Entry
left (enqueues e) q = []
left takes q = listed (take q).1

-- The entries that were accepted, and those that were handed out, in the order of the calls.
abbrev pub accepted : ℕ → List Call → List Entry → List Entry
accepted limit [] q = []
accepted limit (c ∷ cs) q = entered limit c q ++ accepted limit cs (call limit c q)

abbrev pub handed_out : ℕ → List Call → List Entry → List Entry
handed_out limit [] q = []
handed_out limit (c ∷ cs) q = left c q ++ handed_out limit cs (call limit c q)

call-balance :
    (limit : ℕ) (c : Call) (q : List Entry) → q ++ entered limit c q ≡ left c q ++ call limit c q
unfolding enqueue take
call-balance limit (enqueues e) q = ground (arith, append-nil q)
call-balance limit takes [] = refl
call-balance limit takes (e ∷ q) = ap (λ t. e ∷ t) (append-nil q)

call-bound :
    (limit : ℕ) (c : Call) (q : List Entry) → length q ≤ limit → length (call limit c q) ≤ limit
unfolding enqueue take
call-bound limit (enqueues e) q h = ground (arith, length-append q (e ∷ []))
call-bound limit takes [] h = h
call-bound limit takes (e ∷ q) h = ground arith

-- From a queue within its limit, any calls hand out exactly the entries that were in it or have been
-- accepted, in that order, but for those that still wait; and the limit holds after them.
pub first_in_first_out :
    (limit : ℕ) (cs : List Call) (q : List Entry)
    → length q ≤ limit
    → (q ++ accepted limit cs q ≡ handed_out limit cs q ++ after limit cs q)
      × (length (after limit cs q) ≤ limit)
first_in_first_out limit [] q h = (append-nil q, h)
first_in_first_out limit (c ∷ cs) q h =
    let (order, bound) = first_in_first_out limit cs (call limit c q) (call-bound limit c q h) in
    (
      sym (append_assoc q (entered limit c q) (accepted limit cs (call limit c q)))
          ∙ ap (λ t. t ++ accepted limit cs (call limit c q)) (call-balance limit c q)
          ∙ append_assoc (left c q) (call limit c q) (accepted limit cs (call limit c q))
          ∙ ap (λ t. left c q ++ t) order
          ∙ sym (
              append_assoc (left c q) (handed_out limit cs (call limit c q))
                (after limit cs (call limit c q))),
      bound,
    )
