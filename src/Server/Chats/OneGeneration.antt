-- ===== src/Server/Chats/OneGeneration.antt =====
-- How many answers are generated at once in dashboard/src/server.js.
use swiftlm_platform.Base.{
  ℕ, ◌≡◌, refl, Bool, true, false, List, [], ◌∷◌, Text, ◌==◌, filter, update_where, arith,
  any-filter-false, Option-cases, inl, inr,
}
use swiftlm_platform.Store.Conversations.{get_conversation}
use swiftlm_platform.Server.{Config}
use swiftlm_platform.Server.Chats.{
  Generation, World, generating, ChatBody, create_chat, change_target, delete_chat, stop, Draws,
  begin_message, end_message,
}

pub data ChatStep : Type 0 where
  creates : Text → Text → ChatBody → ℕ → ChatStep
  retargets : Text → Text → Text → ℕ → ChatStep
  deletes : Text → ChatStep
  stops : Text → ChatStep
  begins : Text → Text → Draws → ChatStep
  ends : Text → ℕ → ChatStep

abbrev pub chat_step : Config → ChatStep → World → World
chat_step cfg (creates id prompt b now) w = (create_chat cfg id prompt b now w).0
chat_step cfg (retargets id node_id model now) w = (change_target id node_id model now w).0
chat_step cfg (deletes id) w = (delete_chat id w).0
chat_step cfg (stops id) w = (stop id w).0
chat_step cfg (begins id content d) w = (begin_message cfg id content d w).0
chat_step cfg (ends id controller) w = end_message id controller w

abbrev pub OnePerConversation : List Generation → Type 0
OnePerConversation [] = Unit
OnePerConversation (g ∷ gs) = (generating g.conversation_id gs ≡ false) × OnePerConversation gs

generating-abort :
    (id k : Text) (gs : List Generation)
    → generating k
        (update_where (λ g. g.conversation_id == id) (λ g. record g { aborted = true }) gs)
      ≡ generating k gs
generating-abort id k [] = refl
generating-abort id k (g ∷ gs) = ground (arith, generating-abort id k gs)

abort-OnePerConversation :
    (id : Text) (gs : List Generation)
    → OnePerConversation gs
    → OnePerConversation
        (update_where (λ g. g.conversation_id == id) (λ g. record g { aborted = true }) gs)
abort-OnePerConversation id [] h = h
abort-OnePerConversation id (g ∷ gs) h =
    ground (arith, abort-OnePerConversation id gs h.1, generating-abort id g.conversation_id gs)

filter-OnePerConversation :
    (p : Generation → Bool) (gs : List Generation)
    → OnePerConversation gs
    → OnePerConversation (filter p gs)
filter-OnePerConversation p [] h = h
filter-OnePerConversation p (g ∷ gs) h = ground (
  arith,
  filter-OnePerConversation p gs h.1,
  any-filter-false (λ (x : Generation). x.conversation_id == g.conversation_id) p gs h.0,
)

begin-OnePerConversation :
    (cfg : Config) (id content : Text) (d : Draws) (w : World)
    → OnePerConversation w.active
    → OnePerConversation (begin_message cfg id content d w).0.active
unfolding begin_message
begin-OnePerConversation cfg id content d w h = elim (Option-cases (get_conversation id w.store)) [
  | inl e ↦ ground arith
  | inr (t, e) ↦ ground arith
]

-- Every request to the handlers of conversations, and every end of a generation, keeps it so that
-- each conversation has at most one answer that is being generated.
pub step-OnePerConversation :
    (cfg : Config) (c : ChatStep) (w : World)
    → OnePerConversation w.active
    → OnePerConversation (chat_step cfg c w).active
unfolding create_chat change_target delete_chat stop end_message
step-OnePerConversation cfg (creates id prompt b now) w h = h
step-OnePerConversation cfg (retargets id node_id model now) w h = ground arith
step-OnePerConversation cfg (deletes id) w h = h
step-OnePerConversation cfg (stops id) w h = ground (arith, abort-OnePerConversation id w.active h)
step-OnePerConversation cfg (begins id content d) w h =
    begin-OnePerConversation cfg id content d w h
step-OnePerConversation cfg (ends id controller) w h = filter-OnePerConversation _ w.active h
