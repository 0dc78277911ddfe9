-- ===== src/Providers/Tests.antt =====
-- Runs and instances of the theorems on dashboard/src/providers.js.
use swiftlm_platform.Base.{
  ℕ, ◌≡◌, refl, ap, true, false, ◌&&◌, ◌||◌, [], ◌∷◌, Text, codes, arith, text_discrete,
}
use swiftlm_platform.Providers.{vllm}
use swiftlm_platform.Providers.Bodies.{
  text, flag, object, Fields, no_field, field, get, has, set, remove, merge, prepare_request_body,
}
use swiftlm_platform.Providers.Rewriting.{is_native, asks_usage, prepare_request_body-get}

abbrev index : ℕ → Text
index i = i ∷ []

abbrev request : Fields
request =
    field (codes "model") (text (codes "m")) (field (codes "enable_thinking") (flag true) no_field)

thinking_moves :
    prepare_request_body index vllm (object request) false
    ≡ object (
        field (codes "model") (text (codes "m")) (
          field
            (codes "chat_template_kwargs")
            (object (field (codes "enable_thinking") (flag true) no_field))
            no_field))
unfolding prepare_request_body set remove merge text_discrete
thinking_moves = refl

abbrev first_unit : Text → ℕ
first_unit [] = 0
first_unit (c ∷ s) = c

prepare_request_body-get_example :
    (gs : Fields) × (prepare_request_body index vllm (object request) true ≡ object gs)
    × (get (codes "model") gs ≡ get (codes "model") request)
    × (asks_usage gs ≡ true || asks_usage request)
    × (has (codes "enable_thinking") gs ≡ is_native vllm && has (codes "enable_thinking") request)
prepare_request_body-get_example =
    prepare_request_body-get index vllm request true (codes "model")
      (λ e. absurd (omega (arith, ap first_unit e))) (λ e. absurd (omega (arith, ap first_unit e)))
      (λ e. absurd (omega (arith, ap first_unit e)))
