-- ===== src/Providers/Rewriting.antt =====
-- dashboard/src/providers.js: what the rewriting of a request's JSON changes.
use swiftlm_platform.Base.{
  ◌≡◌, ◌≢◌, refl, sym, ap, ◌∙◌, inl, inr, Bool, true, false, ◌&&◌, ◌||◌, Option, none, some,
  Bool-cases, ◌∷◌, [], ℕ, Text, codes, ◌==◌, arith, if◌then◌else◌,
}
use swiftlm_platform.Providers.{Provider, swiftlm, vllm, llamacpp, generic}
use swiftlm_platform.Providers.Bodies.{
  Json, flag, object, Fields, no_field, field, get, has, set, remove, prepare_body,
  prepare_request_body, with_include_usage, without_thinking, as_template_thinking,
  template_thinking, templated, is_there,
}

get-set :
    (k l : Text) (v : Json) (fs : Fields)
    → get k (set l v fs) ≡ (if l == k then some v else get k fs)
unfolding set
get-set k l v no_field = ground arith
get-set k l v (field m w fs) = ground (arith, get-set k l v fs)

get-remove : (k l : Text) (fs : Fields) → get k (remove l fs) ≡ (if l == k then none else get k fs)
unfolding remove
get-remove k l no_field = ground arith
get-remove k l (field m w fs) = ground (arith, get-remove k l fs)

abbrev pub is_native : Provider → Bool
is_native swiftlm = true
is_native _ = false

get-set_other : (k l : Text) (v : Json) (fs : Fields) → k ≢ l → get k (set l v fs) ≡ get k fs
get-set_other k l v fs ne = ground (arith, get-set k l v fs)

get-set_same : (k : Text) (v : Json) (fs : Fields) → get k (set k v fs) ≡ some v
get-set_same k v fs = ground (arith, get-set k k v fs)

get-remove_same : (k : Text) (fs : Fields) → get k (remove k fs) ≡ none
get-remove_same k fs = ground (arith, get-remove k k fs)

get-remove_other : (k l : Text) (fs : Fields) → k ≢ l → get k (remove l fs) ≡ get k fs
get-remove_other k l fs ne = ground (arith, get-remove k l fs)

abbrev first_unit : Text → ℕ
first_unit [] = 0
first_unit (c ∷ s) = c

names_differ : codes "enable_thinking" ≢ codes "chat_template_kwargs"
names_differ e = absurd (omega (arith, ap first_unit e))

names_differ_too : codes "stream_options" ≢ codes "enable_thinking"
names_differ_too e = absurd (omega (arith, ap first_unit e))

options_differ : codes "stream_options" ≢ codes "chat_template_kwargs"
options_differ e = absurd (omega (arith, ap first_unit e))

-- Whether a request asks for the counts of tokens at the end of its stream.
abbrev is_asked : Option Json → Bool
is_asked (some (flag b)) = b
is_asked _ = false

abbrev counts_tokens : Option Json → Bool
counts_tokens (some (object fs)) = is_asked (get (codes "include_usage") fs)
counts_tokens _ = false

abbrev pub asks_usage : Fields → Bool
asks_usage fs = counts_tokens (get (codes "stream_options") fs)

module _ (index : ℕ → Text) where
  template_thinking-get :
      (k : Text) (rest : Fields) (thinking : Json)
      → k ≢ codes "chat_template_kwargs"
      → get k (template_thinking index rest thinking) ≡ get k rest
  template_thinking-get k rest thinking ne =
      get-set_other k (codes "chat_template_kwargs") _ rest ne

  get-templated_other :
      (k : Text) (fs : Fields) (o : Option Json)
      → k ≢ codes "enable_thinking"
      → k ≢ codes "chat_template_kwargs"
      → get k (templated index fs o) ≡ get k fs
  get-templated_other k fs none a b = refl
  get-templated_other k fs (some t) a b =
      template_thinking-get k (remove (codes "enable_thinking") fs) t b
      ∙ get-remove_other k (codes "enable_thinking") fs a

  get-templated :
      (fs : Fields) (o : Option Json)
      → get (codes "enable_thinking") fs ≡ o
      → get (codes "enable_thinking") (templated index fs o) ≡ none
  get-templated fs none e = e
  get-templated fs (some t) e =
      template_thinking-get (codes "enable_thinking") (remove (codes "enable_thinking") fs) t
        names_differ
      ∙ get-remove_same (codes "enable_thinking") fs

  without_thinking-get :
      (k : Text) (fs : Fields)
      → k ≢ codes "enable_thinking"
      → get k (without_thinking index fs) ≡ get k fs
  unfolding without_thinking
  without_thinking-get k fs ne = elim (Bool-cases (has (codes "enable_thinking") fs)) [
    | inl e ↦ rw e (get-remove_other k (codes "enable_thinking") fs ne)
    | inr e ↦ rw e refl
  ]

  without_thinking-has :
      (fs : Fields) → has (codes "enable_thinking") (without_thinking index fs) ≡ false
  unfolding without_thinking
  without_thinking-has fs = elim (Bool-cases (has (codes "enable_thinking") fs)) [
    | inl e ↦ rw e (ap is_there (get-remove_same (codes "enable_thinking") fs))
    | inr e ↦ rw (e, e) refl
  ]

  prepare_body-get :
      (p : Provider) (k : Text) (fs : Fields)
      → k ≢ codes "enable_thinking"
      → k ≢ codes "chat_template_kwargs"
      → get k (prepare_body index p fs) ≡ get k fs
  unfolding without_thinking as_template_thinking
  prepare_body-get swiftlm k fs a b = refl
  prepare_body-get vllm k fs a b = get-templated_other k fs (get (codes "enable_thinking") fs) a b
  prepare_body-get llamacpp k fs a b = without_thinking-get k fs a
  prepare_body-get generic k fs a b = without_thinking-get k fs a

  prepare_body-has :
      (p : Provider) (fs : Fields)
      → has (codes "enable_thinking") (prepare_body index p fs)
        ≡ is_native p && has (codes "enable_thinking") fs
  unfolding without_thinking as_template_thinking
  prepare_body-has swiftlm fs = refl
  prepare_body-has vllm fs = ap is_there (get-templated fs (get (codes "enable_thinking") fs) refl)
  prepare_body-has llamacpp fs = without_thinking-has fs
  prepare_body-has generic fs = without_thinking-has fs

  with_include_usage-asks : (fs : Fields) → asks_usage (with_include_usage index fs) ≡ true
  unfolding with_include_usage
  with_include_usage-asks fs =
      ap counts_tokens (get-set_same (codes "stream_options") _ fs)
      ∙ ap is_asked (get-set_same (codes "include_usage") (flag true) _)

  with_include_usage-get :
      (k : Text) (fs : Fields)
      → k ≢ codes "stream_options"
      → get k (with_include_usage index fs) ≡ get k fs
  unfolding with_include_usage
  with_include_usage-get k fs ne = get-set_other k (codes "stream_options") _ fs ne

-- What a backend is sent of a request's object is an object again. Every field but `enable_thinking`,
-- `chat_template_kwargs` and `stream_options` is as the client sent it; a streamed request asks for the
-- counts of tokens, and another one exactly if the client does; and only SwiftLM gets `enable_thinking`
-- as a field of the request, if the client sent it.
pub prepare_request_body-get :
    (index : ℕ → Text) (p : Provider) (fs : Fields) (stream : Bool) (k : Text)
    → k ≢ codes "enable_thinking"
    → k ≢ codes "chat_template_kwargs"
    → k ≢ codes "stream_options"
    → (gs : Fields) × (prepare_request_body index p (object fs) stream ≡ object gs)
      × (get k gs ≡ get k fs)
      × (asks_usage gs ≡ stream || asks_usage fs)
      × (has (codes "enable_thinking") gs ≡ is_native p && has (codes "enable_thinking") fs)
unfolding prepare_request_body
prepare_request_body-get index p fs true k a b c =
    let body = prepare_body index p fs in
    (
      with_include_usage index body,
      refl,
      with_include_usage-get index k body c ∙ prepare_body-get index p k fs a b,
      with_include_usage-asks index body,
      ap is_there (
            with_include_usage-get index (codes "enable_thinking") body
              (λ e. names_differ_too (sym e)))
          ∙ prepare_body-has index p fs,
    )
prepare_request_body-get index p fs false k a b c = (
  prepare_body index p fs,
  refl,
  prepare_body-get index p k fs a b,
  ap counts_tokens
      (prepare_body-get index p (codes "stream_options") fs names_differ_too options_differ),
  prepare_body-has index p fs,
)
