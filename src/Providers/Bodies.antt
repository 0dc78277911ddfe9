-- ===== src/Providers/Bodies.antt =====
-- dashboard/src/providers.js: what each backend is sent of a request's JSON. An object is its fields in
-- the order in which they are set; keys that are numbers, which come first in JavaScript, stand in that
-- order too. A number is its JSON text.
use swiftlm_platform.Base.{
  ℕ, ◌+◌, Bool, true, false, not, Option, none, some, [], ◌∷◌, Text, codes, ◌==◌, is_empty,
  if◌then◌else◌,
}
use swiftlm_platform.Providers.{Provider, swiftlm, vllm, llamacpp, generic}

mutual
  pub data Json : Type 0 where
    null : Json
    flag : Bool → Json
    number text : Text → Json
    array : Items → Json
    object : Fields → Json

  pub data Items : Type 0 where
    no_item : Items
    item : Json → Items → Items

  pub data Fields : Type 0 where
    no_field : Fields
    field : Text → Json → Fields → Fields

abbrev pub get : Text → Fields → Option Json
get k no_field = none
get k (field l v fs) = if l == k then some v else get k fs

abbrev pub is_there : Option Json → Bool
is_there none = false
is_there (some v) = true

abbrev pub has : Text → Fields → Bool
has k fs = is_there (get k fs)

-- `{ ...fs, k: v }`: a key that is there keeps its place.
unfoldable pub set : Text → Json → Fields → Fields
set k v no_field = field k v no_field
set k v (field l w fs) = let rest = set k v fs in if l == k then field l v fs else field l w rest

unfoldable pub remove : Text → Fields → Fields
remove k no_field = no_field
remove k (field l v fs) = let rest = remove k fs in if l == k then rest else field l v rest

-- `{ ...fs, ...gs }`
unfoldable pub merge : Fields → Fields → Fields
merge fs no_field = fs
merge fs (field k v gs) = merge (set k v fs) gs

-- `String(i)`, which names the places of an array or a string that is spread.
module _ (index : ℕ → Text) where
  abbrev places : ℕ → Items → Fields
  places i no_item = no_field
  places i (item v vs) = field (index i) v (places (i + 1) vs)

  abbrev units : ℕ → Text → Fields
  units i [] = no_field
  units i (c ∷ s) = field (index i) (text (c ∷ [])) (units (i + 1) s)

  -- `...v` in an object.
  abbrev pub spread : Json → Fields
  spread null = no_field
  spread (flag b) = no_field
  spread (number n) = no_field
  spread (text s) = units 0 s
  spread (array vs) = places 0 vs
  spread (object fs) = fs

  abbrev pub spread_field : Option Json → Fields
  spread_field none = no_field
  spread_field (some v) = spread v

  unfoldable pub with_include_usage : Fields → Fields
  unfolding set
  with_include_usage body =
      set (codes "stream_options")
        (object (
          set (codes "include_usage") (flag true)
            (spread_field (get (codes "stream_options") body))))
        body

  -- `Boolean(v)`
  abbrev is_truthy : Json → Bool
  is_truthy null = false
  is_truthy (flag b) = b
  is_truthy (number n) = not (n == codes "0")
  is_truthy (text s) = not (is_empty s)
  is_truthy (array vs) = true
  is_truthy (object fs) = true

  unfoldable pub without_thinking : Fields → Fields
  unfolding remove
  without_thinking body =
      if not (has (codes "enable_thinking") body)
      then body
      else remove (codes "enable_thinking") body

  abbrev pub template_thinking : Fields → Json → Fields
  template_thinking rest thinking =
      set (codes "chat_template_kwargs")
        (object (
          merge (field (codes "enable_thinking") (flag (is_truthy thinking)) no_field)
            (spread_field (get (codes "chat_template_kwargs") rest))))
        rest

  abbrev pub templated : Fields → Option Json → Fields
  templated body none = body
  templated body (some thinking) =
      template_thinking (remove (codes "enable_thinking") body) thinking

  unfoldable pub as_template_thinking : Fields → Fields
  unfolding remove set merge
  as_template_thinking body = templated body (get (codes "enable_thinking") body)

  abbrev pub prepare_body : Provider → Fields → Fields
  prepare_body swiftlm body = body
  prepare_body vllm body = as_template_thinking body
  prepare_body llamacpp body = without_thinking body
  prepare_body generic body = without_thinking body

  abbrev with_usage_if : Bool → Json → Fields → Json
  with_usage_if stream prepared fields =
      if stream then object (with_include_usage fields) else prepared

  -- Null, and what is no object, is left alone; an array has no field of these names.
  unfoldable pub prepare_request_body : Provider → Json → Bool → Json
  unfolding with_include_usage without_thinking as_template_thinking
  prepare_request_body p null stream = null
  prepare_request_body p (flag b) stream = flag b
  prepare_request_body p (number n) stream = number n
  prepare_request_body p (text s) stream = text s
  prepare_request_body p (array vs) stream = with_usage_if stream (array vs) (places 0 vs)
  prepare_request_body p (object fs) stream =
      with_usage_if stream (object (prepare_body p fs)) (prepare_body p fs)
