-- ===== src/Server/Input.antt =====
-- dashboard/src/server.js: how the handlers read what a request brings, and providers.js: the names
-- of what is supported. `new URL(text)` is that of the runtime.
pub mod Ids
use swiftlm_platform.Base.{
  ℕ, Bool, true, false, not, ◌&&◌, ◌||◌, Option, none, some, List, [], ◌∷◌, ◌++◌, Text, codes, ◌==◌,
  is_empty, or_else, trim, to_lower, slice_to, leb, eqb, length, any, reverse, if◌then◌else◌,
}

abbrev is_letter_or_digit : ℕ → Bool
is_letter_or_digit c =
    (leb b'0' c && leb c b'9') || (leb b'A' c && leb c b'Z') || (leb b'a' c && leb c b'z')

abbrev is_id_unit : ℕ → Bool
is_id_unit c = is_letter_or_digit c || eqb c b'_' || eqb c b'-'

abbrev all : (ℕ → Bool) → Text → Bool
all p [] = true
all p (c ∷ s) = p c && all p s

-- `/^[a-z0-9][a-z0-9_-]{1,62}$/i`
abbrev pub is_node_id : Text → Bool
is_node_id [] = false
is_node_id (c ∷ s) =
    is_letter_or_digit c && (all is_id_unit s && (leb 1 (length s) && leb (length s) 62))

unfoldable pub safe_node_id : Text → Text
unfolding trim
safe_node_id value = if is_node_id (trim value) then trim value else []

abbrev is_header_unit : ℕ → Bool
is_header_unit c = is_letter_or_digit c || eqb c b'-'

-- `/^[A-Za-z0-9][A-Za-z0-9-]{0,62}$/`
abbrev pub is_header_name : Text → Bool
is_header_name [] = false
is_header_name (c ∷ s) = is_letter_or_digit c && (all is_header_unit s && leb (length s) 62)

unfoldable pub safe_header_name : Text → Text
unfolding trim
safe_header_name value = if is_header_name (trim value) then trim value else []

-- A parsed URL; its text is the origin with the credentials, the path, and the query and fragment.
pub record Url : Type 0 where
  pub protocol : Text
  pub hostname : Text
  pub origin : Text
  pub pathname : Text
  pub rest : Text

abbrev pub href : Url → Text
href u = u.origin ++ (u.pathname ++ u.rest)

abbrev pub slash : ℕ
slash = b'/'

abbrev drop_slashes : Text → Text
drop_slashes [] = []
drop_slashes (c ∷ s) = let rest = drop_slashes s in if eqb c slash then rest else c ∷ s

abbrev drop_slash : Text → Text
drop_slash [] = []
drop_slash (c ∷ s) = if eqb c slash then s else c ∷ s

abbrev v1_reversed : Text → Bool
v1_reversed (a ∷ b ∷ c ∷ s) = eqb a b'1' && (eqb b b'v' && eqb c slash)
v1_reversed _ = false

abbrev accepted_url : Option Url → Text
accepted_url none = []
accepted_url (some u) =
    if not ((u.protocol == codes "https:") || (u.protocol == codes "http:")) || is_empty u.hostname
    then []
    else if not (v1_reversed (drop_slashes (reverse u.pathname)))
    then []
    else reverse (drop_slash (reverse (href u)))

unfoldable pub normalized_origin : (Text → Option Url) → Text → Text
unfolding trim
normalized_origin parse value = accepted_url (parse (trim value))

abbrev pub provider_ids : List Text
provider_ids = codes "swiftlm" ∷ codes "vllm" ∷ codes "llamacpp" ∷ codes "generic" ∷ []

abbrev pub protocols : List Text
protocols = codes "openai" ∷ []

abbrev pub supported_auth_types : List Text
supported_auth_types = codes "none" ∷ codes "bearer" ∷ codes "api_key_header" ∷ []

abbrev includes : List Text → Text → Bool
includes xs x = any (λ y. y == x) xs

unfoldable pub is_supported_provider : Text → Bool
is_supported_provider = includes provider_ids

unfoldable pub is_supported_protocol : Text → Bool
is_supported_protocol = includes protocols

unfoldable pub is_supported_auth_type : Text → Bool
is_supported_auth_type = includes supported_auth_types

unfoldable pub auth_requires_credential : Text → Bool
auth_requires_credential auth_type = not (or_else auth_type (codes "bearer") == codes "none")

pub record AuthBody : Type 0 where
  pub auth_type : Text
  pub auth_header : Text
  pub upstream_api_key : Text

pub record Auth : Type 0 where
  pub auth_type : Text
  pub auth_header : Option Text
  pub credential : Option Text

pub data AuthError : Type 0 where
  unsupported_type bad_header missing_credential : AuthError

pub data AuthResult : Type 0 where
  accepted : Auth → AuthResult
  refused : AuthError → AuthResult

abbrev header_of : Text → Text
header_of [] = []
header_of (c ∷ s) = safe_header_name (c ∷ s)

unfoldable pub parse_auth_input : AuthBody → Text → AuthResult
unfolding safe_header_name is_supported_auth_type auth_requires_credential trim
parse_auth_input body default_type =
    let auth_type = trim (or_else body.auth_type default_type) in
    let credential = trim body.upstream_api_key in
    let header = header_of body.auth_header in
    if not (is_supported_auth_type auth_type)
    then refused unsupported_type
    else if auth_type == codes "api_key_header"
        && (not (is_empty body.auth_header) && is_empty header)
    then refused bad_header
    else if auth_requires_credential auth_type && is_empty credential
    then refused missing_credential
    else accepted (record {
      auth_type = auth_type;
      auth_header = if auth_type == codes "api_key_header" then some header else none;
      credential = if auth_type == codes "none" then none else some credential;
    })

pub record NodeBody : Type 0 where
  pub name : Text
  pub model_id : Text
  pub model_name : Text
  pub base_url : Text
  pub provider : Text
  pub protocol : Text
  pub auth : AuthBody

-- The fields that a new node is made of, or the status of the refusal.
pub record NodeFields : Type 0 where
  pub name : Text
  pub model_id : Text
  pub model_name : Text
  pub origin_base_url : Text
  pub provider : Text
  pub protocol : Text
  pub auth : Auth

abbrev read_name : NodeBody → Text
read_name b = slice_to 80 (trim b.name)

abbrev read_model_id : NodeBody → Text
read_model_id b = slice_to 240 (trim b.model_id)

abbrev read_model_name : NodeBody → Text
read_model_name b = slice_to 120 (trim (or_else b.model_name (read_model_id b)))

abbrev read_provider : NodeBody → Text
read_provider b = to_lower (trim (or_else b.provider (codes "swiftlm")))

abbrev read_protocol : NodeBody → Text
read_protocol b = to_lower (trim (or_else b.protocol (codes "openai")))

abbrev with_auth : NodeBody → Text → AuthResult → Option NodeFields
with_auth b origin (refused e) = none
with_auth b origin (accepted a) = some (record {
  name = read_name b;
  model_id = read_model_id b;
  model_name = read_model_name b;
  origin_base_url = origin;
  provider = read_provider b;
  protocol = read_protocol b;
  auth = a;
})

-- Every refusal is a 400.
unfoldable pub read_node : (Text → Option Url) → Text → NodeBody → Option NodeFields
unfolding normalized_origin parse_auth_input is_supported_provider is_supported_protocol trim
read_node parse default_type b =
    if is_empty (read_name b)
      || is_empty (read_model_id b)
      || is_empty (read_model_name b)
      || is_empty (normalized_origin parse b.base_url)
    then none
    else if not (is_supported_provider (read_provider b))
    then none
    else if not (is_supported_protocol (read_protocol b))
    then none
    else with_auth b (normalized_origin parse b.base_url) (parse_auth_input b.auth default_type)
