-- ===== src/Providers.antt =====
-- dashboard/src/providers.js: the backends, and the headers that carry a credential.
pub mod Bodies
pub mod Rewriting
mod Tests
use swiftlm_platform.Base.{
  Bool, ◌||◌, List, [], ◌∷◌, ◌++◌, Text, codes, ◌==◌, is_empty, or_else, any, if◌then◌else◌,
  starts_with, to_lower,
}

pub data Provider : Type 0 where
  swiftlm vllm llamacpp generic : Provider

-- What is not the name of a provider is SwiftLM.
unfoldable pub provider_for : Text → Provider
provider_for name =
    if name == codes "vllm"
    then vllm
    else if name == codes "llamacpp"
    then llamacpp
    else if name == codes "generic"
    then generic
    else swiftlm

abbrev pub Headers : Type 0
Headers = List (Text × Text)

unfoldable pub provider_headers : Provider → Bool → Headers
provider_headers swiftlm stream =
    (codes "X-MLX-Include-Metrics", if stream then codes "1" else codes "0") ∷ []
provider_headers vllm stream = []
provider_headers llamacpp stream = []
provider_headers generic stream = []

pub record Credential : Type 0 where
  pub auth_type : Text
  pub auth_header : Text
  pub credential : Text

unfoldable pub build_auth_headers : Credential → Headers
build_auth_headers c =
    if is_empty c.credential
    then []
    else if c.auth_type == codes "none"
    then []
    else if c.auth_type == codes "api_key_header"
    then (or_else c.auth_header (codes "X-API-Key"), c.credential) ∷ []
    else if c.auth_type == codes "bearer"
    then (codes "Authorization", codes "Bearer " ++ c.credential) ∷ []
    else []

-- `text.includes(part)`
abbrev includes : Text → Text → Bool
includes [] part = starts_with part []
includes (c ∷ s) part = starts_with part (c ∷ s) || includes s part

-- One entry of the models that a backend lists.
pub record ModelEntry : Type 0 where
  pub owned_by : Text
  pub has_max_model_len : Bool

abbrev first_owner : List ModelEntry → Text
first_owner [] = []
first_owner (m ∷ ms) = to_lower m.owned_by

unfoldable pub detect_provider : Bool → List ModelEntry → Provider
detect_provider has_request_id entries =
    let owner = first_owner entries in
    if has_request_id
    then swiftlm
    else if includes owner (codes "vllm") || any (λ m. m.has_max_model_len) entries
    then vllm
    else if includes owner (codes "llamacpp") || includes owner (codes "llama.cpp")
    then llamacpp
    else if includes owner (codes "swiftlm") || includes owner (codes "mlx")
    then swiftlm
    else generic
