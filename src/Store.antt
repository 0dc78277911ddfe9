-- ===== src/Store.antt =====
-- dashboard/src/db.js: the tables of the dashboard's SQLite database, as lists of rows in the order
-- of insertion. A moment is its number of milliseconds (the code stores ISO texts, which sort the
-- same way); a value that the code draws at random is an argument.
pub mod Secrets
pub mod Nodes
pub mod Deletion
pub mod Models
pub mod Keys
pub mod Conversations
pub mod Requests
pub mod Tokens
pub mod Startup
pub mod Steps
pub mod SingleUse
pub mod Revocation
pub mod Serving
pub mod Purge
pub mod Upgrade
pub mod Credentials
pub mod Sample
mod Tests
use swiftlm_platform.Base.{
  ℕ, ◌≡◌, refl, ◌⊎◌, inl, inr, Bool, true, false, not, ◌&&◌, ◌||◌, Option, none, some, List, [],
  ◌∷◌, Text, ◌==◌, any, find, if◌then◌else◌,
}

pub record Node : Type 0 where
  pub id : Text
  pub name : Text
  pub origin_base_url : Text
  pub model_id : Text
  pub model_name : Text
  pub provider : Text
  pub protocol : Text
  pub auth_type : Text
  pub auth_header : Option Text
  pub capabilities : Option Text
  pub upstream_api_key : Option Text
  pub node_secret : Option Text
  pub enabled : Bool
  pub enrolled_at : Option ℕ
  pub last_heartbeat_at : Option ℕ
  pub agent_version : Option Text
  pub created_at : ℕ
  pub updated_at : ℕ

pub record NodeModel : Type 0 where
  pub id : Text
  pub node_id : Text
  pub model_id : Text
  pub model_name : Text
  pub enabled : Bool
  pub created_at : ℕ
  pub updated_at : ℕ

-- `node_id` is NULL only in rows older than the column, until the next start.
pub record ApiKey : Type 0 where
  pub id : Text
  pub name : Text
  pub prefix : Text
  pub digest : Text
  pub node_id : Option Text
  pub created_at : ℕ
  pub last_used_at : Option ℕ
  pub revoked_at : Option ℕ

pub record Conversation : Type 0 where
  pub id : Text
  pub title : Text
  pub system_prompt : Text
  pub node_id : Option Text
  pub model_id : Option Text
  pub created_at : ℕ
  pub updated_at : ℕ

pub data Role : Type 0 where
  user assistant system : Role

pub record Message : Type 0 where
  pub id : Text
  pub conversation_id : Text
  pub role : Role
  pub content : Text
  pub created_at : ℕ

-- Numbers of tokens and milliseconds; a throughput is counted in thousandths.
pub record Metrics : Type 0 where
  pub prompt_tokens : Option ℕ
  pub completion_tokens : Option ℕ
  pub queue_ms : Option ℕ
  pub ttft_ms : Option ℕ
  pub throughput_tps : Option ℕ

pub record ApiRequest : Type 0 where
  pub id : Text
  pub api_key_id : Option Text
  pub node_id : Option Text
  pub route : Text
  pub model : Option Text
  pub status : ℕ
  pub latency_ms : ℕ
  pub metrics : Metrics
  pub request_preview : Option Text
  pub response_preview : Option Text
  pub created_at : ℕ

pub record EnrollmentToken : Type 0 where
  pub id : Text
  pub token_digest : Text
  pub label : Option Text
  pub created_at : ℕ
  pub expires_at : ℕ
  pub used_at : Option ℕ
  pub node_id : Option Text

pub record Store : Type 0 where
  pub nodes : List Node
  pub node_models : List NodeModel
  pub api_keys : List ApiKey
  pub conversations : List Conversation
  pub messages : List Message
  pub api_requests : List ApiRequest
  pub enrollment_tokens : List EnrollmentToken

-- What a statement throws: a UNIQUE or PRIMARY KEY constraint, a FOREIGN KEY constraint, or the
-- error of `encryptNodeKey` without a key.
pub data Fault : Type 0 where
  unique foreign_key no_secret_key : Fault

pub data Result {ℓ} (A : Type ℓ) : Type ℓ where
  ok : A → Result A
  err : Fault → Result A

infixl 5 ◌>>=◌
abbrev pub ◌>>=◌ {ℓ κ} : {A : Type ℓ} {B : Type κ} → Result A → (A → Result B) → Result B
ok a >>= f = f a
err e >>= f = err e

-- A nullable column that holds this text.
abbrev pub refers : Option Text → Text → Bool
refers none k = false
refers (some j) k = j == k

abbrev pub has_node : Text → List Node → Bool
has_node k = any (λ n. n.id == k)

abbrev pub find_node : Text → List Node → Option Node
find_node k = find (λ n. n.id == k)

-- `COALESCE(a, b)`
abbrev pub coalesce {ℓ} : {A : Type ℓ} → Option A → Option A → Option A
coalesce none b = b
coalesce (some a) b = some a

-- `text || null`
abbrev pub or_null : Text → Option Text
or_null [] = none
or_null (c ∷ s) = some (c ∷ s)

-- `value || null`
abbrev pub or_null? : Option Text → Option Text
or_null? none = none
or_null? (some s) = or_null s

-- What an operation that may throw leaves behind, and what it returns or throws.
abbrev pub Outcome : Type 0 → Type 0
Outcome A = Store × Result A

-- One statement: a statement that throws changes nothing.
abbrev pub statement : {A : Type 0} → Store → Result (Store × A) → Outcome A
statement s (ok (s', a)) = (s', ok a)
statement s (err e) = (s, err e)

-- A statement, and what the operation does behind it.
abbrev pub then_do : {A : Type 0} → Store → Result Store → (Store → Outcome A) → Outcome A
then_do s (ok s') k = k s'
then_do s (err e) k = (s, err e)

pub Result-cases {ℓ} :
    {A : Type ℓ} (r : Result A) → ((e : Fault) × (r ≡ err e)) ⊎ ((a : A) × (r ≡ ok a))
Result-cases (ok a) = inr (a, refl)
Result-cases (err e) = inl (e, refl)
