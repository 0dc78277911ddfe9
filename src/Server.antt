-- ===== src/Server.antt =====
-- dashboard/src/server.js: the HTTP handlers. A field of a request's body is the text that
-- `String(value || "")` makes of it; a flag is its truth value. A reply is its status, with what the
-- tests need of its body.
pub mod Input
pub mod Login
pub mod Enrollment
pub mod NodeRoutes
pub mod KeyRoutes
pub mod TokenRoutes
pub mod Chats
pub mod Status
pub mod Sample
mod Tests
use swiftlm_platform.Base.{ℕ, Option, Text}
use swiftlm_platform.Store.Nodes.{Vault}

-- What the handlers take from the configuration of dashboard/src/config.js.
pub record Config : Type 0 where
  pub default_node_id : Text
  pub upstream_api_key : Text
  pub vault : Vault
