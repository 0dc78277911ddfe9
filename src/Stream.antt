-- ===== src/Stream.antt =====
-- dashboard/src/proxy.js: `streamDashboardChat` from the first chunk of the upstream's answer on.
-- JSON is that of the runtime: `parse` gives what the code reads of a chunk, or none where the code
-- throws; the provider's own events are those of `readStreamEvent`.
pub mod Consuming
mod Disconnects
mod Persistence
mod Tests
use swiftlm_platform.Base.{
  ℕ, Bool, true, false, not, ◌&&◌, ◌||◌, Option, none, some, List, [], ◌∷◌, ◌++◌, Text, codes, ◌==◌,
  is_empty, newline, trim, if◌then◌else◌,
}
use swiftlm_platform.Store.{Metrics, coalesce}
use swiftlm_platform.Collector.{Collector, Usage}

-- The text of the first choice's delta (empty if there is none), the usage, and the chunk's text
-- as it is sent on.
pub record Chunk : Type 0 where
  pub delta : Text
  pub usage : Option Usage
  pub text : Text

-- What the model takes from its surroundings: the JSON of a chunk, the chunk that wraps a raw text,
-- the event that a provider keeps for itself, and the JSON of what was saved.
pub record Codec : Type 0 where
  pub parse : Text → Option Chunk
  pub wrap : Text → Text
  pub provider_event : Option Text → Text → Option (Option Metrics)

-- What `onComplete` is given.
pub record Completion : Type 0 where
  pub assistant : Text
  pub usage : Option Usage
  pub metrics : Metrics
  pub completed : Bool
  pub cancelled : Bool

-- What is sent to the browser.
pub data Sent : Type 0 where
  chunk : Text → Sent
  saved : Option Completion → Sent
  stopped : Option Completion → Sent
  failed : Text → Sent
  done : Sent

-- `connected` stands for `canWrite()`: the response is open, neither closed nor ended.
pub record Stream : Type 0 where
  pub connected : Bool
  pub sent : List Sent
  pub collector : Collector
  pub buffer : Text
  pub assistant : Text
  pub last_persisted : Text
  pub progress : List Text
  pub attempted : Bool
  pub completions : List Completion
