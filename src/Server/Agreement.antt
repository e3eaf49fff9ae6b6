-- ===== src/Server/Agreement.antt =====
-- What ties the topics of the clients to the topic map, in the state of common/types/state.h: a socket
-- is listed under a topic as often as the clients with that socket hold the topic.
pub mod Once
pub mod Alone
pub mod Memberships
pub mod Forgetting
pub mod Leaving
pub mod Calls
pub mod Members
pub mod Touching
pub mod Following
pub mod Refining
use jm_bus.Common.{ℕ, ◌≡◌, ◌≤◌, ◌⊎◌, List, All, total, count_if, if◌then◌else◌, ◌==◌}
use jm_bus.Clients.{PollFd, ClientMetadata}
use jm_bus.Clients.Adding.{InStep}
use jm_bus.Clients.Removing.{pairs}
use jm_bus.HashMap.Contents.{IsValid, sockets}
use jm_bus.HashMap.Setting.{Apart}
use jm_bus.HashMap.Subscriptions.{same_key}
use jm_bus.HashMap.Unlisting.{listed}
use jm_bus.Server.{ServerState}

-- How often a client holds the topic, if its socket is `u`.
abbrev pub holds : List ℕ → ℕ → PollFd × ClientMetadata → ℕ
holds q u c = if c.0.fd == u then count_if (same_key q) c.1.topics.items else 0

abbrev pub memberships : List ℕ → ℕ → List (PollFd × ClientMetadata) → ℕ
memberships q u cs = total (holds q u) cs

-- Topics of which none is the start of another.
pub record Separate (Used : List ℕ → Type 0) : Type 0 where
  pub apart : (q key : List ℕ) → Used q → Used key → (key ≡ q) ⊎ Apart q key

-- The client holds no topic twice.
abbrev pub Once : (List ℕ → Type 0) → ClientMetadata → Type 0
Once Used md = (q : List ℕ) → Used q → count_if (same_key q) md.topics.items ≤ 1

module _ (Used : List ℕ → Type 0) where
  pub record Agreed (s : ServerState) : Type 0 where
    pub valid : IsValid s.topics
    pub in_step : InStep s.clients
    pub used : All (λ (md : ClientMetadata). All Used md.topics.items) s.clients.metadata.items
    pub once : All (Once Used) s.clients.metadata.items
    pub agree :
        (q : List ℕ) (u : ℕ)
        → Used q
        → listed u (sockets s.topics q) ≡ memberships q u (pairs s.clients)
