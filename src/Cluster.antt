-- ===== src/Cluster.antt =====
-- Several nodes of src/core/gossip_core.cpp that exchange messages: an interleaving of their
-- operations. A message may be handled at any time after it was sent, by any node, and more than
-- once, or never: the messages are lost, doubled, delayed and reordered at will.
pub mod Ledger
pub mod Handles
pub mod Answers
pub mod Calls
pub mod Clocks
pub mod Records
pub mod Owners
pub mod Current
pub mod Stays
use libgossip.Base.{ℕ, ◌+◌, ◌^◌, ◌≤◌, ◌<◌, ◌≡◌, ◌⊎◌, some, [], get_elem?, ◌==◌, if◌then◌else◌}
use libgossip.Core.Members.{size, set_entries}
use libgossip.Core.Run.{step, Call}
use libgossip.Core.State.{Effect, Core, Env}
use libgossip.Node.{NodeView}

-- The nodes by their numbers; a number from the size of the cluster on names no node.
abbrev pub Cluster : Type 0
Cluster = ℕ → Core

abbrev pub replace : Cluster → ℕ → Core → Cluster
replace c i s j = if i == j then s else c j

-- `n` names the node `s`, by its id or by its address.
abbrev pub Names : NodeView → Core → Type 0
Names n s = (s.self.id ≡ n.id) ⊎ ((s.self.ip ≡ n.ip) × (s.self.port ≡ n.port))

-- `n` describes the node `s` and is not newer than `s` itself.
pub record Fits (n : NodeView) (s : Core) : Type 0 where
  pub id : s.self.id ≡ n.id
  pub ip : s.self.ip ≡ n.ip
  pub port : s.self.port ≡ n.port
  pub heartbeat : n.heartbeat ≤ s.self.heartbeat
  pub config_epoch : n.config_epoch ≤ s.self.config_epoch

-- Of the first `size` nodes of the cluster, any that `n` names is one that it fits.
abbrev pub NotNewer : ℕ → Cluster → NodeView → Type 0
NotNewer size c n = (j : ℕ) → j < size → Names n (c j) → Fits n (c j)

-- The call of an operation of node `i`: a message that is handled was sent by a node, a contact is
-- with a record that fits every node that it names and is not newer than it (so not one without an
-- id at the address of a node), neither a heartbeat nor an epoch goes back, and there is no reset.
abbrev pub IsFair : ℕ → (ℕ → Env) → Cluster → ℕ → Call → Type 0
IsFair size env c i Call.ticks = (c i).self.heartbeat + 1 < 2 ^ 64
IsFair size env c i Call.broadcasts = (c i).self.heartbeat + 1 < 2 ^ 64
IsFair size env c i (Call.handles msg recv) =
    (j : ℕ) × (k : ℕ) × (target : NodeView) × (j < size)
    × (get_elem? (c j).trace k ≡ some (Effect.sent msg target))
IsFair size env c i (Call.meets node) = NotNewer size c node
IsFair size env c i (Call.joins node) = NotNewer size c node
IsFair size env c i (Call.leaves id) = Unit
IsFair size env c i (Call.cleans timeout) = Unit
IsFair size env c i Call.resets = ⊥
IsFair size env c i (Call.updates md) =
    ((c i).self.heartbeat + 1 < 2 ^ 64)
    × ((c i).self.config_epoch ≤ (set_entries (env i) md (c i).self).config_epoch)

-- One node performs one operation.
pub data Turn (size : ℕ) (env : ℕ → Env) (c : Cluster) : Cluster → Type 0 where
  takes :
      (i : ℕ) (call : Call)
      → i < size
      → IsFair size env c i call
      → Turn size env c (replace c i (step (env i) call (c i)))

-- No node has heard or sent anything, and no two have one id or one address.
pub record IsStart (size : ℕ) (c : Cluster) : Type 0 where
  pub nodes : (i : ℕ) → i < size → (c i).nodes ≡ []
  pub trace : (i : ℕ) → i < size → (c i).trace ≡ []
  pub apart : (i j : ℕ) → i < size → j < size → Names (c i).self (c j) → i ≡ j

pub data Reach (size : ℕ) (env : ℕ → Env) : Cluster → Type 0 where
  begins : {c : Cluster} → IsStart size c → Reach size env c
  goes_on : {c d : Cluster} → Reach size env c → Turn size env c d → Reach size env d
