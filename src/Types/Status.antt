-- ===== src/Types/Status.antt =====
-- pkg/types/types.go: what the agent reports, and the requests of the command line. The measured
-- floating-point figures of the host are left out: the program only passes them on.
use eth_node_operator.Common.{ℕ, String, Bool, List}
use eth_node_operator.Common.Int.{ℤ, pos}

pub data Phase : Type 0 where
  running upgrading degraded pending cordoned : Phase

pub record ClientStatus : Type 0 where
  pub name : String
  pub running : Bool
  pub image : String
  pub version : String
  pub synced : Bool
  pub block_number : ℕ
  pub peer_count : ℤ
  pub healthy : Bool

-- `Host` is left out: no code of the program sets it or reads it.
pub record NodeStatus : Type 0 where
  pub name : String
  pub phase : Phase
  pub el : ClientStatus
  pub cl : ClientStatus
  pub mev : ClientStatus
  pub cordoned : Bool

pub record CordonRequest : Type 0 where
  pub cordoned : Bool
  pub reason : String

pub record ReconcileResult : Type 0 where
  pub node_name : String
  pub actions : List String
  pub errors : List String

pub record DriftItem : Type 0 where
  pub field : String
  pub desired : String
  pub actual : String

pub record DiffResult : Type 0 where
  pub node_name : String
  pub drifts : List DriftItem
  pub in_sync : Bool

pub record UpgradeRequest : Type 0 where
  pub nodes : List String
  pub el_image : String
  pub cl_image : String
  pub mev_image : String
  pub max_unavailable : ℤ
  pub skip_preflight : Bool

abbrev pub cl_http_port : ℤ
cl_http_port = pos 5052

abbrev pub agent_port : ℤ
agent_port = pos 19000
