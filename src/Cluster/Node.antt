-- ===== src/Cluster/Node.antt =====
-- internal/cluster/node.go, `Node`. The methods run under a lock of the caller. A time is a number.
use afd.Prelude.{ℕ, ℤ, String, Bool, true, false, GoMap}

pub data NodeStatus : Type 0 where
  online offline : NodeStatus

pub record Node : Type 0 where
  pub id : String
  pub name : String
  pub addr : String
  pub grpc_port : ℤ
  pub api_port : ℤ
  pub status : NodeStatus
  pub load : ℤ
  pub tags : GoMap String
  pub last_seen : ℕ

abbrev pub is_online_status : NodeStatus → Bool
is_online_status online = true
is_online_status offline = false

unfoldable pub is_online : Node → Bool
is_online n = is_online_status n.status

unfoldable pub update_seen : ℕ → Node → Node
update_seen now n = record n { last_seen = now; status = online }

unfoldable pub mark_offline : Node → Node
mark_offline n = record n { status = offline }

unfoldable pub set_load : ℤ → Node → Node
set_load load n = record n { load = load }
