-- ===== src/Cluster/Sync.antt =====
-- internal/cluster/sync.go: the state that the nodes exchange, and how a remote one is merged.
pub mod Merge
use afd.Prelude.{
  ℕ, ℤ, pos, ◌+ℤ◌, leb_ℤ, ◌≤ℤ◌, ◌≡◌, ap, inl, inr, String, str_eq, eq_iff, Bool, true, [], ◌∷◌,
  Option, none, some, GoMap, lookup, insert, delete, has_key, arith, if◌then◌else◌, ltb, Bool-cases,
  lookup-insert,
}
use afd.Cluster.Node.{NodeStatus, online, is_online_status}
use Prim.Native.Nat.{◌<◌, ◌≤◌}

pub record NodeState : Type 0 where
  pub node_id : String
  pub task_count : ℤ
  pub load : ℤ
  pub status : NodeStatus
  pub last_sync : ℕ
  pub active_tasks : GoMap String

pub record ClusterState : Type 0 where
  pub nodes : GoMap NodeState
  pub tasks : GoMap String
  pub version : ℤ
  pub updated : ℕ

unfoldable pub update_local_state : ℕ → String → ℤ → ℤ → GoMap String → ClusterState → ClusterState
update_local_state now local_id task_count load active s =
    let own : NodeState = record {
      node_id = local_id;
      task_count = task_count;
      load = load;
      status = online;
      last_sync = now;
      active_tasks = active;
    } in
    record s { nodes = insert local_id own s.nodes; version = s.version +ℤ pos 1; updated = now }

unfoldable pub update_task_mapping : ℕ → String → String → ClusterState → ClusterState
update_task_mapping now task_id node_id s = record s {
  tasks = insert task_id node_id s.tasks;
  version = s.version +ℤ pos 1;
  updated = now;
}

unfoldable pub remove_task_mapping : ℕ → String → ClusterState → ClusterState
remove_task_mapping now task_id s = record s {
  tasks = delete task_id s.tasks;
  version = s.version +ℤ pos 1;
  updated = now;
}

-- The two loops of `MergeState`, in the order in which `range` visits the remote maps.
abbrev pub is_newer : NodeState → Option NodeState → Bool
is_newer remote none = true
is_newer remote (some here) = ltb here.last_sync remote.last_sync

unfoldable pub merge_nodes : GoMap NodeState → GoMap NodeState → GoMap NodeState
merge_nodes [] here = here
merge_nodes ((id, remote) ∷ rs) here =
    merge_nodes rs (if is_newer remote (lookup id here) then insert id remote here else here)

unfoldable pub merge_tasks : GoMap String → GoMap String → GoMap String
merge_tasks [] here = here
merge_tasks ((task_id, node_id) ∷ rs) here =
    merge_tasks rs (if has_key task_id here then here else insert task_id node_id here)

unfoldable pub merge_state : ℕ → ClusterState → ClusterState → ClusterState
unfolding merge_nodes merge_tasks
merge_state now remote s = if leb_ℤ remote.version s.version then s else record {
  nodes = merge_nodes remote.nodes s.nodes;
  tasks = merge_tasks remote.tasks s.tasks;
  version = remote.version;
  updated = now;
}

unfoldable pub resolve_task_conflict : ClusterState → String → String → String
resolve_task_conflict s task_id preferred = elim (lookup task_id s.tasks) [
  | none ↦ preferred
  | some current ↦ elim (lookup current s.nodes) [
    | none ↦ preferred
    | some n ↦ if is_online_status n.status then current else preferred
  ]
]
