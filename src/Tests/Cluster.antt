-- ===== src/Tests/Cluster.antt =====
-- Runs of the cluster of internal/cluster with three nodes.
use afd.Prelude.{
  ℕ, ◌+◌, ◌-◌, ◌≡◌, refl, ◌⊎◌, inl, inr, ℤ, pos, negsuc, ◌≤ℤ◌, Bool, true, false, List, [], ◌∷◌,
  ◌++◌, Option, none, some, String, GoMap, lookup, length, arith, ◌≤◌, ◌<◌, if◌then◌else◌,
}
use afd.Task.Model.{Task, new_task, set_target_node}
use afd.Cluster.Node.{Node, online}
use afd.Cluster.Membership.{Membership, new_membership, check_timeouts}
use afd.Cluster.Membership.Expiry.{Checked, check_timeouts_lem}
use afd.Cluster.Sync.{ClusterState, merge_state}
use afd.Cluster.Sync.Merge.{Newest, Known, merge_state_lem}
use afd.Cluster.Scheduler.{Scheduler, select_node, get_tasks_for_node}
use afd.Cluster.Scheduler.Choice.{Filed, is_eligible, select_node_lem}
use afd.Cluster.Failover.{Failover, new_failover, handle_node_failure}
use afd.Cluster.Failover.Retries.{three_failures}

abbrev node_of : String → ℤ → ℕ → Node
node_of id load seen = record {
  id = id;
  name = id;
  addr = "10.0.0.1";
  grpc_port = pos 9000;
  api_port = pos 8080;
  status = online;
  load = load;
  tags = [];
  last_seen = seen;
}

abbrev three_nodes : GoMap Node
three_nodes =
    ("a", node_of "a" (pos 90) 0)
    ∷ ("b", node_of "b" (pos 40) 9)
    ∷ ("c", node_of "c" (pos 10) 20)
    ∷ []

abbrev known_nodes : Membership
known_nodes = record (new_membership "c") { members = three_nodes }

check_timeouts_lem_example :
    Checked 30 15 (lookup "b" three_nodes) (lookup "b" (check_timeouts 30 15 known_nodes).0.members)
unfolding afd.Prelude.has_key
check_timeouts_lem_example = check_timeouts_lem 30 15 known_nodes "b" (refl, (refl, (refl, tt)))

abbrev state_of : ℤ → String → ℕ → ClusterState
state_of version node at = record {
  nodes =
      (
        "a",
        record {
          node_id = "a";
          task_count = pos 1;
          load = pos 5;
          status = online;
          last_sync = at;
          active_tasks = [];
        },
      )
      ∷ [];
  tasks = ("t", node) ∷ [];
  version = version;
  updated = at;
}

abbrev remote_state : ClusterState
remote_state = state_of (pos 4) "b" 8

abbrev local_state : ClusterState
local_state = state_of (pos 3) "a" 7

merge_state_lem_example :
    ((remote_state.version ≤ℤ local_state.version)
      × (merge_state 9 remote_state local_state ≡ local_state))
    ⊎ ((¬ (remote_state.version ≤ℤ local_state.version))
        × ((merge_state 9 remote_state local_state).version ≡ remote_state.version)
        × Newest
            (lookup "a" remote_state.nodes)
            (lookup "a" local_state.nodes)
            (lookup "a" (merge_state 9 remote_state local_state).nodes)
        × Known
            (lookup "a" remote_state.tasks)
            (lookup "a" local_state.tasks)
            (lookup "a" (merge_state 9 remote_state local_state).tasks))
unfolding afd.Prelude.has_key
merge_state_lem_example = merge_state_lem 9 remote_state local_state "a" (refl, tt) (refl, tt)

abbrev task_on : String → Task
task_on node = set_target_node 0 node (new_task 0 "t" "http://example.org/f" "/tmp/f")

abbrev four_tasks : GoMap Task
four_tasks = ("1", task_on "a") ∷ ("2", task_on "a") ∷ ("3", task_on "a") ∷ ("4", task_on "b") ∷ []

abbrev scheduler : Scheduler
scheduler = record {
  nodes = three_nodes;
  task_queue = four_tasks;
  local_node_id = "c";
  dispatch_chan = [];
}

least_is_chosen : select_node scheduler ≡ some (node_of "c" (pos 10) 20)
unfolding select_node
least_is_chosen = refl

select_node_lem_example :
    ((select_node scheduler ≡ none) × ((n : Node) → Filed n three_nodes → is_eligible n ≡ false))
    ⊎ ((n : Node) × (select_node scheduler ≡ some n)
        × Filed n three_nodes
        × (is_eligible n ≡ true)
        × ((x : Node) → Filed x three_nodes → is_eligible x ≡ true → n.load ≤ℤ x.load))
select_node_lem_example = select_node_lem scheduler

abbrev two_online : List Node
two_online = node_of "a" (pos 90) 0 ∷ node_of "b" (pos 40) 9 ∷ []

abbrev failover : Failover
failover = new_failover scheduler

three_failures_example :
    let f1 = (handle_node_failure 16 "a" failover).0 in
    let f2 = (handle_node_failure 21 "a" f1).0 in
    let last = handle_node_failure 26 "a" f2 in
    (last.0.timers ≡ failover.timers ++ get_tasks_for_node "a" four_tasks ∷ [])
    × (last.1 ≡ get_tasks_for_node "a" four_tasks)
    × (lookup "a" last.0.failed_nodes ≡ none)
    × (lookup "a" last.0.scheduler.nodes ≡ none)
unfolding new_failover lookup
three_failures_example = three_failures 16 21 26 "a" failover refl refl
