-- ===== src/Cluster/Failover.antt =====
-- internal/cluster/failover.go: how a node that no longer sends heartbeats loses its tasks. The timers that are
-- set are a list of the task lists that they will reassign.
pub mod Retries
use afd.Prelude.{
  ℕ, zero, suc, ◌+◌, ◌%◌, String, str_eq, Bool, true, false, List, [], ◌∷◌, ◌++◌, Option, none,
  some, GoMap, lookup, insert, delete, has_key, length, get_elem?, arith, if◌then◌else◌, ltb, leb,
  ◌==◌,
}
use afd.Task.Model.{Task, set_target_node}
use afd.Cluster.Node.{Node}
use afd.Cluster.Scheduler.{Scheduler, remove_node, get_tasks_for_node, get_online_nodes}

pub record FailoverConfig : Type 0 where
  pub heartbeat_timeout : ℕ
  pub max_retries : ℕ

pub record FailedNode : Type 0 where
  pub node_id : String
  pub failed_at : ℕ
  pub retry_count : ℕ
  pub tasks : List String
  pub reassign_scheduled : Bool

pub record Failover : Type 0 where
  pub config : FailoverConfig
  pub scheduler : Scheduler
  pub failed_nodes : GoMap FailedNode
  pub heartbeat : GoMap ℕ
  pub timers : List (List String)

-- `NewFailover`, with times in seconds.
unfoldable pub new_failover : Scheduler → Failover
new_failover s = record {
  config = record { heartbeat_timeout = 15; max_retries = 3 };
  scheduler = s;
  failed_nodes = [];
  heartbeat = [];
  timers = [];
}

unfoldable pub record_heartbeat : ℕ → String → Failover → Failover
record_heartbeat now id f = record f { heartbeat = insert id now f.heartbeat }

unfoldable pub is_node_healthy : ℕ → String → Failover → Bool
is_node_healthy now id f = elim (lookup id f.heartbeat) [
  | none ↦ false
  | some last ↦ ltb now (last + f.config.heartbeat_timeout)
]

unfoldable pub first_failure : ℕ → String → Failover → FailedNode
first_failure now id f = record {
  node_id = id;
  failed_at = now;
  retry_count = 0;
  tasks = get_tasks_for_node id f.scheduler.task_queue;
  reassign_scheduled = false;
}

unfoldable pub handle_node_failure : ℕ → String → Failover → Failover × List String
unfolding first_failure remove_node
handle_node_failure now id f =
    let found = lookup id f.failed_nodes in
    let failed : FailedNode = elim found [ none ↦ first_failure now id f | some x ↦ x ] in
    let counted : FailedNode = record failed { retry_count = failed.retry_count + 1 } in
    if leb f.config.max_retries counted.retry_count
    then (
      record f { scheduler = remove_node id f.scheduler; failed_nodes = delete id f.failed_nodes },
      failed.tasks,
    )
    else if counted.reassign_scheduled
    then (record f { failed_nodes = insert id counted f.failed_nodes }, [])
    else (
      record f {
        failed_nodes = insert id (record counted { reassign_scheduled = true }) f.failed_nodes;
        timers = f.timers ++ failed.tasks ∷ [];
      },
      [],
    )

-- Whether `checkNodeHealth` takes a node for a failed one.
unfoldable pub has_timed_out : ℕ → Node → Failover → Bool
has_timed_out now n f = if str_eq n.id "" then false else elim (lookup n.id f.heartbeat) [
  | none ↦ false
  | some last ↦ ltb (last + f.config.heartbeat_timeout) now
]

-- The loop of `checkNodeHealth` over the nodes that the scheduler had at its start, with the task lists to
-- reassign after it.
unfoldable pub check_nodes : ℕ → GoMap Node → Failover → Failover × List (List String)
unfolding has_timed_out handle_node_failure
check_nodes now [] f = (f, [])
check_nodes now ((_, n) ∷ ns) f =
    let healthy = check_nodes now ns f in
    let (f', tasks) = handle_node_failure now n.id f in
    let failing = check_nodes now ns f' in
    if has_timed_out now n f
    then (failing.0, if length tasks == 0 then failing.1 else tasks ∷ failing.1)
    else healthy

-- `reassignTasks` of the failover: task `i` of the list goes to online node `i`, in a circle.
unfoldable pub spread_tasks : ℕ → ℕ → List String → List Node → GoMap Task → GoMap Task
unfolding set_target_node
spread_tasks now i [] nodes m = m
spread_tasks now i (id ∷ ids) nodes m =
    spread_tasks now (i + 1) ids nodes (elim (get_elem? nodes (i % length nodes)) [
      | none ↦ m
      | some n ↦ elim (lookup id m) [ none ↦ m | some t ↦ insert id (set_target_node now n.id t) m ]
    ])

unfoldable pub failover_tasks : ℕ → List String → Failover → Failover
unfolding spread_tasks get_online_nodes
failover_tasks now ids f =
    let nodes = get_online_nodes f.scheduler.nodes in
    let s = f.scheduler in
    if length nodes == 0 then f else record f {
      scheduler = record s { task_queue = spread_tasks now 0 ids nodes s.task_queue };
    }

unfoldable pub failover_lists : ℕ → List (List String) → Failover → Failover
unfolding failover_tasks
failover_lists now [] f = f
failover_lists now (ids ∷ rest) f = failover_lists now rest (failover_tasks now ids f)

unfoldable pub check_node_health : ℕ → Failover → Failover
unfolding check_nodes failover_lists
check_node_health now f =
    let (f', pending_reassign) = check_nodes now f.scheduler.nodes f in
    failover_lists now pending_reassign f'

unfoldable pub clear_failed_node : String → Failover → Failover
clear_failed_node id f = record f { failed_nodes = delete id f.failed_nodes }

unfoldable pub mark_node_recovered : ℕ → String → Failover → Failover
mark_node_recovered now id f = record f {
  failed_nodes = delete id f.failed_nodes;
  heartbeat = insert id now f.heartbeat;
}
