-- ===== src/Cluster/Scheduler.antt =====
-- internal/cluster/scheduler.go: nodes, tasks and the choice of a node. The scheduler reads and changes a
-- task only by its target node, so a task stands in the map itself. A map's order is the order in which
-- `range` visits it, which Go leaves open. The channel of tasks is a list of identifiers.
pub mod Choice
pub mod Balance
use afd.Prelude.{
  ℕ, zero, suc, ◌+◌, ◌-◌, ◌*◌, ◌/◌, ◌%◌, ℤ, pos, ltb_ℤ, String, str_eq, Bool, true, false, ◌&&◌,
  not, List, [], ◌∷◌, ◌++◌, Option, none, some, GoMap, lookup, insert, delete, length, get_elem?,
  arith, if◌then◌else◌, ltb, leb, ◌==◌,
}
use afd.Task.Model.{Task, set_target_node}
use afd.Cluster.Node.{Node, is_online}

pub record Scheduler : Type 0 where
  pub nodes : GoMap Node
  pub task_queue : GoMap Task
  pub local_node_id : String
  pub dispatch_chan : List String

unfoldable pub new_scheduler : String → Scheduler
new_scheduler local_id = record {
  nodes = [];
  task_queue = [];
  local_node_id = local_id;
  dispatch_chan = [];
}

-- `AddNode` and `UpdateNode`.
unfoldable pub add_node : Node → Scheduler → Scheduler
add_node n s = record s { nodes = insert n.id n s.nodes }

unfoldable pub remove_node : String → Scheduler → Scheduler
remove_node id s = record s { nodes = delete id s.nodes }

unfoldable pub get_online_nodes : GoMap Node → List Node
unfolding is_online
get_online_nodes [] = []
get_online_nodes ((_, n) ∷ m) =
    let rest = get_online_nodes m in if is_online n then n ∷ rest else rest

-- `SubmitTask`. `sent` says which branch of the select is taken; the Boolean result is whether there is
-- no error.
unfoldable pub submit_task : Bool → Task → Scheduler → Scheduler × Bool
submit_task sent t s =
    let tasks = insert t.id t s.task_queue in
    if sent
    then (record s { task_queue = tasks; dispatch_chan = s.dispatch_chan ++ t.id ∷ [] }, true)
    else (record s { task_queue = delete t.id tasks }, false)

unfoldable pub remove_submitted : String → Scheduler → Scheduler
remove_submitted id s = record s { task_queue = delete id s.task_queue }

-- `selectNode`: the nodes that are online with a load below 80, and the first of them after a sort by
-- load. Of several with the least load the sort may put any first, and the map's order says which.
unfoldable pub eligible_nodes : GoMap Node → List Node
unfolding is_online
eligible_nodes [] = []
eligible_nodes ((_, n) ∷ m) =
    let rest = eligible_nodes m in if is_online n && ltb_ℤ n.load (pos 80) then n ∷ rest else rest

unfoldable pub least_loaded : List Node → Option Node
least_loaded [] = none
least_loaded (n ∷ ns) = elim (least_loaded ns) [
  | none ↦ some n
  | some best ↦ if ltb_ℤ best.load n.load then some best else some n
]

unfoldable pub select_node : Scheduler → Option Node
unfolding eligible_nodes least_loaded
select_node s = least_loaded (eligible_nodes s.nodes)

-- `dispatchTask`: what is done with a task; the call to a remote node comes after it.
pub data Dispatch : Type 0 where
  requeued : Dispatch
  kept_local : Dispatch
  sent_to : Node → Dispatch

unfoldable pub dispatch_task : ℕ → Task → Scheduler → Scheduler × Dispatch
unfolding select_node set_target_node
dispatch_task now t s = elim (select_node s) [
  | none ↦ (s, requeued)
  | some n ↦
      let s' = record s { task_queue = insert t.id (set_target_node now n.id t) s.task_queue } in
      if str_eq n.id s.local_node_id then (s', kept_local) else (s', sent_to n)
]

unfoldable pub count_tasks_for_node : String → GoMap Task → ℕ
count_tasks_for_node node_id [] = 0
count_tasks_for_node node_id ((_, t) ∷ m) =
    (if str_eq t.target_node node_id then 1 else 0) + count_tasks_for_node node_id m

unfoldable pub get_tasks_for_node : String → GoMap Task → List String
get_tasks_for_node node_id [] = []
get_tasks_for_node node_id ((id, t) ∷ m) =
    let rest = get_tasks_for_node node_id m in
    if str_eq t.target_node node_id then id ∷ rest else rest

-- The inner loop of `reassignTasks`, from round `i` on: the first node from `node_idx` on, in a circle,
-- that is another one and online, and where the next search begins.
abbrev pub takes_over : String → Node → Bool
takes_over from n = not (str_eq n.id from) && is_online n

unfoldable pub find_candidate : ℕ → ℕ → List Node → ℕ → String → Option (String × ℕ)
unfolding is_online
find_candidate zero i nodes node_idx from = none
find_candidate (suc rounds) i nodes node_idx from =
    let rest = find_candidate rounds (i + 1) nodes node_idx from in
    elim (get_elem? nodes ((node_idx + i) % length nodes)) [
      | none ↦ rest
      | some n ↦ if takes_over from n then some (n.id, (node_idx + i + 1) % length nodes) else rest
    ]

-- The outer loop, with the count so far and the place where the search begins.
unfoldable pub reassign_from : ℕ → String → ℕ → List Node → ℕ → ℕ → GoMap Task → GoMap Task
unfolding find_candidate set_target_node
reassign_from now from count nodes reassigned node_idx [] = []
reassign_from now from count nodes reassigned node_idx ((id, t) ∷ m) =
    if leb count reassigned
    then (id, t) ∷ m
    else if str_eq t.target_node from
    then elim (find_candidate (length nodes) 0 nodes node_idx from) [
      | none ↦ (id, t) ∷ reassign_from now from count nodes reassigned node_idx m
      | some (to, next) ↦
          (id, set_target_node now to t)
          ∷ reassign_from now from count nodes (reassigned + 1) next m
    ]
    else (id, t) ∷ reassign_from now from count nodes reassigned node_idx m

unfoldable pub reassign_tasks : ℕ → String → ℕ → List Node → GoMap Task → GoMap Task
unfolding reassign_from
reassign_tasks now from count nodes m = reassign_from now from count nodes 0 0 m

-- The loop of `Rebalance` over the online nodes, for the average rounded down.
unfoldable pub rebalance_from : ℕ → ℕ → List Node → List Node → GoMap Task → GoMap Task
unfolding reassign_tasks count_tasks_for_node
rebalance_from now avg all [] m = m
rebalance_from now avg all (n ∷ ns) m =
    let current : ℕ = count_tasks_for_node n.id m in
    rebalance_from now avg all ns
      (if ltb (avg + 2) current then reassign_tasks now n.id (current - avg) all m else m)

unfoldable pub rebalance : ℕ → Scheduler → Scheduler
unfolding rebalance_from get_online_nodes
rebalance now s =
    let online_nodes = get_online_nodes s.nodes in
    if length online_nodes == 0 then s else record s {
      task_queue =
          rebalance_from now (length s.task_queue / length online_nodes) online_nodes online_nodes
            s.task_queue;
    }
