-- ===== src/Cluster/Failover/Retries.antt =====
-- What three failures in a row do, in internal/cluster/failover.go.
use afd.Prelude.{
  ℕ, ◌+◌, ◌≡◌, refl, ap, ◌∙◌, String, true, false, [], ◌∷◌, ◌++◌, none, some, GoMap, lookup, insert,
  delete, if◌then◌else◌, leb, lookup-insert, lookup-delete,
}
use text.Mathlib.TextPositions.{eq_refl}
use afd.Cluster.Scheduler.{remove_node, get_tasks_for_node}
use afd.Cluster.Failover.{Failover, FailedNode, handle_node_failure, first_failure}

lookup-insert_self :
    (id : String) (x : FailedNode) (m : GoMap FailedNode) → lookup id (insert id x m) ≡ some x
lookup-insert_self id x m =
    lookup-insert id id x m ∙ ap (λ b. if b then some x else lookup id m) (eq_refl id)

lookup-delete_self : {V : Type 0} (id : String) (m : GoMap V) → lookup id (delete id m) ≡ none
lookup-delete_self id m =
    lookup-delete id id m ∙ ap (λ b. if b then none else lookup id m) (eq_refl id)

-- The entry after a failure of a node that has one.
seen_again :
    (now : ℕ) (id : String) (f : Failover) (x : FailedNode)
    → lookup id f.failed_nodes ≡ some x
    → x.reassign_scheduled ≡ true
    → leb f.config.max_retries (x.retry_count + 1) ≡ false
    → handle_node_failure now id f ≡ (
      record f {
        failed_nodes = insert id (record x { retry_count = x.retry_count + 1 }) f.failed_nodes;
      },
      [],
    )
unfolding handle_node_failure
seen_again now id f x found set few = rw (found, set, few, handle_node_failure)

given_up :
    (now : ℕ) (id : String) (f : Failover) (x : FailedNode)
    → lookup id f.failed_nodes ≡ some x
    → leb f.config.max_retries (x.retry_count + 1) ≡ true
    → handle_node_failure now id f ≡ (
      record f { scheduler = remove_node id f.scheduler; failed_nodes = delete id f.failed_nodes },
      x.tasks,
    )
unfolding handle_node_failure
given_up now id f x found many = rw (found, many, handle_node_failure)

first_seen :
    (now : ℕ) (id : String) (f : Failover)
    → lookup id f.failed_nodes ≡ none
    → leb f.config.max_retries 1 ≡ false
    → handle_node_failure now id f ≡ (
      record f {
        failed_nodes =
            insert id
              (record (first_failure now id f) { retry_count = 1; reassign_scheduled = true })
              f.failed_nodes;
        timers = f.timers ++ get_tasks_for_node id f.scheduler.task_queue ∷ [];
      },
      [],
    )
unfolding handle_node_failure
first_seen now id f missing few = rw (missing, few, handle_node_failure)

-- Three failures in a row of a node that was healthy before, with the three retries of `NewFailover`: the node is
-- gone from the scheduler and from the failed nodes, and the tasks that it had at the first failure are handed over
-- for reassignment twice, once by the timer that the first failure set and once by the third failure itself.
pub three_failures :
    (t1 t2 t3 : ℕ) (id : String) (f : Failover)
    → f.config.max_retries ≡ 3
    → lookup id f.failed_nodes ≡ none
    → let f1 = (handle_node_failure t1 id f).0 in
      let f2 = (handle_node_failure t2 id f1).0 in
      let last = handle_node_failure t3 id f2 in
      (last.0.timers ≡ f.timers ++ get_tasks_for_node id f.scheduler.task_queue ∷ [])
      × (last.1 ≡ get_tasks_for_node id f.scheduler.task_queue)
      × (lookup id last.0.failed_nodes ≡ none)
      × (lookup id last.0.scheduler.nodes ≡ none)
unfolding remove_node first_failure
three_failures t1 t2 t3 id f three missing =
    let x1 : FailedNode = record (first_failure t1 id f) {
      retry_count = 1;
      reassign_scheduled = true;
    } in
    let x2 : FailedNode = record (first_failure t1 id f) {
      retry_count = 2;
      reassign_scheduled = true;
    } in
    let f1 : Failover = record f {
      failed_nodes = insert id x1 f.failed_nodes;
      timers = f.timers ++ get_tasks_for_node id f.scheduler.task_queue ∷ [];
    } in
    let f2 : Failover = record f1 { failed_nodes = insert id x2 f1.failed_nodes } in
    let e1 = first_seen t1 id f missing (ap (λ n. leb n 1) three) in
    let e2 =
      seen_again t2 id f1 x1 (lookup-insert_self id x1 f.failed_nodes) refl
        (ap (λ n. leb n 2) three) in
    let e3 =
      given_up t3 id f2 x2 (lookup-insert_self id x2 f1.failed_nodes) (ap (λ n. leb n 3) three) in
    rw (e1, e2, e3)
      (refl, refl, lookup-delete_self id f2.failed_nodes, lookup-delete_self id f.scheduler.nodes)
