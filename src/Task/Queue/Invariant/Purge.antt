-- ===== src/Task/Queue/Invariant/Purge.antt =====
-- `RemoveStopped` and `PurgeStopped` of internal/task/queue.go and the invariant.
use afd.Prelude.{
  ℕ, ◌+◌, ◌≡◌, refl, ◌≢◌, false, ◌||◌, [], ◌∷◌, some, String, eq_iff, GoMap, lookup, delete,
  has_key, arith, Bool-cases, Option-cases, inl, inr, lookup-delete,
}
use afd.Task.Model.{Task, pending, is_pending, is_downloading, is_paused, is_stopped}
use afd.Task.Queue.{TaskQueue, status_of, drop_task, purge_from, purge_stopped, remove_stopped}
use afd.Task.Queue.Store.{Keyed, count_tasks-delete}
use afd.Task.Queue.Invariant.{Inv}
use afd.Task.Queue.Invariant.Drops.{leave-Inv}

-- A task that has stopped is dropped.
drop_stopped-Inv :
    (q : TaskQueue) (id : String) (r : ℕ)
    → lookup id q.tasks ≡ some r
    → status_of q r ≢ pending
    → is_downloading (status_of q r) ≡ false
    → Inv q
    → Inv (drop_task q id)
unfolding drop_task
drop_stopped-Inv q id r found not_waiting not_running v =
    leave-Inv q id r found v q.store q.active_count q.log v.keyed (λ x. refl) (λ x ne. refl)
      not_waiting
      (ground (
        arith,
        v.active,
        not_running,
        count_tasks-delete is_downloading q.store q.tasks id r v.keyed found,
      ))

-- `RemoveStopped` keeps the invariant of the queue, whether the task is refused or removed.
pub remove_stopped-Inv : (q : TaskQueue) (id : String) → Inv q → Inv (remove_stopped q id).0
remove_stopped-Inv q id v = elim (Option-cases (lookup id q.tasks)) [
  | inl missing ↦ unfold remove_stopped in rw (missing, remove_stopped) v
  | inr (r, found) ↦
      elim (Bool-cases (is_downloading (status_of q r) || is_pending (status_of q r))) [
        | inl working ↦ unfold remove_stopped in rw (found, working, remove_stopped) v
        | inr idle ↦ elim (Bool-cases (is_paused (status_of q r))) [
          | inl held ↦ unfold remove_stopped in rw (found, idle, held, remove_stopped) v
          | inr stopped ↦
              unfold remove_stopped in
              rw (found, idle, stopped, remove_stopped)
                (drop_stopped-Inv q id r found (λ e. ground (arith, idle, e)) (ground (arith, idle))
                  v)
        ]
      ]
]

-- Every entry of the first map is one of the second.
IsPart : GoMap ℕ → GoMap ℕ → Type 0
IsPart [] whole = Unit {0}
IsPart ((id, r) ∷ m) whole = (lookup id whole ≡ some r) × IsPart m whole

IsPart-delete :
    (id : String) (m whole : GoMap ℕ)
    → has_key id m ≡ false
    → IsPart m whole
    → IsPart m (delete id whole)
unfolding IsPart has_key
IsPart-delete id [] whole absent part = tt
IsPart-delete id ((j, r) ∷ m) whole absent part = (
  ground (arith, absent, part.0, lookup-delete id j whole, eq_iff id j, eq_iff j id),
  IsPart-delete id m whole (ground (arith, absent)) part.1,
)

IsPart-cons :
    (st : ℕ → Task) (id : String) (r : ℕ) (m whole : GoMap ℕ)
    → Keyed st m
    → has_key id m ≡ false
    → IsPart m whole
    → IsPart m ((id, r) ∷ whole)
unfolding IsPart has_key lookup
IsPart-cons st id r [] whole k absent part = tt
IsPart-cons st id r ((j, x) ∷ m) whole k absent part = (
  ground (arith, absent, part.0, eq_iff id j, eq_iff j id),
  IsPart-cons st id r m whole k.2 (ground (arith, absent)) part.1,
)

IsPart-self : (st : ℕ → Task) (m : GoMap ℕ) → Keyed st m → IsPart m m
unfolding IsPart lookup
IsPart-self st [] k = tt
IsPart-self st ((j, x) ∷ m) k =
    (ground (arith, eq_iff j j), IsPart-cons st j x m m k.2 k.1 (IsPart-self st m k.2))

purge_from-Inv :
    (m : GoMap ℕ) (q : TaskQueue) (n : ℕ)
    → Keyed q.store m
    → IsPart m q.tasks
    → Inv q
    → Inv (purge_from m q n).0
unfolding purge_from IsPart
purge_from-Inv [] q n k part v = v
purge_from-Inv ((id, r) ∷ m) q n k part v = elim (Bool-cases (is_stopped (status_of q r))) [
  | inr working ↦ rw (working, purge_from) (purge_from-Inv m q n k.2 part.1 v)
  | inl stopped ↦
      rw (stopped, purge_from)
        (purge_from-Inv m (drop_task q id) (n + 1) (unfold drop_task in k.2)
          (unfold drop_task in IsPart-delete id m q.tasks k.1 part.1)
          (drop_stopped-Inv q id r part.0 (λ e. ground (arith, stopped, e))
            (ground (arith, stopped)) v))
]

-- `PurgeStopped` keeps the invariant of the queue.
pub purge_stopped-Inv : (q : TaskQueue) → Inv q → Inv (purge_stopped q).0
unfolding purge_stopped
purge_stopped-Inv q v = purge_from-Inv q.tasks q 0 v.keyed (IsPart-self q.store q.tasks v.keyed) v
