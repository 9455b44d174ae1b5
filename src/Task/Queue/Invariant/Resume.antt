-- ===== src/Task/Queue/Invariant/Resume.antt =====
-- `Resume` of internal/task/queue.go and the invariant.
use afd.Prelude.{
  ℕ, ◌≡◌, ap, subst, ◌∙◌, ◌≢◌, pos, true, some, String, lookup, arith, ◌==◌, Bool-cases,
  Option-cases, inl, inr,
}
use afd.Task.Model.{pending, is_downloading, is_paused, set_status}
use afd.Task.Queue.{TaskQueue, update, modify, status_of, has_slot, resume}
use afd.Task.Queue.Store.{count_tasks, Keyed-update, count_tasks-update, lookup-id}
use afd.Task.Queue.Invariant.{InvBut, Inv, Only, enqueue-Inv, start_task-Inv}
use afd.Task.Queue.Invariant.Calls.{set_status-keeps}

refiled :
    (now : ℕ) (q : TaskQueue) (id : String) (r : ℕ)
    → lookup id q.tasks ≡ some r
    → Inv q
    → lookup (update q.store r (set_status now pending) r).id q.tasks ≡ some r
refiled now q id r found v =
    let same : (update q.store r (set_status now pending) r).id ≡ (q.store r).id =
      unfold set_status in ground arith in
    ap (λ i. lookup i q.tasks) (same ∙ lookup-id q.store q.tasks id r v.keyed found) ∙ found

waits :
    (now : ℕ) (q : TaskQueue) (r : ℕ) → status_of (modify q r (set_status now pending)) r ≡ pending
waits now q r = unfold set_status in ground arith

-- Whoever is pending after the call was pending before it, or is the task resumed.
pending_before :
    (now : ℕ) (q : TaskQueue) (r x : ℕ)
    → (x ≢ r)
    → (update q.store r (set_status now pending) x).status ≡ pending
    → (q.store x).status ≡ pending
pending_before now q r x ne s = ground (arith, ne, s)

again :
    (now : ℕ) (q : TaskQueue) (id : String) (r : ℕ)
    → lookup id q.tasks ≡ some r
    → is_paused (status_of q r) ≡ true
    → Inv q
    → InvBut (Only r) (modify q r (set_status now pending))
again now q id r found held v = record {
  keyed =
      Keyed-update q.store q.tasks r (set_status now pending) (set_status-keeps now pending)
        v.keyed;
  active = v.active ∙ ap pos same_count;
  indexed = v.indexed;
  heap = v.heap;
  waiting = λ i x l s ne. v.waiting i x l (pending_before now q r x ne s) (λ (y : ⊥). y);
  filed = λ x c s. elim (Bool-cases (x == r)) [
    | inl same ↦
        let y : r ≡ x = ground arith in
        subst (λ z. lookup (update q.store r (set_status now pending) z).id q.tasks ≡ some z) y
          (refiled now q id r found v)
    | inr other ↦
        let ne : x ≢ r = λ (y : x ≡ r). ground arith in
        rw other (v.filed x c (pending_before now q r x ne s))
  ];
}
  where
    same_count :
        count_tasks is_downloading q.store q.tasks
        ≡ count_tasks is_downloading (update q.store r (set_status now pending)) q.tasks
    same_count =
        unfold set_status in
        ground (
          arith,
          held,
          count_tasks-update is_downloading q.store q.tasks id r (set_status now pending) v.keyed
              found,
        )

-- `Resume` keeps the invariant of the queue, whether the task is refused, starts or waits.
pub resume-Inv : (now : ℕ) (q : TaskQueue) (id : String) → Inv q → Inv (resume now q id).0
unfolding resume
resume-Inv now q id v = elim (Option-cases (lookup id q.tasks)) [
  | inl missing ↦ rw (missing, resume) v
  | inr (r, found) ↦ elim (Bool-cases (is_paused (status_of q r))) [
    | inr other ↦ rw (found, other, resume) v
    | inl held ↦
        let q' = modify q r (set_status now pending) in
        let but = again now q id r found held v in
        let filed = refiled now q id r found v in
        elim (Bool-cases (has_slot q')) [
          | inl slot ↦
              rw (found, held, slot, resume) (start_task-Inv now q' r but filed (waits now q r))
          | inr full ↦ rw (found, held, full, resume) (enqueue-Inv q' r but filed)
        ]
  ]
]
