-- ===== src/Task/Model/Laws.antt =====
-- The life of one task.
use afd.Prelude.{ℕ, ℤ, pos, ◌≤ℤ◌, ◌≡◌, ◌⊎◌, true, false, none, arith}
use afd.Task.Model.{Task, cancelled, is_completed, update_progress, cancel_task}

-- A stopped task is left as it is by `Cancel`; any other task turns cancelled, its cancel function is
-- called, and a second `Cancel` changes nothing and calls nothing.
pub cancel_task_lem :
    (t : Task)
    → ((is_completed t ≡ true) × (cancel_task t ≡ (t, none)))
      ⊎ ((is_completed t ≡ false)
          × (cancel_task t ≡ (record t { status = cancelled }, t.cancel))
          × (cancel_task (cancel_task t).0 ≡ ((cancel_task t).0, none)))
unfolding is_completed cancel_task
cancel_task_lem t = ground arith

-- The sizes that a task reports are never negative, whatever a downloader passes in.
pub update_progress_nonneg :
    (now : ℕ) (d total speed : ℤ) (t : Task)
    → (pos 0 ≤ℤ (update_progress now d total speed t).downloaded_size)
      × (pos 0 ≤ℤ (update_progress now d total speed t).total_size)
unfolding update_progress
update_progress_nonneg now d total speed t = ground arith
