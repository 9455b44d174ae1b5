-- ===== src/Task/Queue/Failure.antt =====
-- internal/downloader/manager.go, `StartDownload`: how the download manager reports that a download has
-- failed, and what the queue makes of it.
use afd.Prelude.{ℕ, ◌≡◌, refl, false, some, String, lookup, arith}
use afd.Task.Model.{failed, is_downloading, set_error}
use afd.Task.Queue.{TaskQueue, modify, status_of, fail_task}

-- The error branches after `d.Download`: `t.SetError(…)`, then `failTask`, which calls `FailTask`.
unfoldable pub report_failure : ℕ → TaskQueue → ℕ → String → TaskQueue
unfolding set_error
report_failure now q r msg =
    let q' = modify q r (set_error now msg) in fail_task now q' (q.store r).id msg

status_after :
    (now : ℕ) (q : TaskQueue) (r : ℕ) (msg : String)
    → is_downloading (status_of (modify q r (set_error now msg)) r) ≡ false
unfolding set_error
status_after now q r msg = ground arith

fail_task_idle :
    (now : ℕ) (q : TaskQueue) (id msg : String) (r : ℕ)
    → lookup id q.tasks ≡ some r
    → is_downloading (status_of q r) ≡ false
    → fail_task now q id msg ≡ q
unfolding fail_task
fail_task_idle now q id msg r found idle = rw (found, idle, fail_task) refl

-- When the error path of the manager runs `SetError` and then `FailTask` on a task of the map, the task ends
-- as failed and the count of active tasks, the map, the heap and the callback log are those of before.
pub failure_keeps_slot :
    (now : ℕ) (q : TaskQueue) (r : ℕ) (msg : String)
    → lookup (q.store r).id q.tasks ≡ some r
    → ((report_failure now q r msg).active_count ≡ q.active_count)
      × ((report_failure now q r msg).tasks ≡ q.tasks)
      × ((report_failure now q r msg).pq ≡ q.pq)
      × ((report_failure now q r msg).log ≡ q.log)
      × (status_of (report_failure now q r msg) r ≡ failed)
unfolding report_failure
failure_keeps_slot now q r msg found =
    rw
      (fail_task_idle now (modify q r (set_error now msg)) (q.store r).id msg r found
        (status_after now q r msg))
      (refl, refl, refl, refl, status_failed)
  where
    status_failed : status_of (modify q r (set_error now msg)) r ≡ failed
    status_failed = unfold set_error in ground arith
