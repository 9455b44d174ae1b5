-- ===== src/Tests/Queue.antt =====
-- Runs of the task queue of internal/task/queue.go with one slot and three tasks.
use afd.Prelude.{
  ℕ, zero, suc, ◌≡◌, refl, ◌⊎◌, inl, inr, ℤ, pos, negsuc, ◌≤ℤ◌, Bool, true, false, List, [], ◌∷◌,
  Option, none, some, String, lookup, length, arith, ◌≤◌, ◌<◌, ◌+◌,
}
use afd.Task.Model.{Task, downloading, failed, new_task}
use afd.Task.Heap.{PriorityItem, PriorityQueue, at, push, pop, remove}
use afd.Task.Heap.Content.{count, passes, ItemTest, remove_keeps}
use afd.Task.Heap.Order.{IsHeap, key}
use afd.Task.Heap.Priority.{pop_first, push-IsHeap, remove-IsHeap}
use afd.Task.Queue.{
  TaskQueue, Callbacks, new_task_queue, add, pause, resume, complete_task, remove_task,
  try_start_next, status_of, find_pq_index,
}
use afd.Task.Queue.Invariant.{Inv, new-Inv, of_task}
use afd.Task.Queue.Invariant.Calls.{add-Inv, pause-Inv}
use afd.Task.Queue.Invariant.Exact.{Exact, new-Exact, add-Exact, complete_task-Exact}
use afd.Task.Queue.Invariant.Drops.{remove_task-Inv}
use afd.Task.Queue.{purge_stopped}
use afd.Task.Model.{set_error}
use afd.Task.Queue.Invariant.Resume.{resume-Inv}
use afd.Task.Queue.Slots.{IsCapped, IsBusy, remove_leaves_slot}
use afd.Task.Queue.Slots.Served.{Served, OnlyStarts, try_start_next_slots, complete_task_slots}
use afd.Task.Queue.Failure.{report_failure, failure_keeps_slot}
use afd.Task.Queue.Position.{change_position}
use afd.Task.Queue.Position.Keeps.{change_position_keeps}

abbrev named : String → Task
named id = new_task 0 id "http://example.org/f" "/tmp/f"

abbrev three_tasks : ℕ → Task
three_tasks zero = named "a"
three_tasks (suc zero) = named "b"
three_tasks (suc (suc _)) = named "c"

abbrev all_callbacks : Callbacks
all_callbacks = record {
  on_task_start = true;
  on_task_progress = true;
  on_task_complete = true;
  on_task_error = true;
}

abbrev no_tasks : TaskQueue
no_tasks = new_task_queue three_tasks all_callbacks (pos 1)

abbrev one_task : TaskQueue
one_task = (add 1 no_tasks 0).0

abbrev two_tasks : TaskQueue
two_tasks = (add 2 one_task 1).0

abbrev paused_task : TaskQueue
paused_task = (pause 3 two_tasks "a").0

second_starts : status_of (complete_task 3 two_tasks "a") 1 ≡ downloading
unfolding complete_task lookup add afd.Prelude.has_key new_task_queue new_task afd.Prelude.insert
    afd.Prelude.◌+ℤ◌ push afd.Prelude.◌-ℤ◌ pop at afd.Task.Heap.swap
second_starts = refl

resumed_waits : (length paused_task.pq ≡ 0) × (length (resume 4 paused_task "a").0.pq ≡ 1)
unfolding resume pause lookup add afd.Prelude.has_key new_task_queue new_task afd.Prelude.insert
    afd.Prelude.◌+ℤ◌ push afd.Prelude.◌-ℤ◌ pop at afd.Task.Heap.swap
resumed_waits = (refl, refl)

no_tasks-Inv : Inv no_tasks
no_tasks-Inv = new-Inv three_tasks all_callbacks (pos 1)

one_task-Inv : Inv one_task
unfolding new_task new_task_queue
one_task-Inv = add-Inv 1 no_tasks 0 refl no_tasks-Inv

two_tasks-Inv : Inv two_tasks
unfolding add afd.Prelude.has_key new_task_queue new_task
two_tasks-Inv = add-Inv 2 one_task 1 refl one_task-Inv

add-Inv_example : Inv (add 5 two_tasks 2).0
unfolding add afd.Prelude.has_key new_task_queue new_task afd.Prelude.insert afd.Prelude.◌+ℤ◌
add-Inv_example = add-Inv 5 two_tasks 2 refl two_tasks-Inv

pause-Inv_example : Inv (pause 3 two_tasks "a").0
pause-Inv_example = pause-Inv 3 two_tasks "a" two_tasks-Inv

resume-Inv_example : Inv (resume 4 paused_task "a").0
resume-Inv_example = resume-Inv 4 paused_task "a" (pause-Inv 3 two_tasks "a" two_tasks-Inv)

two_tasks-Exact : Inv two_tasks × Exact two_tasks
unfolding add afd.Prelude.has_key new_task_queue new_task
two_tasks-Exact =
    let one =
      add-Exact 1 no_tasks 0 refl no_tasks-Inv (new-Exact three_tasks all_callbacks (pos 1)) in
    add-Exact 2 one_task 1 refl one.0 one.1

add-Exact_example : Inv (add 5 two_tasks 2).0 × Exact (add 5 two_tasks 2).0
unfolding add afd.Prelude.has_key new_task_queue new_task afd.Prelude.insert afd.Prelude.◌+ℤ◌
add-Exact_example = add-Exact 5 two_tasks 2 refl two_tasks-Inv two_tasks-Exact.1

complete_task-Exact_example :
    Inv (complete_task 3 two_tasks "a") × Exact (complete_task 3 two_tasks "a")
complete_task-Exact_example = complete_task-Exact 3 two_tasks "a" two_tasks-Inv two_tasks-Exact.1

two_tasks_full : two_tasks.max_concurrent ≤ℤ two_tasks.active_count
unfolding add afd.Prelude.has_key new_task_queue new_task afd.Prelude.insert afd.Prelude.◌+ℤ◌
two_tasks_full = omega arith

two_tasks-IsCapped : IsCapped two_tasks
unfolding add afd.Prelude.has_key new_task_queue new_task afd.Prelude.insert afd.Prelude.◌+ℤ◌
two_tasks-IsCapped = omega arith

try_start_next_slots_example :
    IsCapped (try_start_next 3 two_tasks)
    × IsBusy (try_start_next 3 two_tasks)
    × Served (try_start_next 3 two_tasks)
    × OnlyStarts two_tasks (try_start_next 3 two_tasks)
try_start_next_slots_example = try_start_next_slots 3 two_tasks two_tasks-Inv two_tasks-IsCapped

complete_task_slots_example :
    IsCapped (complete_task 3 two_tasks "a")
    × IsBusy (complete_task 3 two_tasks "a")
    × Served (complete_task 3 two_tasks "a")
complete_task_slots_example =
    complete_task_slots 3 two_tasks "a" two_tasks-Inv two_tasks-IsCapped (inl two_tasks_full)

remove_leaves_slot_example : ¬ IsBusy (remove_task two_tasks "a").0
unfolding find_pq_index lookup add afd.Prelude.has_key new_task_queue new_task afd.Prelude.insert
    afd.Prelude.◌+ℤ◌ push
remove_leaves_slot_example =
    remove_leaves_slot two_tasks "a" 0 0 refl refl refl two_tasks-IsCapped (omega arith)

failure_keeps_slot_example :
    ((report_failure 3 two_tasks 0 "refused").active_count ≡ two_tasks.active_count)
    × ((report_failure 3 two_tasks 0 "refused").tasks ≡ two_tasks.tasks)
    × ((report_failure 3 two_tasks 0 "refused").pq ≡ two_tasks.pq)
    × ((report_failure 3 two_tasks 0 "refused").log ≡ two_tasks.log)
    × (status_of (report_failure 3 two_tasks 0 "refused") 0 ≡ failed)
unfolding lookup add afd.Prelude.has_key new_task_queue new_task afd.Prelude.insert afd.Prelude.◌+ℤ◌
failure_keeps_slot_example = failure_keeps_slot 3 two_tasks 0 "refused" refl

change_position_keeps_example :
    count (of_task 1) (change_position two_tasks "b" (pos 7) "POS_SET").0.pq
    ≡ count (of_task 1) two_tasks.pq
change_position_keeps_example = change_position_keeps two_tasks "b" (pos 7) "POS_SET" 1

abbrev entry : ℕ → ℤ → PriorityItem
entry r n = record { task = r; priority = n; index = pos 0 }

abbrev three_entries : PriorityQueue
three_entries = push (push (push [] (entry 0 (pos 2))) (entry 1 (pos 1))) (entry 2 (negsuc 4))

three_entries-IsHeap : IsHeap three_entries (length three_entries)
three_entries-IsHeap =
    push-IsHeap (push (push [] (entry 0 (pos 2))) (entry 1 (pos 1))) (entry 2 (negsuc 4)) (
      push-IsHeap (push [] (entry 0 (pos 2))) (entry 1 (pos 1))
        (push-IsHeap [] (entry 0 (pos 2)) (λ k a b. absurd (omega arith))))

pop_first_example :
    ((pop three_entries).1.task ≡ (at three_entries 0).task)
    × ((k : ℕ) → k < length three_entries → (pop three_entries).1.priority ≤ℤ key three_entries k)
unfolding push at afd.Task.Heap.swap
pop_first_example = pop_first three_entries (omega arith) three_entries-IsHeap

remove-IsHeap_example : IsHeap (remove three_entries 1).0 (length (remove three_entries 1).0)
unfolding push at afd.Task.Heap.swap
remove-IsHeap_example = remove-IsHeap three_entries 1 (omega arith) three_entries-IsHeap

abbrev is_urgent : ItemTest
is_urgent r (pos _) = false
is_urgent r (negsuc _) = true

remove_keeps_example :
    (count is_urgent (remove three_entries 0).0 + passes is_urgent (remove three_entries 0).1
      ≡ count is_urgent three_entries)
    × (length (remove three_entries 0).0 + 1 ≡ length three_entries)
unfolding push at afd.Task.Heap.swap
remove_keeps_example = remove_keeps is_urgent three_entries 0 (omega arith)

remove_task-Inv_example : Inv (remove_task two_tasks "a").0
remove_task-Inv_example = remove_task-Inv two_tasks "a" two_tasks-Inv

abbrev failed_last : ℕ → Task
failed_last zero = named "a"
failed_last (suc zero) = named "b"
failed_last (suc (suc _)) = set_error 0 "refused" (named "c")

abbrev stopped_task : TaskQueue
stopped_task = (add 5 (new_task_queue failed_last all_callbacks (pos 1)) 2).0

purge_takes_one : (purge_stopped stopped_task).1 ≡ 1
unfolding purge_stopped add afd.Prelude.has_key new_task_queue set_error afd.Prelude.insert
purge_takes_one = refl
