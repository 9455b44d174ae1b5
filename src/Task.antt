-- ===== src/Task.antt =====
-- internal/task: a download task, the priority heap and the queue of tasks.
pub mod Model
pub mod Heap
pub mod Queue
