-- ===== src/Task/Model.antt =====
-- internal/task/model.go: a task and its methods. Each method holds the task's mutex from its first
-- line to its last, so it is one atomic step. A clock reading is the argument `now`; a context and a
-- cancel function are handles.
pub mod Laws
use afd.Prelude.{
  ℕ, ℤ, pos, String, Bool, true, false, ◌||◌, List, [], ◌∷◌, ◌++◌, Option, none, some, GoMap, arith,
  if◌then◌else◌, ltb_ℤ,
}

pub data TaskStatus : Type 0 where
  pending downloading paused done failed cancelled : TaskStatus

pub record ChunkInfo : Type 0 where
  pub index : ℤ
  pub start : ℤ
  pub end : ℤ
  pub downloaded : ℤ
  pub status : TaskStatus

pub record Task : Type 0 where
  pub id : String
  pub url : String
  pub output_path : String
  pub status : TaskStatus
  pub total_size : ℤ
  pub downloaded_size : ℤ
  pub speed : ℤ
  pub created_at : ℕ
  pub updated_at : ℕ
  pub target_node : String
  pub protocol : String
  pub metadata : GoMap String
  pub chunks : List ChunkInfo
  pub error : String
  pub priority : ℤ
  pub checksum_type : String
  pub checksum_value : String
  pub ctx : Option ℕ
  pub cancel : Option ℕ

-- `id` is what `GenerateID` draws.
unfoldable pub new_task : ℕ → String → String → String → Task
new_task now id url output_path = record {
  id = id;
  url = url;
  output_path = output_path;
  status = pending;
  total_size = pos 0;
  downloaded_size = pos 0;
  speed = pos 0;
  created_at = now;
  updated_at = now;
  target_node = "";
  protocol = "";
  metadata = [];
  chunks = [];
  error = "";
  priority = pos 0;
  checksum_type = "";
  checksum_value = "";
  ctx = none;
  cancel = none;
}

abbrev pub is_pending : TaskStatus → Bool
is_pending pending = true
is_pending _ = false

abbrev pub is_downloading : TaskStatus → Bool
is_downloading downloading = true
is_downloading _ = false

abbrev pub is_paused : TaskStatus → Bool
is_paused paused = true
is_paused _ = false

-- `Done`, `Failed` or `Cancelled`.
abbrev pub is_stopped : TaskStatus → Bool
is_stopped done = true
is_stopped failed = true
is_stopped cancelled = true
is_stopped _ = false

unfoldable pub is_completed : Task → Bool
is_completed t = is_stopped t.status

unfoldable pub is_active : Task → Bool
is_active t = is_pending t.status || is_downloading t.status

unfoldable pub set_status : ℕ → TaskStatus → Task → Task
set_status now status t = record t { status = status; updated_at = now }

unfoldable pub set_target_node : ℕ → String → Task → Task
set_target_node now node t = record t { target_node = node; updated_at = now }

unfoldable pub set_error : ℕ → String → Task → Task
set_error now err t = record t { error = err; status = failed; updated_at = now }

unfoldable pub set_priority : ℕ → ℤ → Task → Task
set_priority now priority t = record t { priority = priority; updated_at = now }

unfoldable pub set_metadata : ℕ → GoMap String → Task → Task
set_metadata now metadata t = record t { metadata = metadata; updated_at = now }

-- Negative sizes are taken as 0.
unfoldable pub update_progress : ℕ → ℤ → ℤ → ℤ → Task → Task
update_progress now downloaded total speed t = record t {
  downloaded_size = if ltb_ℤ downloaded (pos 0) then pos 0 else downloaded;
  total_size = if ltb_ℤ total (pos 0) then pos 0 else total;
  speed = speed;
  updated_at = now;
}

unfoldable pub add_chunk : ℤ → ℤ → ℤ → Task → Task
add_chunk index start end t = record t {
  chunks =
      t.chunks
      ++ record { index = index; start = start; end = end; downloaded = pos 0; status = pending }
        ∷ [];
}

-- `GetSafe`: a copy without the context and the cancel function.
unfoldable pub get_safe : Task → Task
get_safe t = record t { ctx = none; cancel = none }

unfoldable pub set_context : ℕ → Task → Task
set_context ctx t = record t { ctx = some ctx }

unfoldable pub set_cancel : ℕ → Task → Task
set_cancel cancel t = record t { cancel = some cancel }

-- The new task, and the cancel function that is called after the lock is released.
unfoldable pub cancel_task : Task → Task × Option ℕ
cancel_task t =
    if is_stopped t.status then (t, none) else (record t { status = cancelled }, t.cancel)
