-- ===== src/Tasks.antt =====
-- src/openmuse/tasks.py: task records with checkpoints, and their events. A checkpoint is the JSON
-- object that the row holds as text. The time stamps of rows are not read back, and are left out.
pub mod Checkpoints
pub mod Events
mod Tests
use openmuse.Common.{
  ℕ, suc, ◌+◌, String, ◌≡◌, Bool, true, false, ◌&&◌, Option, none, some, List, [], ◌∷◌, ◌++◌, ◌==◌,
  ltb, if◌then◌else◌, Dict, lookup, insert, contains, is_some, ℤ, pos, ltb_ℤ, Outcome, ok, err,
  key_error, value_error, ◌>>=◌, ◌>>◌, raise_if, or_raise, not,
}
use openmuse.Common.Json.{Json, Fields, field, end}

pub record TaskRecord : Type 0 where
  pub id : String
  pub goal : String
  pub status : String
  pub step : ℤ
  pub max_steps : ℤ
  pub checkpoint : Fields

pub record Event : Type 0 where
  pub sequence : ℕ
  pub task_id : String
  pub kind : String
  pub payload : Fields

-- The two tables; `sequence` is the last number that AUTOINCREMENT gave out.
pub record TaskStore : Type 0 where
  pub tasks : Dict TaskRecord
  pub event_rows : List Event
  pub sequence : ℕ

-- `_save`: INSERT OR REPLACE by id
unfoldable pub save : TaskStore → TaskRecord → TaskStore
save s task = record s { tasks = insert task.id task s.tasks }

unfoldable pub create : TaskStore → String → ℤ → String → TaskRecord × TaskStore
create s goal max_steps fresh_id =
    let task =
      let t : TaskRecord = record {
        id = fresh_id;
        goal = goal;
        status = "pending";
        step = pos 0;
        max_steps = max_steps;
        checkpoint = end;
      } in
      t in
    (task, save s task)

unfoldable pub get_task : TaskStore → String → Option TaskRecord
get_task s task_id = lookup task_id s.tasks

-- `checkpoint`
unfoldable pub set_checkpoint :
    TaskStore → String → ℤ → Fields → String → Outcome (TaskRecord × TaskStore)
set_checkpoint s task_id step payload status = do
  task ← or_raise (get_task s task_id) (key_error task_id)
  raise_if (ltb_ℤ task.max_steps step) (value_error "step budget exceeded")
  let updated =
      let t : TaskRecord = record task { status = status; step = step; checkpoint = payload } in t
  ok (updated, save s updated)

unfoldable pub cancel : TaskStore → String → Outcome (TaskRecord × TaskStore)
cancel s task_id = do
  task ← or_raise (get_task s task_id) (key_error task_id)
  set_checkpoint s task.id task.step task.checkpoint "canceled"

unfoldable pub append_event : TaskStore → String → String → Fields → Outcome (ℕ × TaskStore)
append_event s task_id kind payload = do
  raise_if (not (is_some (get_task s task_id))) (key_error task_id)
  let n = s.sequence + 1
  ok (
    n,
    record s {
      event_rows =
          s.event_rows
          ++ record { sequence = n; task_id = task_id; kind = kind; payload = payload } ∷ [];
      sequence = n;
    },
  )

-- `WHERE task_id=? AND sequence>? ORDER BY sequence`: rows stand in the order of their numbers.
unfoldable pub select : String → ℕ → List Event → List Event
select task_id after [] = []
select task_id after (e ∷ es) =
    let rest = select task_id after es in
    if e.task_id == task_id && ltb after e.sequence then e ∷ rest else rest

unfoldable pub events : TaskStore → String → ℕ → List Event
events s task_id after = select task_id after s.event_rows

unfoldable pub post_message : TaskStore → String → String → String → Outcome (ℕ × TaskStore)
post_message s task_id author body =
    append_event s task_id "message"
      (field "author" (Json.str author) (field "body" (Json.str body) end))
