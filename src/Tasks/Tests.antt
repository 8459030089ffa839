-- ===== src/Tasks/Tests.antt =====
-- One task with a budget of two steps (tasks.py).
use openmuse.Common.{
  ◌≡◌, refl, List, [], ◌∷◌, lookup, insert, pos, ◌≤ℤ◌, ok, err, value_error, arith,
}
use openmuse.Common.Json.{end}
use openmuse.Tasks.{
  TaskRecord, TaskStore, save, create, get_task, set_checkpoint, cancel, append_event, select,
  events,
}
use openmuse.Tasks.Checkpoints.{IsValid, Op, apply, apply_all, apply_all-IsValid}
use openmuse.Tasks.Events.{IsOrdered, written}

abbrev empty : TaskStore
empty = record { tasks = []; event_rows = []; sequence = 0 }

abbrev task : TaskRecord
task = record {
  id = "t";
  goal = "g";
  status = "pending";
  step = pos 0;
  max_steps = pos 2;
  checkpoint = end;
}

abbrev one : TaskStore
one = record empty { tasks = ("t", task) ∷ [] }

abbrev noted : TaskStore
noted = record one { event_rows = written one "t" "note" end ∷ []; sequence = 1 }

program : Unit {0}
unfolding create save get_task set_checkpoint cancel append_event select events lookup insert apply
    apply_all
program = tt

too_far : set_checkpoint one "t" (pos 3) end "running" ≡ err (value_error "step budget exceeded")
unfolding program
too_far = refl

notes : append_event one "t" "note" end ≡ ok (1, noted)
unfolding program
notes = refl

abbrev requests : List Op
requests =
    Op.create_task "g" (pos 2) "t"
    ∷ Op.checkpoint_task "t" (pos 2) end "running"
    ∷ Op.checkpoint_task "t" (pos 3) end "running"
    ∷ Op.cancel_task "t"
    ∷ []

empty-IsValid : IsValid empty
unfolding get_task lookup
empty-IsValid id t h = absurd (cc h)

one-IsOrdered : IsOrdered one
one-IsOrdered = record { ascending = tt; bounded = tt }

apply_all-IsValid_example : IsValid (apply_all empty requests)
apply_all-IsValid_example =
    apply_all-IsValid requests empty (zero_le, (tt, (tt, (tt, tt)))) empty-IsValid
  where
    zero_le : pos 0 ≤ℤ pos 2
    zero_le = omega arith

one-IsValid : IsValid one
unfolding program
one-IsValid =
    apply_all-IsValid (Op.create_task "g" (pos 2) "t" ∷ []) empty (omega arith, tt) empty-IsValid
