-- ===== src/Tasks/Checkpoints.antt =====
-- The step budget of a task, over any operations on the store (tasks.py).
use openmuse.Common.{
  String, ◌≡◌, ap, sym, subst, ◌∙◌, some, List, [], ◌∷◌, ◌==◌, eq_iff, eq_refl, arith, lookup,
  lookup-insert, ℤ, pos, ◌≤ℤ◌, Outcome, ok, err, Bool-cases, Option-cases, Outcome-cases, inl, inr,
}
use openmuse.Common.Json.{Fields}
use openmuse.Tasks.{
  TaskRecord, TaskStore, save, create, get_task, set_checkpoint, cancel, append_event, post_message,
}

-- Every row stands under its own id, and no task is past its budget.
pub record IsTask (id : String) (t : TaskRecord) : Type 0 where
  pub named : t.id ≡ id
  pub budget : t.step ≤ℤ t.max_steps

abbrev pub IsValid : TaskStore → Type 0
IsValid s = (id : String) (t : TaskRecord) → get_task s id ≡ some t → IsTask id t

save-IsValid :
    (s : TaskStore) (t : TaskRecord) → IsValid s → t.step ≤ℤ t.max_steps → IsValid (save s t)
unfolding save get_task
save-IsValid s t valid fits id u h = elim (Bool-cases (t.id == id)) [
  | inr other ↦ valid id u (ground (arith, h, other, lookup-insert t.id id t s.tasks))
  | inl same ↦
      let is_t : t ≡ u = ground (arith, h, same, lookup-insert t.id id t s.tasks) in
      record {
        named = sym (ap (λ (x : TaskRecord). x.id) is_t) ∙ (eq_iff t.id id).0 same;
        budget = subst (λ (x : TaskRecord). x.step ≤ℤ x.max_steps) is_t fits;
      }
]

-- What a checkpoint that is accepted does: the task is known, the step is within its budget, and the
-- task keeps its id, its goal and its budget.
pub set_checkpoint-ok :
    (s s' : TaskStore) (id : String) (step : ℤ) (payload : Fields) (status : String)
    (t' : TaskRecord)
    → set_checkpoint s id step payload status ≡ ok (t', s')
    → (t : TaskRecord) × (get_task s id ≡ some t)
      × (step ≤ℤ t.max_steps)
      × (t' ≡ record t { status = status; step = step; checkpoint = payload })
      × (s' ≡ save s t')
unfolding set_checkpoint
set_checkpoint-ok s s' id step payload status t' h = elim (Option-cases (get_task s id)) [
  | inl e ↦ absurd (ground (arith, e, h))
  | inr (t, e) ↦ (t, e, ground (arith, e, h), ground (arith, e, h), ground (arith, e, h))
]

-- A request to the store.
pub data Op : Type 0 where
  create_task : String → ℤ → String → Op
  checkpoint_task : String → ℤ → Fields → String → Op
  cancel_task : String → Op
  event : String → String → Fields → Op
  message : String → String → String → Op

-- The store after a request: a request that raises leaves it alone.
abbrev pub stored {ℓ} : {A : Type ℓ} → TaskStore → Outcome (A × TaskStore) → TaskStore
stored s (ok (a, s')) = s'
stored s (err e) = s

unfoldable pub apply : TaskStore → Op → TaskStore
apply s (Op.create_task goal max_steps id) = (create s goal max_steps id).1
apply s (Op.checkpoint_task id step payload status) =
    stored s (set_checkpoint s id step payload status)
apply s (Op.cancel_task id) = stored s (cancel s id)
apply s (Op.event id kind payload) = stored s (append_event s id kind payload)
apply s (Op.message id author body) = stored s (post_message s id author body)

unfoldable pub apply_all : TaskStore → List Op → TaskStore
apply_all s [] = s
apply_all s (op ∷ ops) = apply_all (apply s op) ops

-- The budgets of new tasks are not negative.
abbrev pub Budgeted : Op → Type 0
Budgeted (Op.create_task goal max_steps id) = pos 0 ≤ℤ max_steps
Budgeted _ = Unit

abbrev pub AllBudgeted : List Op → Type 0
AllBudgeted [] = Unit
AllBudgeted (op ∷ ops) = Budgeted op × AllBudgeted ops

checkpoint-IsValid :
    (s : TaskStore) (id : String) (step : ℤ) (payload : Fields) (status : String)
    → IsValid s
    → IsValid (stored s (set_checkpoint s id step payload status))
checkpoint-IsValid s id step payload status valid =
    elim (Outcome-cases (set_checkpoint s id step payload status)) [
      | inr (x, e) ↦ rw e valid
      | inl ((t', s'), e) ↦
          let (t, found, fits, is_t, is_s) = set_checkpoint-ok s s' id step payload status t' e in
          let budget : t'.step ≤ℤ t'.max_steps = rw is_t fits in
          rw (e, is_s) (save-IsValid s t' valid budget)
    ]

cancel-IsValid : (s : TaskStore) (id : String) → IsValid s → IsValid (stored s (cancel s id))
unfolding cancel
cancel-IsValid s id valid = elim (Option-cases (get_task s id)) [
  | inl e ↦ rw e valid
  | inr (t, e) ↦ rw e (checkpoint-IsValid s t.id t.step t.checkpoint "canceled" valid)
]

event-IsValid :
    (s : TaskStore) (id kind : String) (payload : Fields)
    → IsValid s
    → IsValid (stored s (append_event s id kind payload))
unfolding append_event get_task
event-IsValid s id kind payload valid = elim (Option-cases (lookup id s.tasks)) [
  | inl e ↦ rw e valid
  | inr (t, e) ↦ rw e valid
]

apply-IsValid : (s : TaskStore) (op : Op) → Budgeted op → IsValid s → IsValid (apply s op)
unfolding apply
apply-IsValid s (Op.create_task goal max_steps id) b valid =
    unfold create in save-IsValid s _ valid b
apply-IsValid s (Op.checkpoint_task id step payload status) b valid =
    checkpoint-IsValid s id step payload status valid
apply-IsValid s (Op.cancel_task id) b valid = cancel-IsValid s id valid
apply-IsValid s (Op.event id kind payload) b valid = event-IsValid s id kind payload valid
apply-IsValid s (Op.message id author body) b valid =
    unfold post_message in event-IsValid s id "message" _ valid

-- Over any requests from a valid store, no task is ever past its budget, when no task is created with
-- a negative number of steps.
pub apply_all-IsValid :
    (ops : List Op) (s : TaskStore) → AllBudgeted ops → IsValid s → IsValid (apply_all s ops)
unfolding apply_all
apply_all-IsValid [] s b valid = valid
apply_all-IsValid (op ∷ ops) s b valid =
    apply_all-IsValid ops (apply s op) b.1 (apply-IsValid s op b.0 valid)

-- In a valid store a known task can always be canceled, and keeps its step and its checkpoint.
cancel_total :
    (s : TaskStore) (id : String) (t : TaskRecord)
    → IsValid s
    → get_task s id ≡ some t
    → let t' = record t { status = "canceled" } in
      (cancel s id ≡ ok (t', save s t')) × (get_task (save s t') id ≡ some t')
unfolding cancel set_checkpoint save get_task
cancel_total s id t valid h =
    let is_task = valid id t h in
    let named = is_task.named in
    let budget = is_task.budget in
    ground (
      arith,
      h,
      named,
      budget,
      eq_refl id,
      lookup-insert id id (record t { status = "canceled" }) s.tasks,
    )
