-- ===== src/Tasks/Events.antt =====
-- The event stream of a task (tasks.py).
use openmuse.Common.{
  ℕ, ◌+◌, ◌≤◌, ◌<◌, String, ◌≡◌, refl, ◌&&◌, List, [], ◌∷◌, ◌++◌, ◌==◌, ltb, if◌then◌else◌, arith,
  ok, Option-cases, inl, inr,
}
use openmuse.Common.Json.{Fields}
use openmuse.Tasks.{Event, TaskStore, get_task, append_event, select, events}

-- The rows are numbered upwards, and none beyond the counter.
abbrev pub Ascending : ℕ → List Event → Type 0
Ascending low [] = Unit
Ascending low (e ∷ es) = (low < e.sequence) × Ascending e.sequence es

abbrev pub Bounded : ℕ → List Event → Type 0
Bounded high [] = Unit
Bounded high (e ∷ es) = (e.sequence ≤ high) × Bounded high es

pub record IsOrdered (s : TaskStore) : Type 0 where
  pub ascending : Ascending 0 s.event_rows
  pub bounded : Bounded s.sequence s.event_rows

Ascending-snoc :
    (low high : ℕ) (es : List Event) (e : Event)
    → Ascending low es
    → Bounded high es
    → low ≤ high
    → high < e.sequence
    → Ascending low (es ++ e ∷ [])
Ascending-snoc low high [] e a b h k = (omega arith, tt)
Ascending-snoc low high (x ∷ es) e a b h k =
    (a.0, Ascending-snoc x.sequence high es e a.1 b.1 b.0 k)

Bounded-snoc :
    (high : ℕ) (es : List Event) (e : Event)
    → Bounded high es
    → high < e.sequence
    → Bounded e.sequence (es ++ e ∷ [])
Bounded-snoc high [] e b k = omega arith
Bounded-snoc high (x ∷ es) e b k = ground (arith, Bounded-snoc high es e b.1 k)

-- The event that `append_event` writes.
abbrev pub written : TaskStore → String → String → Fields → Event
written s id kind payload = record {
  sequence = s.sequence + 1;
  task_id = id;
  kind = kind;
  payload = payload;
}

append_event-ok :
    (s s' : TaskStore) (id kind : String) (payload : Fields) (n : ℕ)
    → append_event s id kind payload ≡ ok (n, s')
    → (n ≡ s.sequence + 1)
      × (s' ≡ record s {
        event_rows = s.event_rows ++ written s id kind payload ∷ [];
        sequence = s.sequence + 1;
      })
unfolding append_event
append_event-ok s s' id kind payload n h = elim (Option-cases (get_task s id)) [
  | inl e ↦ absurd (ground (arith, e, h))
  | inr (t, e) ↦ (ground (arith, e, h), ground (arith, e, h))
]

-- Appending keeps the numbering.
pub append_event-IsOrdered :
    (s s' : TaskStore) (id kind : String) (payload : Fields) (n : ℕ)
    → IsOrdered s
    → append_event s id kind payload ≡ ok (n, s')
    → IsOrdered s'
append_event-IsOrdered s s' id kind payload n o h =
    let (is_n, is_s) = append_event-ok s s' id kind payload n h in
    rw is_s (record {
      ascending =
          Ascending-snoc 0 s.sequence s.event_rows (written s id kind payload) o.ascending o.bounded
            (omega arith) (omega arith);
      bounded =
          Bounded-snoc s.sequence s.event_rows (written s id kind payload) o.bounded (omega arith);
    })

select-snoc :
    (id : String) (after : ℕ) (es : List Event) (e : Event)
    → select id after (es ++ e ∷ [])
      ≡ select id after es ++ (if e.task_id == id && ltb after e.sequence then e ∷ [] else [])
unfolding select
select-snoc id after [] e = refl
select-snoc id after (x ∷ es) e = ground (arith, select-snoc id after es e)

select-Bounded :
    (id : String) (after high : ℕ) (es : List Event)
    → Bounded high es
    → high ≤ after
    → select id after es ≡ []
unfolding select
select-Bounded id after high [] b h = refl
select-Bounded id after high (x ∷ es) b h = ground (arith, select-Bounded id after high es b.1 h)

-- A reader that has seen everything up to the counter sees exactly the next event of its task, once
-- it is appended, and nothing of another task.
pub events-append_event :
    (s s' : TaskStore) (id reader kind : String) (payload : Fields) (n : ℕ)
    → IsOrdered s
    → append_event s id kind payload ≡ ok (n, s')
    → events s' reader s.sequence ≡ (if id == reader then written s id kind payload ∷ [] else [])
unfolding events
events-append_event s s' id reader kind payload n o h =
    let (is_n, is_s) = append_event-ok s s' id kind payload n h in
    ground (
      arith,
      is_s,
      select-snoc reader s.sequence s.event_rows (written s id kind payload),
      select-Bounded reader s.sequence s.sequence s.event_rows o.bounded,
    )
