-- ===== src/Core/Loop.antt =====
-- The results of executions, and how many `Agent.run` makes (core.py).
use openmuse.Common.{
  ℕ, zero, suc, ◌+◌, ◌≤◌, ◌≡◌, inl, inr, false, Option, List, [], ◌∷◌, ◌++◌, arith, Outcome, ok,
  err, Exception, Bool-cases, Option-cases, Outcome-cases, length, length-append, All, All-append,
}
use openmuse.Models.{Action, ToolResult}
use openmuse.Registry.{catalogue}
use openmuse.Core.{Host, State, Times, Tools, Planner, stops, execute, run_steps, run}

-- Every result but the last one lets the loop go on.
abbrev pub GoesOn : ToolResult → Type 0
GoesOn result = stops result.status ≡ false

abbrev pub StopsLast : List ToolResult → Type 0
StopsLast [] = Unit
StopsLast (x ∷ []) = Unit
StopsLast (x ∷ y ∷ l) = GoesOn x × StopsLast (y ∷ l)

StopsLast-snoc : (l : List ToolResult) (x : ToolResult) → All GoesOn l → StopsLast (l ++ x ∷ [])
StopsLast-snoc [] x g = tt
StopsLast-snoc (y ∷ []) x g = (g.0, tt)
StopsLast-snoc (y ∷ z ∷ l) x g = (g.0, StopsLast-snoc (z ∷ l) x g.1)

All→StopsLast : (l : List ToolResult) → All GoesOn l → StopsLast l
All→StopsLast [] g = tt
All→StopsLast (x ∷ []) g = tt
All→StopsLast (x ∷ y ∷ l) g = (g.0, All→StopsLast (y ∷ l) g.1)

module _ (h : Host) {P : Type 0} (tools : Tools h) (plan : Planner P) (times : ℕ → Times) where
  -- What a run that raises has: an execution that raised the same.
  abbrev pub Raised : Exception → Type 0
  Raised e =
      (action : Action) × (n : ℕ) × (s : State h) × ((execute h tools action (times n) s).0 ≡ err e)

  -- How a history may end after at most `n` more rounds.
  abbrev pub Ends : ℕ → List ToolResult → Outcome (List ToolResult) → Type 0
  Ends n history (ok l) = (length l ≤ length history + n) × StopsLast l
  Ends n history (err e) = Raised e

  Ends-suc :
      (n : ℕ) (history : List ToolResult) (x : ToolResult) (o : Outcome (List ToolResult))
      → Ends n (history ++ x ∷ []) o
      → Ends (suc n) history o
  Ends-suc n history x (ok l) e = (omega (arith, length-append history (x ∷ []), e.0), e.1)
  Ends-suc n history x (err y) e = e

  abbrev next_plan : List ToolResult → P → Option Action × P
  next_plan history p = plan (catalogue tools) history p

  step :
      (n : ℕ) (history : List ToolResult) (p : P) (s : State h)
      → All GoesOn history
      → ((x : ToolResult) (p' : P) (s' : State h)
          → GoesOn x
          → Ends n (history ++ x ∷ []) (run_steps h tools plan times n (history ++ x ∷ []) p' s').0)
      → Ends (suc n) history (run_steps h tools plan times (suc n) history p s).0
  unfolding run_steps
  step n history p s g ih = elim (Option-cases (next_plan history p).0) [
    | inl e ↦ rw (e, run_steps) (omega arith, All→StopsLast history g)
    | inr (action, e) ↦ elim (Outcome-cases (execute h tools action (times n) s).0) [
      | inr (x, f) ↦ rw (e, f, run_steps) (action, n, s, f)
      | inl (x, f) ↦ elim (Bool-cases (stops x.status)) [
        | inl c ↦
            rw (e, f, c, run_steps)
              (omega (arith, length-append history (x ∷ [])), StopsLast-snoc history x g)
        | inr c ↦
            rw (e, f, c, run_steps)
              (Ends-suc n history x
                (run_steps h tools plan times n (history ++ x ∷ []) (next_plan history p).1
                  (execute h tools action (times n) s).1).0
                (ih x (next_plan history p).1 (execute h tools action (times n) s).1 c))
      ]
    ]
  ]

  run_steps-Ends :
      (n : ℕ) (history : List ToolResult) (p : P) (s : State h)
      → All GoesOn history
      → Ends n history (run_steps h tools plan times n history p s).0
  run_steps-Ends zero history p s g = unfold run_steps in (omega arith, All→StopsLast history g)
  run_steps-Ends (suc n) history p s g =
      let ih = λ (x : ToolResult) (p' : P) (s' : State h) (c : GoesOn x).
        run_steps-Ends n (history ++ x ∷ []) p' s' (All-append GoesOn history (x ∷ []) g (c, tt)) in
      step n history p s g ih

  -- A run either returns at most `max_steps` results, of which every one before the last is of an
  -- action that was neither blocked nor failed, or raises what one of its executions raised.
  pub run-Ends :
      (max_steps : ℕ) (p : P) (s : State h)
      → Ends max_steps [] (run h tools plan times max_steps p s).0
  unfolding run
  run-Ends max_steps p s = run_steps-Ends max_steps [] p s tt
