-- ===== src/Worker/Bounded.antt =====
-- What stands behind a worker's result (container_worker.py, isolated_worker.py, bounded_process.py).
use openmuse.Common.{
  ◌<◌, codes, Text, ◌≡◌, true, Option, none, some, inl, inr, List, length, arith, pos, eqb_ℤ→eq, ok,
  >>=-eq-ok, Option-cases, Outcome-cases,
}
use openmuse.Common.Json.{Json, Fields, field, end}
use openmuse.Worker.{
  WorkerLimits, WorkerResult, Completed, Platform, captured, run_bounded, as_object, conclude,
  run_worker, ContainerWorker, has_part, container_worker, runtime_command, run_container, run_tool,
}

module _ (p : Platform) where
  -- A process that ended by itself with code 0, whose outputs stayed below the limit, and whose
  -- standard output is a JSON object.
  pub record Ended (limits : WorkerLimits) (command : List Text) (request : Text) (output : Fields)
      : Type 0 where
    pub process : Completed
    pub started : p.start command request limits.timeout_seconds ≡ some process
    pub succeeded : process.returncode ≡ pos 0
    pub stdout_bound : length process.stdout < limits.output_bytes
    pub stderr_bound : length process.stderr < limits.output_bytes
    pub answered : p.loads (p.decode process.stdout) ≡ some (Json.obj output)

  as_object-ok : (j : Option Json) (fs : Fields) → as_object p j ≡ ok fs → j ≡ some (Json.obj fs)
  as_object-ok none fs h = absurd (cc)
  as_object-ok (some (Json.obj gs)) fs h = ground (arith, h)
  as_object-ok (some _) fs h = absurd (cc)

  conclude-ok :
      (limits : WorkerLimits) (c : Completed) (r : WorkerResult)
      → conclude p limits c ≡ ok r
      → (c.returncode ≡ pos 0) × (p.loads c.stdout ≡ some (Json.obj r.output))
  unfolding conclude
  conclude-ok limits c r h = elim (Outcome-cases (as_object p (p.loads c.stdout))) [
    | inl (response, e) ↦
        let code : c.returncode ≡ pos 0 = eqb_ℤ→eq c.returncode (pos 0) (ground (arith, h, e)) in
        let is_output : response ≡ r.output = ground (arith, h, e) in
        (code, as_object-ok (p.loads c.stdout) r.output (ground (arith, e, is_output)))
    | inr (reason, e) ↦ absurd (ground (arith, h, e))
  ]

  run_worker-Ended :
      (limits : WorkerLimits) (command : List Text) (request : Fields) (r : WorkerResult)
      → run_worker p limits command request ≡ ok r
      → Ended limits command (p.dumps (Json.obj request)) r.output
  unfolding run_worker run_bounded captured
  run_worker-Ended limits command request r h =
      let (c, bounded, h1) =
        >>=-eq-ok
          (run_bounded p command (p.dumps (Json.obj request)) limits.output_bytes
            limits.timeout_seconds)
          _ h in
      elim (Option-cases (p.start command (p.dumps (Json.obj request)) limits.timeout_seconds)) [
        | inl e ↦ absurd (ground (arith, bounded, e))
        | inr (process, e) ↦
            let is_c : record {
              returncode = process.returncode;
              stdout = p.decode process.stdout;
              stderr = p.decode process.stderr;
            }
                ≡ c =
              ground (arith, bounded, e) in
            let (code, answered) = conclude-ok limits c r h1 in
            record {
              process = process;
              started = e;
              succeeded = ground (arith, is_c, code);
              stdout_bound = ground (arith, bounded, e);
              stderr_bound = ground (arith, bounded, e);
              answered = ground (arith, is_c, answered);
            }
      ]

  -- The output of a worker tool is the JSON of an object that a container answered: the image is
  -- pinned by a digest, and the process of the locked-down command ended by itself, within its time,
  -- with code 0 and less output than the limit.
  pub run_tool-Ended :
      (w v : ContainerWorker) (kwargs : Fields) (output : Text)
      → container_worker w ≡ ok v
      → run_tool p v kwargs ≡ ok output
      → (has_part (codes "@sha256:") v.image ≡ true)
        × ((response : Fields) × (output ≡ p.dumps_sorted (Json.obj response))
            × Ended v.limits
                (runtime_command v)
                (p.dumps (Json.obj (field "arguments" (Json.obj kwargs) end)))
                response)
  unfolding run_tool run_container container_worker
  run_tool-Ended w v kwargs output made h =
      let (r, ran, h1) =
        >>=-eq-ok
          (run_worker p v.limits (runtime_command v) (field "arguments" (Json.obj kwargs) end)) _
          h in
      (
        ground (arith, made),
        (
          r.output,
          ground (arith, h1),
          run_worker-Ended v.limits (runtime_command v) (field "arguments" (Json.obj kwargs) end) r
              ran,
        ),
      )
