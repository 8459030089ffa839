-- ===== src/Worker.antt =====
-- src/openmuse/bounded_process.py, src/openmuse/isolated_worker.py, src/openmuse/container_worker.py,
-- src/openmuse/worker_tool.py: JSON workers in bounded processes, on POSIX. A process is a parameter:
-- for a command and a request it ends with a code and two outputs of bytes, or is stopped at the
-- timeout. Its resource limits and directories are left out, a timeout is whole seconds, and the
-- exceptions' texts leave out the worker's kind, its return code and its standard error.
pub mod Bounded
mod Tests
use openmuse.Common.{
  ℕ, String, codes, Text, text_eq, decimal, ◌≡◌, Bool, true, false, not, ◌&&◌, ◌||◌, Option, none,
  some, List, [], ◌∷◌, ◌++◌, ◌==◌, ltb, leb, eqb, if◌then◌else◌, length, ℤ, pos, eqb_ℤ, Outcome, ok,
  err, value_error, type_error, runtime_error, timeout_error, ◌>>=◌, ◌>>◌, raise_if, or_raise,
}
use openmuse.Common.Json.{Json, Fields, field, end}

pub record WorkerLimits : Type 0 where
  pub timeout_seconds : ℕ
  pub memory_bytes : ℕ
  pub output_bytes : ℕ

pub record WorkerResult : Type 0 where
  pub output : Fields
  pub stderr : Text

-- What a process left.
pub record Completed : Type 0 where
  pub returncode : ℤ
  pub stdout : Text
  pub stderr : Text

-- `subprocess.run`, `bytes.decode(errors="replace")`, `str.encode`, `json.dumps` without and with `sort_keys=True`,
-- and `json.loads`
pub record Platform : Type 0 where
  pub start : List Text → Text → ℕ → Option Completed
  pub decode : Text → Text
  pub encode : Text → Text
  pub dumps : Json → Text
  pub dumps_sorted : Json → Text
  pub loads : Text → Option Json

module _ (p : Platform) where
  -- The texts of the two outputs, neither of which filled its file.
  unfoldable pub captured : ℕ → Completed → Outcome Completed
  captured output_bytes c = do
    raise_if (leb output_bytes (length c.stdout)) (value_error "worker output limit exceeded")
    raise_if (leb output_bytes (length c.stderr)) (value_error "worker output limit exceeded")
    ok (record {
      returncode = c.returncode;
      stdout = p.decode c.stdout;
      stderr = p.decode c.stderr;
    })

  unfoldable pub run_bounded : List Text → Text → ℕ → ℕ → Outcome Completed
  run_bounded command request output_bytes timeout_seconds = do
    raise_if (ltb output_bytes 1 || ltb timeout_seconds 1)
        (value_error "positive output and timeout limits required")
    c ← or_raise (p.start command request timeout_seconds) (timeout_error "worker timed out")
    captured output_bytes c

  abbrev pub as_object : Option Json → Outcome Fields
  as_object none = err (value_error "invalid JSON")
  as_object (some (Json.obj fs)) = ok fs
  as_object (some _) = err (type_error "worker response must be a JSON object")

  -- What both workers do with the completed process.
  unfoldable pub conclude : WorkerLimits → Completed → Outcome WorkerResult
  conclude limits c = do
    raise_if
        (ltb limits.output_bytes (length (p.encode c.stdout))
          || ltb limits.output_bytes (length (p.encode c.stderr)))
        (value_error "worker output limit exceeded")
    raise_if (not (eqb_ℤ c.returncode (pos 0))) (runtime_error "worker failed")
    response ← as_object (p.loads c.stdout)
    ok (record { output = response; stderr = c.stderr })

  -- `IsolatedWorker.run`, and `ContainerWorker.run` with its own runner
  unfoldable pub run_worker : WorkerLimits → List Text → Fields → Outcome WorkerResult
  run_worker limits command request = do
    c ← run_bounded command (p.dumps (Json.obj request)) limits.output_bytes limits.timeout_seconds
    conclude limits c

abbrev pub starts : Text → Text → Bool
starts [] s = true
starts (c ∷ cs) [] = false
starts (c ∷ cs) (d ∷ s) = eqb c d && starts cs s

-- `needle in s`
unfoldable pub has_part : Text → Text → Bool
has_part needle [] = starts needle []
has_part needle (c ∷ s) = starts needle (c ∷ s) || has_part needle s

pub record ContainerWorker : Type 0 where
  pub image : Text
  pub command : List Text
  pub limits : WorkerLimits
  pub runtime : Text
  pub pids_limit : ℕ
  pub tmpfs_bytes : ℕ

abbrev pub is_missing : {A : Type 0} → List A → Bool
is_missing [] = true
is_missing (x ∷ xs) = false

-- `ContainerWorker.__init__`
unfoldable pub container_worker : ContainerWorker → Outcome ContainerWorker
container_worker w = do
  raise_if (is_missing w.image || is_missing w.command)
      (value_error "container image and worker command are required")
  raise_if (not (has_part (codes "@sha256:") w.image))
      (value_error "container image must be pinned by sha256 digest")
  ok w

unfoldable pub runtime_command : ContainerWorker → List Text
runtime_command w =
    w.runtime
    ∷ codes "run"
    ∷ codes "--rm"
    ∷ codes "--interactive"
    ∷ codes "--network=none"
    ∷ codes "--read-only"
    ∷ codes "--cap-drop=ALL"
    ∷ codes "--security-opt=no-new-privileges"
    ∷ (codes "--pids-limit=" ++ decimal w.pids_limit)
    ∷ (codes "--memory=" ++ decimal w.limits.memory_bytes)
    ∷ codes "--user=65532:65532"
    ∷ (codes "--tmpfs=/tmp:rw,noexec,nosuid,nodev,size=" ++ decimal w.tmpfs_bytes)
    ∷ w.image
    ∷ w.command

-- `ContainerWorker.run`
unfoldable pub run_container : Platform → ContainerWorker → Fields → Outcome WorkerResult
run_container p w request = run_worker p w.limits (runtime_command w) request

-- `WorkerTool.run`
unfoldable pub run_tool : Platform → ContainerWorker → Fields → Outcome Text
run_tool p w kwargs = do
  result ← run_container p w (field "arguments" (Json.obj kwargs) end)
  ok (p.dumps_sorted (Json.obj result.output))
