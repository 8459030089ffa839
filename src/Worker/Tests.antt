-- ===== src/Worker/Tests.antt =====
-- A container that answers an empty object (container_worker.py, worker_tool.py).
use openmuse.Common.{codes, Text, ◌≡◌, refl, some, [], ◌∷◌, pos, err, value_error}
use openmuse.Common.Json.{Json, end}
use openmuse.Worker.{
  Platform, captured, run_bounded, run_worker, ContainerWorker, has_part, container_worker,
  run_container, run_tool,
}

abbrev braces : Text
braces = b'{' ∷ b'}' ∷ []

abbrev toy : Platform
toy = record {
  start = λ c r t. some (record { returncode = pos 0; stdout = braces; stderr = [] });
  decode = λ t. t;
  encode = λ t. t;
  dumps = λ v. braces;
  dumps_sorted = λ v. braces;
  loads = λ t. some (Json.obj end);
}

abbrev worker : ContainerWorker
worker = record {
  image = codes "echo@sha256:00";
  command = codes "echo" ∷ [];
  limits = record { timeout_seconds = 10; memory_bytes = 64; output_bytes = 3 };
  runtime = codes "docker";
  pids_limit = 64;
  tmpfs_bytes = 64;
}

abbrev unpinned : ContainerWorker
unpinned = record worker { image = codes "echo:latest" }

refused :
    container_worker unpinned ≡ err (value_error "container image must be pinned by sha256 digest")
unfolding container_worker has_part
refused = refl

-- An output of exactly the limit is refused where the process is captured.
full :
    run_tool toy
      (record worker {
        limits = record { timeout_seconds = 10; memory_bytes = 64; output_bytes = 2 };
      })
      end
    ≡ err (value_error "worker output limit exceeded")
unfolding run_tool run_container run_worker run_bounded captured
full = refl
