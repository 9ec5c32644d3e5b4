-- ===== src/Tests/Workers.antt =====
-- harness/workers/main.py after a worker's death.
use marcus.Prelude.{false, []}
use marcus.Run.Row.{AgentRun}
use marcus.Run.Status.{running}
use marcus.Tests.Fixtures.{fresh_run, leased}
use marcus.Tests.Loop.{sample_deps}
use marcus.Workers.{WorkerDeps}

abbrev second_run : AgentRun
second_run = leased (fresh_run 2 running 7) "a" 5000000

abbrev other_worker : WorkerDeps
other_worker = record {
  worker_id = "b";
  run_lease_ttl_seconds = 60;
  engine = sample_deps;
  llm_settings = [];
  has_value = false;
  gateway = λ settings. sample_deps.model;
}
