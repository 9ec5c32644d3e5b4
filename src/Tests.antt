-- ===== src/Tests.antt =====
-- Concrete runs of the model: the theorems at inputs that meet their hypotheses.
mod Fixtures
mod Repository
mod Coding
mod Agent
mod Engine
mod Loop
mod Trimming
mod Compaction
mod Executor
mod Gateway
mod Guardrails
mod Intake
mod Urls
mod Skills
mod Context
mod Reaper
mod Results
mod Workers
