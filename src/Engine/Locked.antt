-- ===== src/Engine/Locked.antt =====
-- Progressive disclosure in harness/runtime/engine.py: a tool of a server that is not unlocked.
