-- ===== src/Worker.antt =====
-- worker/: the parsers and the runner of the parse jobs.
pub mod Parser
pub mod Runner
