-- ===== src/Summary.antt =====
-- The use cases of summaries (internal/biz/summary_usecase.go): digests of posts and sources, their
-- scheduling, and the reaping of stuck events.
pub mod Ports
pub mod Repo
pub mod Window
pub mod Llm
pub mod Process
pub mod Schedule
pub mod Reap
