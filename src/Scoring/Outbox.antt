-- ===== src/Scoring/Outbox.antt =====
-- The outbox of score events: the table score_events and the methods of
-- internal/data/score_outbox_repo.go.
pub mod Event
pub mod Statements
pub mod Repo
pub mod Mirror
pub mod Run
