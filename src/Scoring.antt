-- ===== src/Scoring.antt =====
-- Scoring (internal/biz/score.go, internal/biz/score_outbox.go, internal/data/score_outbox_repo.go):
-- events that ask for the relevance score of a post or of a digest.
pub mod Outbox
pub mod Enqueue
pub mod Relevance
pub mod Ports
pub mod Scores
pub mod Embeddings
pub mod Usecase
pub mod Worker
