-- ===== src/Outbox.antt =====
-- The outbox of summary events: the table summary_events and the methods of
-- internal/data/summary_outbox_repo.go.
pub mod Table
pub mod Event
pub mod Statements
pub mod Repo
pub mod Invariant
pub mod Preserve
pub mod Claim
pub mod Lifecycle
pub mod Run
pub mod Absorb
pub mod Once
pub mod Lease
