-- ===== src/Outbox/Repo.antt =====
-- The methods of summaryOutboxRepo (internal/data/summary_outbox_repo.go). A method takes the table
-- and returns its result and the table. `fault` is the error of the driver, if the database refuses
-- the statement or cannot be reached, or cannot count the rows of a guarded UPDATE; `now` is the
-- database's now(). Durations are in nanoseconds.
mod Guards
mod Mapping
mod Writes
mod Reads
unfoldable pub use Guards.*
unfoldable pub use Mapping.*
unfoldable pub use Writes.*
unfoldable pub use Reads.*
