-- ===== src/Examples.antt =====
-- Tests of the definitions, and runs to which the theorems apply: codecs that read what they print, a
-- table of events with its calls, a pool's worker, worlds for the use cases, and passes of scoring.
pub mod Codecs
pub mod Events
pub mod Workers
pub mod World
pub mod Summaries
pub mod Sources
pub mod ScoreEvents
pub mod Scores
pub mod Interests
pub mod Repositories
pub mod Collections
pub mod Feeds
