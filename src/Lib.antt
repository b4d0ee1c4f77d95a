-- ===== src/Lib.antt =====
-- Verification of feedium's backend: the pipeline that turns collected posts into summaries, and the
-- scoring of posts against interests.
--
-- The program. Sources (internal/biz/source.go) are channels, groups, feeds and pages; collectors
-- save their posts (internal/biz/post.go, internal/data/post_repo.go). The first save of a post of a
-- self-contained source puts an event into the outbox, the table summary_events, in the same
-- transaction; a scheduler does so for cumulative sources. Workers
-- (internal/task/event_worker_pool.go) claim events under a lease (internal/data/summary_outbox_repo.go),
-- have the use case summarize a post or the window of a source (internal/biz/summary_usecase.go), and
-- write the outcome back under the lease: completed, failed, expired, or pending again after a
-- backoff (internal/biz/summary_retry.go). A reaper ends events whose workers died.
-- A second outbox, the table score_events (internal/data/score_outbox_repo.go), has an event for each
-- summarized post and each digest without a score; its workers
-- (internal/task/score_event_worker_pool.go) compute the relevance of the text to the topics of the
-- interests (internal/biz/score.go), with the vectors that internal/data/post_embedding_repo.go keeps.
-- A change of the interests (internal/biz/interest.go) enqueues all scored posts again.
--
-- The files.
-- - Errors, Exec, Config, Uuid, Text: the sentinel errors with errors.Is and the wrapping of fmt.Errorf;
--   Go code that changes a world and may fail, as functions to a result and the world after it; the
--   getters of internal/conf with the fallbacks of the code; the uuid package as an interface;
--   texts as lists of bytes, with truncateUTF8, strings.TrimSpace and strings.Fields.
-- - Outbox: tables as lists of rows (Outbox.Table); events and rows (Outbox.Event); each SQL
--   statement as its WHERE and SET clauses (Outbox.Statements); the methods of summaryOutboxRepo,
--   under their names (Outbox.Repo); the invariant (Outbox.Invariant); interleavings of the calls of
--   any processes (Outbox.Run), with the theorems in Outbox.Once, Outbox.Lease and Outbox.Claim;
--   the machine of statuses that each row goes through without UpdateStatus (Outbox.Lifecycle).
--   UpdateStatus, which only tests call, is one of the calls.
-- - Retry: RetryPolicy on int64 durations with wrap-around.
-- - Worker: what EventWorkerPool does with a claimed event (finalize, writeTerminal, dispatch) and
--   the rounds of runWorker; Worker.Budget and Worker.Schedule are about them.
-- - Source, Post: types, validation and use cases; Post.Repo is List and Get of postRepo, with
--   Save, Update and Delete in Post.Repo.Writes; Post.Listing the pages from the first to the last.
--   Source.Repo is sourceRepo, with the JSON of a configuration in Source.Config.
-- - Collect: CollectUsecase (internal/biz/collect.go), with Collect.Stored and Collect.Again over
--   PostUsecase.Create and the repositories.
-- - Pages: keyset pagination as the repositories do it (internal/data/page_token.go).
-- - Summary: the use cases over the interfaces that they are given (Summary.Ports): the window of a
--   source (Summary.Window), the retries of the provider (Summary.Llm), ProcessPostEvent and
--   ProcessSourceEvent (Summary.Process), TriggerSourceSummarize and ScheduleNextCumulative
--   (Summary.Schedule), ReapStuckEvents (Summary.Reap); Summary.Repo is summaryRepo.
--   Summary.Window.Rows joins the window to the pages of Post.Repo, Summary.Reap.Sound joins the
--   reaper to the outbox.
-- - Scoring: score events and the methods of scoreOutboxRepo (Scoring.Outbox), with the map to the
--   rows of the summary outbox (Scoring.Outbox.Mirror) by which the lease protocol follows
--   (Scoring.Outbox.Run); the passes that enqueue events (Scoring.Enqueue); Cosine and Relevance
--   over an interface of floating-point numbers (Scoring.Relevance); ScoreUsecase over the
--   interfaces that it is given (Scoring.Ports, Scoring.Usecase); postEmbeddingRepo
--   (Scoring.Embeddings); the rounds of ScoreEventWorkerPool (Scoring.Worker).
-- - Interest: InterestUsecase over its interfaces; Interest.Repo is interestRepo
--   (internal/data/interest_repo.go), Interest.Repo.Outside the use case over its repositories.
-- - Reaction, Feed: ReactionUsecase with reactionRepo, and sequences of their calls (Reaction.Last);
--   FeedUsecase, with ListRanked of scoreRepo in Feed.Repo and its query in Feed.Rows; Upsert of
--   scoreRepo is Scoring.Scores. Feed.Hidden joins the reactions to the feed.
-- - Tx: txManager.InTx (internal/data/tx_manager.go) over a state that holds a database.
-- - Examples: tests, and runs that satisfy the hypotheses of the theorems.
--
-- Conventions. A database is the list of its rows; a statement takes now(), the rows that other
-- transactions lock, and the error of the driver, if it fails, as arguments; a guarded UPDATE may also
-- take effect and fail when its rows are counted (Fault). Times are in microseconds,
-- the resolution of the columns; the clock of a process is read in microseconds by the use cases and in
-- nanoseconds by the workers, and the times of a Source are in nanoseconds; durations are in nanoseconds, and a time that is stored is cut to the
-- microsecond. A uuid is its 128-bit value. An int that the code has made positive is a natural
-- number; int64 arithmetic that can overflow is written with its wrap-around.
--
-- Fuel and bounds. Only the loop over the pages of a window runs on fuel: it returns `none` where the
-- fuel is too little, and one unit more than the window has rows is enough. All other loops are by
-- recursion on a list or on the number of attempts. A pass of scoring takes at most 500 candidates.
--
-- Not modelled. The heartbeat's place in a round (its call is among those of Outbox.Run), the
-- cancellation and the shutdown of the pools; the text of page tokens, which is an interface with its
-- round trip; a transaction that a failed statement aborts; the loops of the collectors; the
-- arithmetic and the SQL comparison of floating-point numbers, what JSON makes of an integer beyond
-- 2^53, and the JSON of vectors. Network clients, services, servers, wiring and generated code are I/O
-- and translation. The parsing of URLs and of uuids is a parameter.
pub mod Prelude
pub mod Errors
pub mod Exec
pub mod Pages
pub mod Config
pub mod Retry
pub mod Uuid
pub mod Text
pub mod Source
pub mod Post
pub mod Collect
pub mod Summary
pub mod Tx
pub mod Outbox
pub mod Scoring
pub mod Interest
pub mod Reaction
pub mod Feed
pub mod Worker
pub mod Examples
