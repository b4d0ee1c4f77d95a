-- ===== src/Summary/Ports.antt =====
-- What SummaryUsecase is given (internal/biz/summary.go, internal/biz/post.go, internal/biz/source.go):
-- the repositories, the transaction manager, the resolvers of prompts and providers, the clock and
-- the source of identifiers, over the state `S` of everything that they read and change. A function
-- that runs in a transaction returns what its closure stores outside. The clock is read in microseconds; the bounds of a window are in nanoseconds.
use feedium.Prelude.{ℕ, String, Option, List, Bool}
use feedium.Prelude.Int.{ℤ}
use feedium.Errors.{Result, ok}
use feedium.Exec.{Exec}
use feedium.Text.{Text}
use feedium.Post.{Post, ListPostsFilter, ListPostsResult}
use feedium.Source.{Source, ProcessingMode}
use feedium.Outbox.Event.{SummaryEvent, SummaryEventType}

pub record Summary : Type 0 where
  pub id : String
  pub post_id : Option String
  pub source_id : String
  pub text : Text
  pub word_count : ℕ
  pub created_at : ℕ

pub record Ports (S : Type 0) : Type 1 where
  pub summaries_by_post : String → Exec S (List Summary)
  pub last_summary : String → Exec S (Option Summary)
  pub save_summary : Summary → Exec S Summary
  pub has_active_event : String → SummaryEventType → Exec S (Option SummaryEvent)
  pub save_event : SummaryEvent → Exec S SummaryEvent
  pub list_lease_expired : ℕ → ℕ → Exec S (List SummaryEvent)
  pub fail_expired : String → ℕ → ℕ → String → Exec S Bool
  pub get_source : String → Exec S Source
  pub claim_due : Exec S Source
  pub bump_next_summary_at : String → ℕ → Exec S (Unit {0})
  pub get_post : String → Exec S Post
  pub list_posts : ListPostsFilter → Exec S ListPostsResult
  pub in_tx : {A : Type 0} → Exec S A → Exec S A
  pub prompt_for : ProcessingMode → Result Text
  pub llm_for : ProcessingMode → Result (Text → Text → Exec S Text)
  -- The select on a timer and on the end of the context.
  pub wait : ℤ → Exec S (Unit {0})
  pub now : S → ℕ × S
  pub new_id : S → String × S

-- A reading that cannot fail.
abbrev pub reading : {S A : Type 0} → (S → A × S) → Exec S A
reading f s = let (a, s') = f s in (ok a, s')
