-- ===== src/Scoring/Outbox/Run/Invariant.antt =====
-- Consistency of the table score_events (internal/data/score_outbox_repo.go), and that of the summary
-- outbox on its rows.
use feedium.Prelude.{ℕ, ◌≤◌, ◌≡◌, refl, sym, subst, true, List, [], ◌∷◌, map, arith, ◌==◌, All}
use native.Mathlib.Nat.{le_trans}
use feedium.Uuid.{UuidCodec}
use feedium.Outbox.Table.{count}
use feedium.Outbox.Table.Counts.{All-map}
use feedium.Outbox.Table.Mapped.{count-map-le, count-le-map, All-mapped, All-unmapped}
use feedium.Outbox.Event
use feedium.Outbox.Event.{SummaryEventType, Row}
use feedium.Outbox.Statements
use feedium.Outbox.Invariant
use feedium.Outbox.Invariant.{is_some}
use feedium.Outbox.Run
use feedium.Scoring.Outbox.Event.{ScoreRow, is_processing, is_terminal}
use feedium.Scoring.Outbox.Statements.{has_active_post, has_active_summary}
use feedium.Scoring.Outbox.Mirror.{row_as}
use feedium.Scoring.Outbox.Run.{
  Call, enqueue_post, enqueue_digest, claim, extend, finalize, retry, reap, call_as, after, run,
}
use feedium.Scoring.Outbox.Run.Keyed.{IsKeyed, after-IsKeyed}
use feedium.Scoring.Outbox.Run.Refines.{run_refines}

pub record IsLeased (r : ScoreRow) : Type 0 where
  pub until : is_some r.locked_until ≡ is_processing r.status
  pub by : is_some r.locked_by ≡ is_processing r.status
  pub done : is_some r.processed_at ≡ is_terminal r.status

pub record IsConsistent (t : List ScoreRow) : Type 0 where
  pub ids : (i : ℕ) → count (λ r. r.id == i) t ≤ 1
  pub posts : (post : ℕ) → count (has_active_post post) t ≤ 1
  pub summaries : (summary : ℕ) → count (has_active_summary summary) t ≤ 1
  pub leases : All IsLeased t
  pub keyed : All IsKeyed t

module _ (r : ScoreRow) where
  leased_as : IsLeased r → Invariant.IsLeased (row_as r)
  unfolding row_as
  leased_as l = ground arith

  leased_back : Invariant.IsLeased (row_as r) → IsLeased r
  unfolding row_as
  leased_back l = ground arith

  post_as :
      (post : ℕ) (e : SummaryEventType)
      → Statements.has_active_post post e (row_as r) ≡ true
      → has_active_post post r ≡ true
  unfolding row_as has_active_post Statements.has_active_post
  post_as post e h = ground arith

  post_back :
      (post : ℕ)
      → IsKeyed r
      → has_active_post post r ≡ true
      → Statements.has_active_post post Event.SummaryEventType.summarize_post (row_as r) ≡ true
  unfolding row_as has_active_post Statements.has_active_post
  post_back post k h = ground arith

  summary_as :
      (summary : ℕ)
      → Statements.has_active_source summary (row_as r) ≡ true
      → has_active_summary summary r ≡ true
  unfolding row_as has_active_summary Statements.has_active_source
  summary_as summary h = ground arith

  summary_back :
      (summary : ℕ)
      → has_active_summary summary r ≡ true
      → Statements.has_active_source summary (row_as r) ≡ true
  unfolding row_as has_active_summary Statements.has_active_source
  summary_back summary h = ground arith

  id_as : (i : ℕ) → ((row_as r).id == i) ≡ true → (r.id == i) ≡ true
  unfolding row_as
  id_as i h = h

  id_back : (i : ℕ) → (r.id == i) ≡ true → ((row_as r).id == i) ≡ true
  unfolding row_as
  id_back i h = h

every : {P : ScoreRow → Type 0} → ((r : ScoreRow) → P r) → (t : List ScoreRow) → All P t
every f [] = tt
every f (r ∷ rs) = (f r, every f rs)

module _ (t : List ScoreRow) where
  pub as-IsConsistent : IsConsistent t → Invariant.IsConsistent (map row_as t)
  as-IsConsistent c = record {
    ids = λ i. le_trans (count-map-le row_as _ _ t (every (λ r. id_as r i) t)) (c.ids i);
    posts = λ p e. le_trans (count-map-le row_as _ _ t (every (λ r. post_as r p e) t)) (c.posts p);
    sources =
        λ s. le_trans (count-map-le row_as _ _ t (every (λ r. summary_as r s) t)) (c.summaries s);
    leases = All-mapped row_as Invariant.IsLeased IsLeased t leased_as c.leases;
  }

  pub back-IsConsistent : All IsKeyed t → Invariant.IsConsistent (map row_as t) → IsConsistent t
  back-IsConsistent k c = record {
    ids = λ i. le_trans (count-le-map row_as _ _ t (every (λ r. id_back r i) t)) (c.ids i);
    posts = λ p.
        le_trans (count-le-map row_as _ _ t (All-map IsKeyed _ t k (λ r q h. post_back r p q h)))
          (c.posts p Event.SummaryEventType.summarize_post);
    summaries =
        λ s. le_trans (count-le-map row_as _ _ t (every (λ r. summary_back r s) t)) (c.sources s);
    leases = All-unmapped row_as Invariant.IsLeased IsLeased t leased_back c.leases;
    keyed = k;
  }

pub run-IsKeyed :
    (codec : UuidCodec) (calls : List Call) (t : List ScoreRow)
    → All IsKeyed t
    → All IsKeyed (run codec calls t)
unfolding run
run-IsKeyed codec [] t k = k
run-IsKeyed codec (call ∷ calls) t k =
    run-IsKeyed codec calls (after codec call t) (after-IsKeyed codec call t k)

call_as-ends : (codec : UuidCodec) (call : Call) → Run.ends (call_as codec call) ≡ true
call_as-ends codec (enqueue_post fault id now post) = refl
call_as-ends codec (enqueue_digest fault id now summary) = refl
call_as-ends codec (claim fault skip now worker ttl) = refl
call_as-ends codec (extend fault now event worker ttl) = refl
call_as-ends codec (finalize fault now event worker outcome error) = refl
call_as-ends codec (retry fault now event worker at error) = refl
call_as-ends codec (reap fault now event most grace error) = refl

calls_as-ends :
    (codec : UuidCodec) (calls : List Call)
    → All (λ call. Run.ends call ≡ true) (map (call_as codec) calls)
calls_as-ends codec [] = tt
calls_as-ends codec (call ∷ calls) = (call_as-ends codec call, calls_as-ends codec calls)

-- From a consistent table of score events, any interleaving of the statements of any processes, with
-- any driver errors, keeps ids unique, at most one active event per post and per digest, each event
-- for exactly one of the two, leases exactly on the rows in processing, and processing times exactly
-- on the terminated rows.
pub run_scores-IsConsistent :
    (codec : UuidCodec) (calls : List Call) (t : List ScoreRow)
    → IsConsistent t
    → IsConsistent (run codec calls t)
run_scores-IsConsistent codec calls t c =
    back-IsConsistent (run codec calls t) (run-IsKeyed codec calls t c.keyed) (
      subst Invariant.IsConsistent (sym (run_refines codec calls t c.keyed)) (
        Run.run-IsConsistent codec (map (call_as codec) calls) (map row_as t)
          (calls_as-ends codec calls) (as-IsConsistent t c)))
