-- ===== src/Scoring/Outbox/Run/Keyed.antt =====
-- The constraint score_events_post_or_summary (migrations/20260701120100) over the calls of
-- scoreOutboxRepo (internal/data/score_outbox_repo.go): an event is for a post or for a digest.
use feedium.Prelude.{
  ℕ, String, ◌≡◌, refl, Bool, true, false, Option, none, some, List, [], ◌∷◌, any, All, All-append,
  Bool-cases, inl, inr, ◌==◌,
}
use feedium.Errors.{Err, Result, ok, err}
use feedium.Uuid.{UuidCodec}
use feedium.Outbox.Table.{first_by, update_where}
use feedium.Outbox.Table.Counts.{All-update_where, All-map}
use feedium.Outbox.Preserve.{guarded-keeps, terminated-keeps}
use feedium.Outbox.Repo.{Fault, microseconds, with_parsed, parse_id}
use feedium.Scoring.Outbox.Event.{ScoreEventStatus, ScoreRow, is_keyed}
use feedium.Scoring.Outbox.Statements.{
  claim_key, claimable, claimed_by, claim_row, claim_statement, holds_lease, extend_set,
  finalize_set, retry_set, is_stuck, fail_set, has_active_post, has_active_summary,
}
use feedium.Scoring.Outbox.Repo.{
  extend_id, finalize_id, retry_id, fail_id, post_row, digest_row, insert_unless, insert_post,
  insert_digest, claimed, claim_one, extend_lease, finalize_with_lease, mark_for_retry,
  fail_expired,
}
use feedium.Scoring.Outbox.Run.{
  Call, enqueue_post, enqueue_digest, claim, extend, finalize, retry, reap, status_of, after,
}

abbrev pub IsKeyed : ScoreRow → Type 0
IsKeyed r = is_keyed r.post_id r.summary_id ≡ true

pub insert_unless-All {ℓ} :
    (P : ScoreRow → Type ℓ) (conflict : Bool) (fault : Option Err) (n : ScoreRow)
    (t : List ScoreRow)
    → P n
    → All P t
    → All P (insert_unless conflict fault n t).1
insert_unless-All P conflict (some e) n t pn a = a
insert_unless-All P true none n t pn a = a
insert_unless-All P false none n t pn a = elim (Bool-cases (any (λ r. r.id == n.id) t)) [
  | inl clash ↦ rw clash a
  | inr free ↦ rw free (All-append P t (n ∷ []) a (pn, tt))
]

module _ (t : List ScoreRow) (a : All IsKeyed t) where
  -- An update that leaves the keys alone.
  update-IsKeyed :
      (p : ScoreRow → Bool) (f : ScoreRow → ScoreRow)
      → ((r : ScoreRow) → IsKeyed r → IsKeyed (f r))
      → All IsKeyed (update_where p f t)
  update-IsKeyed p f keeps =
      All-update_where IsKeyed p f t a (All-map IsKeyed _ t a (λ r k e. keeps r k))

  claim_row-IsKeyed :
      (worker : String) (ttl now : ℕ) (o : Option ScoreRow)
      → All IsKeyed (claim_row worker ttl now t o).1
  unfolding claimed_by
  claim_row-IsKeyed worker ttl now none = a
  claim_row-IsKeyed worker ttl now (some c) =
      update-IsKeyed (λ r. r.id == c.id) (claimed_by worker ttl now) (λ r k. k)

  extend_id-IsKeyed :
      (fault : Option Fault) (now : ℕ) (worker : String) (ttl : ℕ) (p : Result ℕ)
      → All IsKeyed (with_parsed p (extend_id fault now worker ttl t) t).1
  unfolding extend_set
  extend_id-IsKeyed fault now worker ttl (err x) = a
  extend_id-IsKeyed fault now worker ttl (ok id) =
      guarded-keeps (All IsKeyed) "extend lease" "extend lease rows affected" fault _ _ t a
        (update-IsKeyed (holds_lease id worker now) _ (λ r k. k))

  finalize_id-IsKeyed :
      (fault : Option Fault) (now : ℕ) (worker : String) (status : ScoreEventStatus)
      (error : Option String) (p : Result ℕ)
      → All IsKeyed (with_parsed p (finalize_id fault now worker status error t) t).1
  unfolding finalize_set
  finalize_id-IsKeyed fault now worker status error (err x) = a
  finalize_id-IsKeyed fault now worker status error (ok id) =
      guarded-keeps (All IsKeyed) "finalize with lease" "finalize rows affected" fault _ _ t a
        (update-IsKeyed (holds_lease id worker now) _ (λ r k. k))

  retry_id-IsKeyed :
      (fault : Option Fault) (now : ℕ) (worker : String) (at : ℕ) (error : String) (p : Result ℕ)
      → All IsKeyed (with_parsed p (retry_id fault now worker at error t) t).1
  unfolding retry_set
  retry_id-IsKeyed fault now worker at error (err x) = a
  retry_id-IsKeyed fault now worker at error (ok id) =
      guarded-keeps (All IsKeyed) "mark for retry" "mark for retry rows affected" fault _ _ t a
        (update-IsKeyed (holds_lease id worker now) _ (λ r k. k))

  fail_id-IsKeyed :
      (fault : Option Fault) (now most grace : ℕ) (error : String) (p : Result ℕ)
      → All IsKeyed (with_parsed p (fail_id fault now most grace error t) t).1
  unfolding fail_set
  fail_id-IsKeyed fault now most grace error (err x) = a
  fail_id-IsKeyed fault now most grace error (ok id) =
      terminated-keeps (All IsKeyed) "fail expired" "fail expired rows affected" fault _ _ t a
        (update-IsKeyed (is_stuck id most (microseconds grace) now) _ (λ r k. k))

pub claimed-snd :
    (codec : UuidCodec) (r : Option ScoreRow × List ScoreRow) → (claimed codec r).1 ≡ r.1
claimed-snd codec (none, t') = refl
claimed-snd codec (some r, t') = refl

pub after-IsKeyed :
    (codec : UuidCodec) (call : Call) (t : List ScoreRow)
    → All IsKeyed t
    → All IsKeyed (after codec call t)
unfolding after insert_post insert_digest post_row digest_row claim_one claim_statement extend_lease
    finalize_with_lease mark_for_retry fail_expired
after-IsKeyed codec (enqueue_post fault id now post) t a =
    insert_unless-All IsKeyed (any (has_active_post post) t) fault (post_row id now post) t refl a
after-IsKeyed codec (enqueue_digest fault id now summary) t a =
    insert_unless-All IsKeyed (any (has_active_summary summary) t) fault (digest_row id now summary)
      t refl a
after-IsKeyed codec (claim (some e) skip now worker ttl) t a = a
after-IsKeyed codec (claim none skip now worker ttl) t a = rw claimed-snd (
    claim_row-IsKeyed t a worker (microseconds ttl) now (first_by claim_key (claimable skip now) t))
after-IsKeyed codec (extend fault now event worker ttl) t a =
    extend_id-IsKeyed t a fault now worker ttl (parse_id codec "invalid event id" event)
after-IsKeyed codec (finalize fault now event worker outcome error) t a =
    finalize_id-IsKeyed t a fault now worker (status_of outcome) error
      (parse_id codec "invalid event id" event)
after-IsKeyed codec (retry fault now event worker at error) t a =
    retry_id-IsKeyed t a fault now worker at error (parse_id codec "invalid event id" event)
after-IsKeyed codec (reap fault now event most grace error) t a =
    fail_id-IsKeyed t a fault now most grace error (parse_id codec "invalid event id" event)
