-- ===== src/Scoring/Outbox/Run/Refines.antt =====
-- The calls of the scoring outbox (internal/data/score_outbox_repo.go) and the corresponding calls of the
-- summary outbox (internal/data/summary_outbox_repo.go), on the rows of the one seen as rows of the other.
use feedium.Prelude.{
  arith, ℕ, ◌≡◌, refl, sym, ap, ◌∙◌, Bool, true, false, ◌||◌, Option, none, some, List, [], ◌∷◌,
  map, any, All, Bool-cases, inl, inr, ◌==◌,
}
use feedium.Errors.{Err, Result, ok}
use feedium.Uuid.{UuidCodec}
use feedium.Outbox.Event
use feedium.Outbox.Event.{Row, new_summary_event}
use feedium.Outbox.Run
use feedium.Outbox.Table.Counts.{All-map}
use feedium.Outbox.Table.Mapped.{any-map, any-map-All, map-append}
use feedium.Outbox.Statements
use feedium.Outbox.Repo
use feedium.Outbox.Repo.{with_parsed, parse_id, microseconds}
use feedium.Scoring.Outbox.Event.{ScoreRow}
use feedium.Scoring.Outbox.Statements.{has_active_post, has_active_summary, claim_statement}
use feedium.Scoring.Outbox.Repo.{
  post_row, digest_row, insert_unless, insert_post, insert_digest, claim_one, extend_lease,
  finalize_with_lease, mark_for_retry, fail_expired,
}
use feedium.Scoring.Outbox.Mirror.{row_as, status_as}
use feedium.Scoring.Outbox.Mirror.Updates.{
  with_parsed-both, extend_id-both, finalize_id-both, retry_id-both, fail_id-both,
  claim_statement_as,
}
use feedium.Scoring.Outbox.Run.{
  Outcome, complete, fail, Call, enqueue_post, enqueue_digest, claim, extend, finalize, retry, reap,
  status_of, outcome_as, call_as, after, run,
}
use feedium.Scoring.Outbox.Run.Keyed.{IsKeyed, after-IsKeyed, claimed-snd}

has_active_post-row_as :
    (post : ℕ) (r : ScoreRow)
    → IsKeyed r
    → Statements.has_active_post post Event.SummaryEventType.summarize_post (row_as r)
      ≡ has_active_post post r
unfolding row_as has_active_post Statements.has_active_post
has_active_post-row_as post r k = ground arith

has_active_summary-row_as :
    (summary : ℕ) (r : ScoreRow)
    → IsKeyed r
    → Statements.has_active_source summary (row_as r) ≡ has_active_summary summary r
unfolding row_as has_active_summary Statements.has_active_source
has_active_summary-row_as summary r k = ground arith

or_last : (a b : Bool) → (a || (b || false)) ≡ (a || b)
or_last true b = refl
or_last false true = refl
or_last false false = refl

pub status_of_as : (o : Outcome) → Run.status_of (outcome_as o) ≡ status_as (status_of o)
status_of_as complete = refl
status_of_as fail = refl

module _ (codec : UuidCodec) where
  -- Where the unique indexes agree, so do the inserts.
  insert_as :
      (fault : Option Err) (n : ScoreRow) (t : List ScoreRow) (conflict : Bool)
      → Statements.violates_unique (row_as n) (map row_as t)
        ≡ (any (λ r. r.id == n.id) t || conflict)
      → map row_as (insert_unless conflict fault n t).1
        ≡ (Repo.insert_row codec fault (row_as n) (map row_as t)).1
  insert_as (some e) n t conflict same = refl
  insert_as none n t true same =
      elim (Bool-cases (Statements.violates_unique (row_as n) (map row_as t))) [
        | inl clash ↦ rw clash refl
        | inr free ↦ absurd (ground arith)
      ]
  insert_as none n t false same = elim (Bool-cases (any (λ r. r.id == n.id) t)) [
    | inl clash ↦ let out = same ∙ ap (λ b. b || false) clash in rw (clash, out) refl
    | inr free ↦
        let fits = same ∙ ap (λ b. b || false) free in
        rw (free, fits) (map-append row_as t (n ∷ []))
  ]

  post-violates :
      (id now post : ℕ) (t : List ScoreRow)
      → All IsKeyed t
      → Statements.violates_unique (row_as (post_row id now post)) (map row_as t)
        ≡ (any (λ r. r.id == id) t || any (has_active_post post) t)
  unfolding row_as post_row Statements.violates_unique
  post-violates id now post t a =
      rw
        (
          any-map row_as (λ r. r.id == id) (λ r. r.id == id) t (λ r. refl),
          any-map-All row_as (has_active_post post)
              (Statements.has_active_post post Event.SummaryEventType.summarize_post) t
              (All-map IsKeyed _ t a (has_active_post-row_as post)),
        )
        (or_last (any (λ r. r.id == id) t) (any (has_active_post post) t))

  digest-violates :
      (id now summary : ℕ) (t : List ScoreRow)
      → All IsKeyed t
      → Statements.violates_unique (row_as (digest_row id now summary)) (map row_as t)
        ≡ (any (λ r. r.id == id) t || any (has_active_summary summary) t)
  unfolding row_as digest_row Statements.violates_unique
  digest-violates id now summary t a =
      rw
        (
          any-map row_as (λ r. r.id == id) (λ r. r.id == id) t (λ r. refl),
          any-map-All row_as (has_active_summary summary) (Statements.has_active_source summary) t
              (All-map IsKeyed _ t a (has_active_summary-row_as summary)),
        )
        refl

  abbrev saved : Option Err → List Row → Result Row → List Row
  saved fault t p = (with_parsed p (λ n. Repo.insert_row codec fault n t) t).1

  parse-post :
      (id now post : ℕ)
      → Repo.parse_event codec (
          new_summary_event
            (codec.to_string id)
            now
            Event.SummaryEventType.summarize_post
            (codec.to_string 0)
            (some (codec.to_string post)))
        ≡ ok (row_as (post_row id now post))
  unfolding Repo.parse_event new_summary_event row_as post_row Repo.new_row
  parse-post id now post =
      ground (arith, codec.parse-to_string id, codec.parse-to_string 0, codec.parse-to_string post)

  parse-digest :
      (id now summary : ℕ)
      → Repo.parse_event codec (
          new_summary_event
            (codec.to_string id)
            now
            Event.SummaryEventType.summarize_source
            (codec.to_string summary)
            none)
        ≡ ok (row_as (digest_row id now summary))
  unfolding Repo.parse_event new_summary_event row_as digest_row Repo.new_row
  parse-digest id now summary =
      ground (arith, codec.parse-to_string id, codec.parse-to_string summary)

  insert_post-as :
      (fault : Option Err) (id now post : ℕ) (t : List ScoreRow)
      → All IsKeyed t
      → map row_as (after codec (enqueue_post fault id now post) t)
        ≡ Run.after codec (call_as codec (enqueue_post fault id now post)) (map row_as t)
  unfolding after insert_post Run.after Repo.save
  insert_post-as fault id now post t a =
      insert_as fault (post_row id now post) t (any (has_active_post post) t)
        (post-violates id now post t a)
      ∙ ap (saved fault (map row_as t)) (sym (parse-post id now post))

  insert_digest-as :
      (fault : Option Err) (id now summary : ℕ) (t : List ScoreRow)
      → All IsKeyed t
      → map row_as (after codec (enqueue_digest fault id now summary) t)
        ≡ Run.after codec (call_as codec (enqueue_digest fault id now summary)) (map row_as t)
  unfolding after insert_digest Run.after Repo.save
  insert_digest-as fault id now summary t a =
      insert_as fault (digest_row id now summary) t (any (has_active_summary summary) t)
        (digest-violates id now summary t a)
      ∙ ap (saved fault (map row_as t)) (sym (parse-digest id now summary))

  -- Where each event is for a post or for a digest, a call of the scoring outbox does to its table,
  -- seen as a table of summary events, what a call of the summary outbox does.
  pub after-as :
      (call : Call) (t : List ScoreRow)
      → All IsKeyed t
      → map row_as (after codec call t) ≡ Run.after codec (call_as codec call) (map row_as t)
  unfolding after Run.after claim_one Repo.claim_one extend_lease Repo.extend_lease
      finalize_with_lease Repo.finalize_with_lease mark_for_retry Repo.mark_for_retry fail_expired
      Repo.fail_expired
  after-as (enqueue_post fault id now post) t a = insert_post-as fault id now post t a
  after-as (enqueue_digest fault id now summary) t a = insert_digest-as fault id now summary t a
  after-as (claim (some e) skip now worker ttl) t a = refl
  after-as (claim none skip now worker ttl) t a =
      ap (map row_as) (claimed-snd codec (claim_statement skip worker (microseconds ttl) now t))
      ∙ ap (λ p. p.1) (claim_statement_as skip worker (microseconds ttl) now t)
      ∙ sym (
          Run.claimed-snd codec
            (Statements.claim_statement skip worker (microseconds ttl) now (map row_as t)))
  after-as (extend fault now event worker ttl) t a =
      ap (λ p. p.1)
        (with_parsed-both row_as (parse_id codec "invalid event id" event) _
          (Repo.extend_id fault now worker ttl (map row_as t)) t
          (extend_id-both fault now t worker ttl))
  after-as (finalize fault now event worker outcome error) t a =
      rw (Run.after, status_of_as)
        (ap (λ p. p.1)
          (with_parsed-both row_as (parse_id codec "invalid event id" event) _
            (λ id.
              Repo.finalize_id fault now worker (status_as (status_of outcome)) error (map row_as t)
                id none)
            t (finalize_id-both fault now t worker (status_of outcome) error)))
  after-as (retry fault now event worker at error) t a =
      ap (λ p. p.1)
        (with_parsed-both row_as (parse_id codec "invalid event id" event) _
          (Repo.retry_id fault now worker at error (map row_as t)) t
          (retry_id-both fault now t worker at error))
  after-as (reap fault now event most grace error) t a =
      ap (λ p. p.1)
        (with_parsed-both row_as (parse_id codec "invalid event id" event) _
          (Repo.fail_id fault now most grace error (map row_as t)) t
          (fail_id-both fault now t most grace error))

  -- Where each event is for a post or for a digest, any interleaving of calls of the scoring outbox
  -- is, on the table seen as a table of summary events, the interleaving of the calls of the
  -- summary outbox that correspond to them one to one, from which the lease protocol follows.
  pub run_refines :
      (calls : List Call) (t : List ScoreRow)
      → All IsKeyed t
      → map row_as (run codec calls t) ≡ Run.run codec (map (call_as codec) calls) (map row_as t)
  unfolding run Run.run
  run_refines [] t a = refl
  run_refines (call ∷ calls) t a =
      run_refines calls (after codec call t) (after-IsKeyed codec call t a)
      ∙ ap (Run.run codec (map (call_as codec) calls)) (after-as call t a)
