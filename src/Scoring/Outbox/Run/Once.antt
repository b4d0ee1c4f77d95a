-- ===== src/Scoring/Outbox/Run/Once.antt =====
-- The calls of scoreOutboxRepo that write a terminal status to an event (FinalizeWithLease and
-- FailExpired of internal/data/score_outbox_repo.go), counted over a sequence of calls.
use feedium.Prelude.{
  ℕ, ◌+◌, ◌≤◌, ◌≡◌, refl, ap, Bool, false, ◌&&◌, List, [], ◌∷◌, map, any, ◌==◌, if◌then◌else◌,
  arith, All, none,
}
use feedium.Uuid.{UuidCodec}
use feedium.Outbox.Table.Mapped.{any-map}
use feedium.Outbox.Event.{is_some_eq}
use feedium.Outbox.Repo
use feedium.Outbox.Repo.{parse_id}
use feedium.Outbox.Absorb
use feedium.Outbox.Once
use feedium.Outbox.Once.{is_ok, is_done, effect_of}
use feedium.Scoring.Outbox.Event.{ScoreRow, is_terminal}
use feedium.Scoring.Outbox.Repo.{finalize_with_lease, fail_expired}
use feedium.Scoring.Outbox.Mirror.{row_as, status_as}
use feedium.Scoring.Outbox.Mirror.Updates.{with_parsed-both, finalize_id-both, fail_id-both}
use feedium.Scoring.Outbox.Run.{
  Call, enqueue_post, enqueue_digest, claim, extend, finalize, retry, reap, status_of, call_as,
  after,
}
use feedium.Scoring.Outbox.Run.Keyed.{IsKeyed, after-IsKeyed}
use feedium.Scoring.Outbox.Run.Refines.{after-as, status_of_as}
use feedium.Scoring.Outbox.Run.Invariant.{IsConsistent, as-IsConsistent}

-- The event `i` has a terminal status.
unfoldable is_over : ℕ → ScoreRow → Bool
is_over i r = r.id == i && is_terminal r.status

is_over-row_as : (i : ℕ) (r : ScoreRow) → Absorb.is_over i (row_as r) ≡ is_over i r
unfolding is_over Absorb.is_over row_as
is_over-row_as i r = ground arith

module _ (codec : UuidCodec) where
  -- The call writes a terminal status to the event `i`.
  unfoldable terminates : ℕ → Call → List ScoreRow → Bool
  terminates i (finalize fault now event worker outcome error) t =
      is_some_eq (codec.parse event) i
      && is_ok
          (finalize_with_lease codec (effect_of fault) now event worker (status_of outcome) error
            t).0
  terminates i (reap fault now event most grace error) t =
      is_some_eq (codec.parse event) i
      && is_done (fail_expired codec (effect_of fault) now event most grace error t).0
  terminates i _ t = false

  -- How many of the calls do.
  abbrev terminations : ℕ → List Call → List ScoreRow → ℕ
  terminations i [] t = 0
  terminations i (call ∷ calls) t =
      (if terminates i call t then 1 else 0) + terminations i calls (after codec call t)

  terminates-as :
      (i : ℕ) (call : Call) (t : List ScoreRow)
      → terminates i call t ≡ Once.terminates codec i (call_as codec call) (map row_as t)
  unfolding terminates Once.terminates finalize_with_lease Repo.finalize_with_lease fail_expired
      Repo.fail_expired
  terminates-as i (enqueue_post fault id now post) t = refl
  terminates-as i (enqueue_digest fault id now summary) t = refl
  terminates-as i (claim fault skip now worker ttl) t = refl
  terminates-as i (extend fault now event worker ttl) t = refl
  terminates-as i (finalize fault now event worker outcome error) t =
      rw (Once.terminates, status_of_as)
        (ap (λ p. is_some_eq (codec.parse event) i && is_ok p.0)
          (with_parsed-both row_as (parse_id codec "invalid event id" event) _
            (λ id.
              Repo.finalize_id (effect_of fault) now worker (status_as (status_of outcome)) error
                (map row_as t) id none)
            t (finalize_id-both (effect_of fault) now t worker (status_of outcome) error)))
  terminates-as i (retry fault now event worker at error) t = refl
  terminates-as i (reap fault now event most grace error) t =
      ap (λ p. is_some_eq (codec.parse event) i && is_done p.0)
        (with_parsed-both row_as (parse_id codec "invalid event id" event) _
          (Repo.fail_id (effect_of fault) now most grace error (map row_as t)) t
          (fail_id-both (effect_of fault) now t most grace error))

  terminations-as :
      (i : ℕ) (calls : List Call) (t : List ScoreRow)
      → All IsKeyed t
      → terminations i calls t
        ≡ Once.terminations codec i (map (call_as codec) calls) (map row_as t)
  terminations-as i [] t k = refl
  terminations-as i (call ∷ calls) t k =
      rw
        (
          terminates-as i call t,
          ← after-as codec call t k,
          terminations-as i calls (after codec call t) (after-IsKeyed codec call t k),
        )
        refl

  call_as-Spares : (i : ℕ) (call : Call) → Absorb.Spares codec i (call_as codec call)
  call_as-Spares i (enqueue_post fault id now post) = tt
  call_as-Spares i (enqueue_digest fault id now summary) = tt
  call_as-Spares i (claim fault skip now worker ttl) = tt
  call_as-Spares i (extend fault now event worker ttl) = tt
  call_as-Spares i (finalize fault now event worker outcome error) = tt
  call_as-Spares i (retry fault now event worker at error) = tt
  call_as-Spares i (reap fault now event most grace error) = tt

  calls-Spares :
      (i : ℕ) (calls : List Call) → All (Absorb.Spares codec i) (map (call_as codec) calls)
  calls-Spares i [] = tt
  calls-Spares i (call ∷ calls) = (call_as-Spares i call, calls-Spares i calls)

  -- Over any interleaving of the statements of any processes, from a consistent table of score
  -- events, at most one call writes a terminal status to an event, and none does where the event has
  -- one already.
  terminations_once :
      (i : ℕ) (calls : List Call) (t : List ScoreRow)
      → IsConsistent t
      → terminations i calls t ≤ (if any (is_over i) t then 0 else 1)
  terminations_once i calls t c =
      rw
        (
          terminations-as i calls t c.keyed,
          ← any-map row_as (is_over i) (Absorb.is_over i) t (is_over-row_as i),
        )
        (Once.terminations-le_one codec i (map (call_as codec) calls) (map row_as t)
          (calls-Spares i calls) (as-IsConsistent t c))
