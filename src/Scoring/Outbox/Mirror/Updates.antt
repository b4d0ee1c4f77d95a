-- ===== src/Scoring/Outbox/Mirror/Updates.antt =====
-- The statements of internal/data/score_outbox_repo.go on a table, seen on the rows of the other
-- outbox.
use feedium.Prelude.{
  ℕ, String, ◌≡◌, refl, ap, ◌∙◌, Bool, true, false, Option, none, some, List, map, ◌==◌,
}
use mathlib.Core.Option
use feedium.Errors.{Result, ok, err}
use feedium.Outbox.Table.{first_by}
use feedium.Outbox.Table.Mapped.{map-update_where, any-map, first_by-map}
use feedium.Outbox.Event.{Row}
use feedium.Outbox.Statements
use feedium.Outbox.Repo
use feedium.Outbox.Repo.{Fault, refused, uncounted, microseconds, guarded, terminated, with_parsed}
use feedium.Scoring.Outbox.Event.{ScoreEventStatus, ScoreRow}
use feedium.Scoring.Outbox.Statements.{
  claim_key, claimable, claimed_by, claim_row, claim_statement, holds_lease, extend_set,
  finalize_set, retry_set, is_stuck, fail_set,
}
use feedium.Scoring.Outbox.Repo.{extend_id, finalize_id, retry_id, fail_id}
use feedium.Scoring.Outbox.Mirror.{
  status_as, row_as, claimable-row_as, claim_key-row_as, holds_lease-row_as, extend_set-row_as,
  finalize_set-row_as, retry_set-row_as, is_stuck-row_as, fail_set-row_as,
}

module _ {Q R : Type 0} (h : Q → R) where
  -- A result with its table, the table seen through `h`.
  abbrev pub both : {A : Type 0} → A × List Q → A × List R
  both (a, t) = (a, map h t)

  guarded-both :
      (what rows : String) (fault : Option Fault) (b : Bool) (t' t : List Q)
      → both (guarded what rows fault (b, t') t) ≡ guarded what rows fault (b, map h t') (map h t)
  guarded-both what rows (some (refused e)) b t' t = refl
  guarded-both what rows (some (uncounted e)) b t' t = refl
  guarded-both what rows none true t' t = refl
  guarded-both what rows none false t' t = refl

  terminated-both :
      (what rows : String) (fault : Option Fault) (b : Bool) (t' t : List Q)
      → both (terminated what rows fault (b, t') t)
        ≡ terminated what rows fault (b, map h t') (map h t)
  terminated-both what rows (some (refused e)) b t' t = refl
  terminated-both what rows (some (uncounted e)) b t' t = refl
  terminated-both what rows none b t' t = refl

  pub with_parsed-both :
      {A B : Type 0} (p : Result A) (k : A → Result B × List Q) (k' : A → Result B × List R)
      (t : List Q)
      → ((a : A) → both (k a) ≡ k' a)
      → both (with_parsed p k t) ≡ with_parsed p k' (map h t)
  with_parsed-both (err e) k k' t same = refl
  with_parsed-both (ok a) k k' t same = same a

-- Each statement on the table is the statement of the other outbox on the table seen as its rows.
module _ (fault : Option Fault) (now : ℕ) (t : List ScoreRow) where
  pub extend_id-both :
      (worker : String) (ttl : ℕ) (id : ℕ)
      → both row_as (extend_id fault now worker ttl t id)
        ≡ Repo.extend_id fault now worker ttl (map row_as t) id
  extend_id-both worker ttl id =
      rw
        (
          any-map row_as (holds_lease id worker now) (Statements.holds_lease id worker now) t
              (λ r. holds_lease-row_as r id worker now),
          ← map-update_where row_as (holds_lease id worker now) (extend_set (microseconds ttl) now)
              (Statements.holds_lease id worker now) (Statements.extend_set (microseconds ttl) now)
              t (λ r. holds_lease-row_as r id worker now)
              (λ r. extend_set-row_as r (microseconds ttl) now),
        )
        (guarded-both row_as "extend lease" "extend lease rows affected" fault _ _ t)

  pub finalize_id-both :
      (worker : String) (status : ScoreEventStatus) (error : Option String) (id : ℕ)
      → both row_as (finalize_id fault now worker status error t id)
        ≡ Repo.finalize_id fault now worker (status_as status) error (map row_as t) id none
  finalize_id-both worker status error id =
      rw
        (
          any-map row_as (holds_lease id worker now) (Statements.holds_lease id worker now) t
              (λ r. holds_lease-row_as r id worker now),
          ← map-update_where row_as (holds_lease id worker now) (finalize_set status error now)
              (Statements.holds_lease id worker now)
              (Statements.finalize_set (status_as status) none error now) t
              (λ r. holds_lease-row_as r id worker now)
              (λ r. finalize_set-row_as r status error now),
        )
        (guarded-both row_as "finalize with lease" "finalize rows affected" fault _ _ t)

  pub retry_id-both :
      (worker : String) (at : ℕ) (error : String) (id : ℕ)
      → both row_as (retry_id fault now worker at error t id)
        ≡ Repo.retry_id fault now worker at error (map row_as t) id
  retry_id-both worker at error id =
      rw
        (
          any-map row_as (holds_lease id worker now) (Statements.holds_lease id worker now) t
              (λ r. holds_lease-row_as r id worker now),
          ← map-update_where row_as (holds_lease id worker now) (retry_set at error)
              (Statements.holds_lease id worker now) (Statements.retry_set at error) t
              (λ r. holds_lease-row_as r id worker now) (λ r. retry_set-row_as r at error),
        )
        (guarded-both row_as "mark for retry" "mark for retry rows affected" fault _ _ t)

  pub fail_id-both :
      (most grace : ℕ) (error : String) (id : ℕ)
      → both row_as (fail_id fault now most grace error t id)
        ≡ Repo.fail_id fault now most grace error (map row_as t) id
  fail_id-both most grace error id =
      let g = microseconds grace in
      rw
        (
          any-map row_as (is_stuck id most g now) (Statements.is_stuck id most g now) t
              (λ r. is_stuck-row_as r id most g now),
          ← map-update_where row_as (is_stuck id most g now) (fail_set error now)
              (Statements.is_stuck id most g now) (Statements.fail_set error now) t
              (λ r. is_stuck-row_as r id most g now) (λ r. fail_set-row_as r error now),
        )
        (terminated-both row_as "fail expired" "fail expired rows affected" fault _ _ t)

module _ (skip : ℕ → Bool) (worker : String) (ttl now : ℕ) (t : List ScoreRow) where
  -- A claimed row and its table, seen as rows of the other outbox.
  abbrev pub claim_as : Option ScoreRow × List ScoreRow → Option Row × List Row
  claim_as (o, t') = (Option.map row_as o, map row_as t')

  claim_row_as :
      (o : Option ScoreRow)
      → claim_as (claim_row worker ttl now t o)
        ≡ Statements.claim_row worker ttl now (map row_as t) (Option.map row_as o)
  unfolding row_as claimed_by Statements.claimed_by
  claim_row_as none = refl
  claim_row_as (some c) =
      ap (λ u. (some (row_as (claimed_by worker ttl now c)), u))
        (map-update_where row_as (λ r. r.id == c.id) (claimed_by worker ttl now) (λ r. r.id == c.id)
          (Statements.claimed_by worker ttl now) t (λ r. refl) (λ r. refl))

  pub claim_statement_as :
      claim_as (claim_statement skip worker ttl now t)
      ≡ Statements.claim_statement skip worker ttl now (map row_as t)
  unfolding claim_statement Statements.claim_statement
  claim_statement_as =
      claim_row_as (first_by claim_key (claimable skip now) t)
      ∙ ap (Statements.claim_row worker ttl now (map row_as t)) (
          first_by-map row_as claim_key Statements.claim_key (claimable skip now)
            (Statements.claimable skip now) t claim_key-row_as (λ r. claimable-row_as r skip now))
