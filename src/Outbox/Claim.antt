-- ===== src/Outbox/Claim.antt =====
-- What ClaimOne answers (internal/data/summary_outbox_repo.go), on every branch.
use mathlib.Core.List.{Memᴰ}
use feedium.Prelude.{
  ℕ, ◌≤◌, String, Bool, true, false, ◌≡◌, refl, ◌⊎◌, inl, inr, Option, none, some, List, any, All,
  ◌==◌,
}
use feedium.Errors.{sentinel, no_event_available, Result, ok, err}
use feedium.Uuid.{UuidCodec}
use feedium.Outbox.Table.{update_where, first_by}
use feedium.Outbox.Table.FirstBy.{first_by-Memᴰ, first_by-none, first_by-le}
use feedium.Outbox.Event.{SummaryEvent, Row}
use feedium.Outbox.Statements.{claim_key, claimable, claimed_by, claim_row, claim_statement}
use feedium.Outbox.Repo.{microseconds, claimed, claim_one, event_of}

-- A row that is claimable, with no claimable row due before it.
pub record Next (skip : ℕ → Bool) (now : ℕ) (t : List Row) (c : Row) : Type 0 where
  pub member : Memᴰ c t
  pub fits : claimable skip now c ≡ true
  pub first : All (λ r. claimable skip now r ≡ true → claim_key c ≤ claim_key r) t

-- The two answers to a claim that the driver lets through.
abbrev pub Claims :
    UuidCodec → (ℕ → Bool) → ℕ → String → ℕ → List Row → Result SummaryEvent × List Row → Type 0
Claims codec skip now worker ttl t p =
    ((any (claimable skip now) t ≡ false) × (p ≡ (err (sentinel no_event_available), t)))
    ⊎ ((c : Row) × Next skip now t c
        × (p ≡ (
          ok (event_of codec (claimed_by worker (microseconds ttl) now c)),
          update_where (λ r. r.id == c.id) (claimed_by worker (microseconds ttl) now) t,
        )))

module _ (codec : UuidCodec) (skip : ℕ → Bool) (now : ℕ) (worker : String) (ttl : ℕ)
    (t : List Row) where
  claim_row-Claims :
      (o : Option Row)
      → first_by claim_key (claimable skip now) t ≡ o
      → Claims codec skip now worker ttl t
          (claimed codec (claim_row worker (microseconds ttl) now t o))
  claim_row-Claims none e = inl (first_by-none claim_key (claimable skip now) t e, refl)
  claim_row-Claims (some c) e =
      let (fits, m) = first_by-Memᴰ claim_key (claimable skip now) t c e in
      inr (
        c,
        record {
          member = m;
          fits = fits;
          first = first_by-le claim_key (claimable skip now) t c e;
        },
        refl,
      )

  -- A claim that meets no driver error either finds no claimable row, leaves the table as it is and
  -- answers ErrNoEventAvailable, or takes a claimable row of the table with the least claim time,
  -- leases it to the worker, counts the attempt, changes no row with another identifier, and
  -- answers the event of the leased row.
  pub claim_one_lem :
      Claims codec skip now worker ttl t (claim_one codec none skip now worker ttl t)
  unfolding claim_one claim_statement
  claim_one_lem = claim_row-Claims (first_by claim_key (claimable skip now) t) refl
