-- ===== src/Source/Repo/Due.antt =====
-- The schedule of cumulative sources (ClaimDueCumulative and BumpNextSummaryAt of
-- internal/data/source_repo.go).
use mathlib.Core.List.{Memᴰ}
use feedium.Prelude.{
  ℕ, ◌≤◌, ◌<◌, ◌≡◌, ◌≢◌, refl, sym, ap, ◌∙◌, String, Bool, true, false, ◌==◌, ==_iff, Option, none,
  some, List, [], ◌∷◌, any, arith, Bool-cases, inl, inr, All,
}
use feedium.Errors.{Err, Result, ok, err}
use feedium.Exec.Ok.{ok_inj}
use feedium.Uuid.{UuidCodec}
use feedium.Outbox.Table.{update_where, first_by}
use feedium.Outbox.Table.FirstBy.{first_by-Memᴰ, first_by-le}
use feedium.Outbox.Table.Members.{All-mem}
use feedium.Outbox.Once.{parse_id-ok}
use feedium.Source.{SourceConfig, Source}
use feedium.Source.Config.{deserialize_config}
use feedium.Source.Repo.{
  SourceRow, is_cumulative_due, due_key, source_from, with_config, picked, claim_due_cumulative,
  bump_row, bump_next_summary_at,
}

module _ (codec : UuidCodec) where
  -- A due source with a configuration that reads, with no due source before it.
  pub record Next (skip : ℕ → Bool) (now : ℕ) (t : List SourceRow) (x : Source) : Type 0 where
    pub row : SourceRow
    pub member : Memᴰ row t
    pub fits : is_cumulative_due skip now row ≡ true
    pub first : All (λ r. is_cumulative_due skip now r ≡ true → due_key row ≤ due_key r) t
    pub config : SourceConfig
    pub reads : deserialize_config row.source_type row.config ≡ ok config
    pub answer : x ≡ source_from codec row config

  configured :
      (r : SourceRow) (c : Result SourceConfig) (x : Source)
      → deserialize_config r.source_type r.config ≡ c
      → with_config codec r c ≡ ok x
      → (cfg : SourceConfig) × (deserialize_config r.source_type r.config ≡ ok cfg)
        × (x ≡ source_from codec r cfg)
  configured r (err e) x q h = cc
  configured r (ok cfg) x q h = (cfg, q, ok_inj (sym h))

  picked-Next :
      (skip : ℕ → Bool) (now : ℕ) (t : List SourceRow) (o : Option SourceRow) (x : Source)
      → first_by due_key (is_cumulative_due skip now) t ≡ o
      → picked codec o ≡ ok x
      → Next skip now t x
  picked-Next skip now t none x e h = cc
  picked-Next skip now t (some r) x e h =
      let (fits, m) = first_by-Memᴰ due_key (is_cumulative_due skip now) t r e in
      let (cfg, reads, same) = configured r (deserialize_config r.source_type r.config) x refl h in
      record {
        row = r;
        member = m;
        fits = fits;
        first = first_by-le due_key (is_cumulative_due skip now) t r e;
        config = cfg;
        reads = reads;
        answer = same;
      }

  -- A source that ClaimDueCumulative answers is a cumulative source of the table that is due and
  -- not locked by others, with the least time among those.
  pub claim-Next :
      (fault : Option Err) (skip : ℕ → Bool) (now : ℕ) (t : List SourceRow) (x : Source)
      → claim_due_cumulative codec fault skip now t ≡ ok x
      → Next skip now t x
  unfolding claim_due_cumulative
  claim-Next (some e) skip now t x h = cc
  claim-Next none skip now t x h =
      picked-Next skip now t (first_by due_key (is_cumulative_due skip now) t) x refl h

  abbrev set_next : ℕ → SourceRow → SourceRow
  set_next at r = record r { next_summary_at = some at }

  -- The rows of the source are at the new time.
  Bumped : ℕ → ℕ → SourceRow → Type 0
  Bumped i at r = (r.id == i) ≡ true → r.next_summary_at ≡ some at

  update-Bumped :
      (i at : ℕ) (t : List SourceRow)
      → All (Bumped i at) (update_where (λ r. r.id == i) (set_next at) t)
  unfolding Bumped
  update-Bumped i at [] = tt
  update-Bumped i at (r ∷ rs) = elim (Bool-cases (r.id == i)) [
    | inl e ↦ rw e (λ h. refl, update-Bumped i at rs)
    | inr e ↦ rw e (λ h. cc, update-Bumped i at rs)
  ]

  bump_row-Bumped :
      (fault affected : Option Err) (at i : ℕ) (t : List SourceRow)
      → (bump_row codec fault affected at i t).0 ≡ ok tt
      → All (Bumped i at) (bump_row codec fault affected at i t).1
  bump_row-Bumped (some e) affected at i t h = cc
  bump_row-Bumped none (some e) at i t h = cc
  bump_row-Bumped none none at i t h = elim (Bool-cases (any (λ r. r.id == i) t)) [
    | inl there ↦ rw there (update-Bumped i at t)
    | inr gone ↦ let no = rw gone at h in cc
  ]

  not_due :
      (skip : ℕ → Bool) (now at i : ℕ) (r : SourceRow)
      → now < at
      → Bumped i at r
      → is_cumulative_due skip now r ≡ true
      → (r.id == i) ≡ false
  unfolding is_cumulative_due Bumped
  not_due skip now at i r early bumped due = elim (Bool-cases (r.id == i)) [
    | inl e ↦ let next = bumped e in let no = rw next at due in absurd (ground arith)
    | inr e ↦ e
  ]

  bump-Bumped :
      (fault affected : Option Err) (id : String) (i at : ℕ) (t : List SourceRow)
      → codec.parse id ≡ some i
      → (bump_next_summary_at codec fault affected id at t).0 ≡ ok tt
      → All (Bumped i at) (bump_next_summary_at codec fault affected id at t).1
  unfolding bump_next_summary_at
  bump-Bumped fault affected id i at t named done =
      rw (parse_id-ok codec "invalid source id" id i named) (
        bump_row-Bumped fault affected at i t
          (rw (parse_id-ok codec "invalid source id" id i named) at done))

  same_row :
      (i : ℕ) (r : SourceRow) (cfg : SourceConfig) (x : Source)
      → x ≡ source_from codec r cfg
      → codec.parse x.id ≡ some i
      → (r.id == i) ≡ true
  same_row i r cfg x e h =
      let named : some r.id ≡ some i =
        sym (codec.parse-to_string r.id) ∙ sym (ap (λ y. codec.parse y.id) e) ∙ h in
      let same : r.id ≡ i = cc in (==_iff r.id i).1 same

  -- After BumpNextSummaryAt has set the next time of a source, no ClaimDueCumulative before that
  -- time answers this source.
  pub claim-after_bump :
      (fault affected : Option Err) (id : String) (i at : ℕ) (t : List SourceRow)
      → codec.parse id ≡ some i
      → (bump_next_summary_at codec fault affected id at t).0 ≡ ok tt
      → (claim_fault : Option Err) (skip : ℕ → Bool) (now : ℕ) (x : Source) → now < at
      → claim_due_cumulative codec claim_fault skip now
          (bump_next_summary_at codec fault affected id at t).1
        ≡ ok x
      → codec.parse x.id ≢ some i
  claim-after_bump fault affected id i at t named done claim_fault skip now x early claimed same =
      let n =
        claim-Next claim_fault skip now (bump_next_summary_at codec fault affected id at t).1 x
          claimed in
      let bumped =
        All-mem (Bumped i at) (bump_next_summary_at codec fault affected id at t).1 n.row
          (bump-Bumped fault affected id i at t named done) n.member in
      let yes = same_row i n.row n.config x n.answer same in
      let no = not_due skip now at i n.row early bumped n.fits in cc
