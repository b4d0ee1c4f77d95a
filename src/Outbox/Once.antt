-- ===== src/Outbox/Once.antt =====
-- The calls that write a terminal status to an event (FinalizeWithLease, FailExpired and UpdateStatus of
-- internal/data/summary_outbox_repo.go), counted over a sequence of calls.
use feedium.Prelude.{
  ℕ, ◌+◌, ◌≤◌, String, ◌≡◌, refl, Bool, true, false, ◌&&◌, Option, none, some, List, [], ◌∷◌, arith,
  ◌==◌, any, All, Bool-cases, inl, inr, if◌then◌else◌, and_split,
}
use feedium.Errors.{Result, ok, err}
use feedium.Uuid.{UuidCodec}
use feedium.Outbox.Table.{update_where}
use feedium.Outbox.Table.Tests.{any-updated, any-exclusive}
use feedium.Outbox.Event.{Row, is_terminal, is_some_eq, is_some_eq-eq}
use feedium.Outbox.Statements.{holds_lease, is_stuck, finalize_set, fail_set}
use feedium.Outbox.Repo.{
  Fault, refused, uncounted, microseconds, with_parsed, guarded, terminated, finalize_id, fail_id,
  parse_id, parse_optional, finalize_with_lease, fail_expired, update_status,
}
use feedium.Outbox.Invariant.{IsConsistent}
use feedium.Outbox.Absorb.{
  is_over, Over, lease-is_over, stuck-is_over, is_over-id, Spares, Spares-ends, after-Over,
}
use feedium.Outbox.Run.{
  Outcome, status_of, outcome_terminal, Call, finalize, reap, set_status, after, after-IsConsistent,
}

abbrev pub is_ok {ℓ} : {A : Type ℓ} → Result A → Bool
is_ok (ok a) = true
is_ok (err e) = false

abbrev pub is_done : Result Bool → Bool
is_done (ok b) = b
is_done (err e) = false

-- The statement takes effect, whether or not its rows are counted.
abbrev pub effect_of : Option Fault → Option Fault
effect_of none = none
effect_of (some (refused e)) = some (refused e)
effect_of (some (uncounted e)) = none

module _ (codec : UuidCodec) where
  -- The call writes a terminal status to the event `i`.
  unfoldable pub terminates : ℕ → Call → List Row → Bool
  terminates i (finalize fault now event worker outcome sid error) t =
      is_some_eq (codec.parse event) i
      && is_ok
          (finalize_with_lease codec (effect_of fault) now event worker (status_of outcome) sid
            error t).0
  terminates i (reap fault now event most grace error) t =
      is_some_eq (codec.parse event) i
      && is_done (fail_expired codec (effect_of fault) now event most grace error t).0
  terminates i (set_status fault now event status sid error) t =
      is_some_eq (codec.parse event) i
      && is_terminal status
      && is_ok (update_status codec fault now event status sid error t).0
  terminates i _ t = false

  -- How many of the calls do.
  abbrev pub terminations : ℕ → List Call → List Row → ℕ
  terminations i [] t = 0
  terminations i (call ∷ calls) t =
      (if terminates i call t then 1 else 0) + terminations i calls (after codec call t)

-- What a successful terminal write says of the table.
guarded_ok :
    (what rows : String) (fault : Option Fault) (b : Bool) (t' t : List Row)
    → is_ok (guarded what rows (effect_of fault) (b, t') t).0 ≡ true
    → (b ≡ true) × ((guarded what rows fault (b, t') t).1 ≡ t')
guarded_ok what rows (some (refused e)) b t' t h = cc
guarded_ok what rows (some (uncounted e)) true t' t h = (refl, refl)
guarded_ok what rows (some (uncounted e)) false t' t h = cc
guarded_ok what rows none true t' t h = (refl, refl)
guarded_ok what rows none false t' t h = cc

terminated_done :
    (what rows : String) (fault : Option Fault) (b : Bool) (t' t : List Row)
    → is_done (terminated what rows (effect_of fault) (b, t') t).0 ≡ true
    → (b ≡ true) × ((terminated what rows fault (b, t') t).1 ≡ t')
terminated_done what rows (some (refused e)) b t' t h = cc
terminated_done what rows (some (uncounted e)) b t' t h = (h, refl)
terminated_done what rows none b t' t h = (h, refl)

-- The event was not terminated before the write, and is after it.
record Ends (i : ℕ) (t t' : List Row) : Type 0 where
  was_open : Over i t → ⊥
  now_over : Over i t'

-- A statement that changed a row of the event `i` which was in processing, to a terminal status.
ends :
    (i : ℕ) (p : Row → Bool) (f : Row → Row) (t : List Row)
    → IsConsistent t
    → ((r : Row) → p r ≡ true → (r.id == i) ≡ true)
    → ((r : Row) → p r ≡ true → is_over i r ≡ true → ⊥)
    → ((r : Row) → p r ≡ true → is_over i (f r) ≡ true)
    → any p t ≡ true
    → Ends i t (update_where p f t)
ends i p f t c ids open_row over changed = record {
  was_open =
      any-exclusive (λ r. r.id == i) p (is_over i) t ids (λ r. is_over-id i r) open_row (c.ids i)
        changed;
  now_over = any-updated (is_over i) p f t over changed;
}

module _ (i : ℕ) (r : Row) where
  finalize-is_over :
      (worker : String) (now : ℕ) (o : Outcome) (sid : Option ℕ) (error : Option String)
      → holds_lease i worker now r ≡ true
      → is_over i (finalize_set (status_of o) sid error now r) ≡ true
  unfolding is_over holds_lease finalize_set
  finalize-is_over worker now o sid error h = ground (arith, outcome_terminal o)

  fail-is_over :
      (most grace now : ℕ) (error : String)
      → is_stuck i most grace now r ≡ true
      → is_over i (fail_set error now r) ≡ true
  unfolding is_over is_stuck fail_set
  fail-is_over most grace now error h = ground arith

  lease-id : (worker : String) (now : ℕ) → holds_lease i worker now r ≡ true → (r.id == i) ≡ true
  unfolding holds_lease
  lease-id worker now h = ground arith

  stuck-id : (most grace now : ℕ) → is_stuck i most grace now r ≡ true → (r.id == i) ≡ true
  unfolding is_stuck
  stuck-id most grace now h = ground arith

module _ (i : ℕ) (t : List Row) (c : IsConsistent t) where
  finalize_id-Ends :
      (fault : Option Fault) (now : ℕ) (worker : String) (o : Outcome) (error : Option String)
      (q : Result (Option ℕ))
      → is_ok (with_parsed q (finalize_id (effect_of fault) now worker (status_of o) error t i) t).0
        ≡ true
      → Ends i t (with_parsed q (finalize_id fault now worker (status_of o) error t i) t).1
  finalize_id-Ends fault now worker o error (err x) h = cc
  finalize_id-Ends fault now worker o error (ok sid) h =
      let p : Row → Bool = holds_lease i worker now in
      let f : Row → Row = finalize_set (status_of o) sid error now in
      let (changed, same) =
        guarded_ok "finalize with lease" "finalize rows affected" fault (any p t)
          (update_where p f t) t h in
      rw same (
        ends i p f t c (λ r e. lease-id i r worker now e)
          (λ r e over. cc (e, lease-is_over i r i worker now over))
          (λ r e. finalize-is_over i r worker now o sid error e) changed)

  fail_id-Ends :
      (fault : Option Fault) (now most grace : ℕ) (error : String)
      → is_done (fail_id (effect_of fault) now most grace error t i).0 ≡ true
      → Ends i t (fail_id fault now most grace error t i).1
  fail_id-Ends fault now most grace error h =
      let p : Row → Bool = is_stuck i most (microseconds grace) now in
      let f : Row → Row = fail_set error now in
      let (changed, same) =
        terminated_done "fail expired" "fail expired rows affected" fault (any p t)
          (update_where p f t) t h in
      rw same (
        ends i p f t c (λ r e. stuck-id i r most (microseconds grace) now e)
          (λ r e over. cc (e, stuck-is_over i r i most (microseconds grace) now over))
          (λ r e. fail-is_over i r most (microseconds grace) now error e) changed)

  finalize_ids-Ends :
      (fault : Option Fault) (now : ℕ) (worker : String) (o : Outcome) (error : Option String)
      (p : Result ℕ) (q : Result (Option ℕ))
      → let res : Option Fault → Result (Unit {0}) × List Row = λ f.
        with_parsed p
          (λ id. with_parsed q (finalize_id f now worker (status_of o) error t id) t)
          t in
        p ≡ ok i → is_ok (res (effect_of fault)).0 ≡ true → Ends i t (res fault).1
  finalize_ids-Ends fault now worker o error p q e h =
      rw e (finalize_id-Ends fault now worker o error q (rw e at h))

  fail_ids-Ends :
      (fault : Option Fault) (now most grace : ℕ) (error : String) (p : Result ℕ)
      → let res : Option Fault → Result Bool × List Row =
          λ f. with_parsed p (fail_id f now most grace error t) t in
        p ≡ ok i → is_done (res (effect_of fault)).0 ≡ true → Ends i t (res fault).1
  fail_ids-Ends fault now most grace error p e h =
      rw e (fail_id-Ends fault now most grace error (rw e at h))

pub parse_id-ok :
    (codec : UuidCodec) (what s : String) (u : ℕ)
    → codec.parse s ≡ some u
    → parse_id codec what s ≡ ok u
parse_id-ok codec what s u e = ground arith

module _ (codec : UuidCodec) (i : ℕ) (t : List Row) (c : IsConsistent t) where
  terminates-Ends :
      (call : Call)
      → Spares codec i call
      → terminates codec i call t ≡ true
      → Ends i t (after codec call t)
  unfolding terminates after finalize_with_lease fail_expired
  terminates-Ends (finalize fault now event worker o sid error) away h =
      let (named, done) =
        and_split (is_some_eq (codec.parse event) i)
          (is_ok
            (finalize_with_lease codec (effect_of fault) now event worker (status_of o) sid error
              t).0)
          h in
      finalize_ids-Ends i t c fault now worker o error (parse_id codec "invalid event id" event)
        (parse_optional codec "invalid summary id" sid)
        (parse_id-ok codec "invalid event id" event i (is_some_eq-eq (codec.parse event) i named))
        done
  terminates-Ends (reap fault now event most grace error) away h =
      let (named, done) =
        and_split (is_some_eq (codec.parse event) i)
          (is_done (fail_expired codec (effect_of fault) now event most grace error t).0) h in
      fail_ids-Ends i t c fault now most grace error (parse_id codec "invalid event id" event)
        (parse_id-ok codec "invalid event id" event i (is_some_eq-eq (codec.parse event) i named))
        done
  terminates-Ends (set_status fault now event status sid error) away h =
      let no = rw (away.1) at h in cc
  terminates-Ends _ away h = cc

  terminates-was_open :
      (call : Call)
      → Spares codec i call
      → terminates codec i call t ≡ true
      → any (is_over i) t ≡ false
  terminates-was_open call away h = elim (Bool-cases (any (is_over i) t)) [
    | inl over ↦ absurd ((terminates-Ends call away h).was_open over)
    | inr none_over ↦ none_over
  ]

  terminates-now_over :
      (call : Call)
      → Spares codec i call
      → terminates codec i call t ≡ true
      → any (is_over i) (after codec call t) ≡ true
  terminates-now_over call away h = (terminates-Ends call away h).now_over

-- Over any interleaving of calls of the repository from a consistent table, in which UpdateStatus is
-- not called on the event and writes terminal statuses only to others, at most one call writes a
-- terminal status to the event, and none does where the event has one already.
pub terminations-le_one :
    (codec : UuidCodec) (i : ℕ) (calls : List Call) (t : List Row)
    → All (Spares codec i) calls
    → IsConsistent t
    → terminations codec i calls t ≤ (if any (is_over i) t then 0 else 1)
terminations-le_one codec i [] t away c = ground arith
terminations-le_one codec i (call ∷ calls) t away c = ground (
  arith,
  terminations-le_one codec i calls (after codec call t) away.1
      (after-IsConsistent codec call t (Spares-ends codec i call away.0) c),
  after-Over codec i call t away.0 c,
  terminates-was_open codec i t c call away.0,
  terminates-now_over codec i t c call away.0,
)
