-- ===== src/Summary/Schedule/Scheduled.antt =====
-- What ScheduleNextCumulative (internal/biz/summary_usecase.go) has done where it answers true.
use feedium.Prelude.{
  ◌≡◌, refl, ap, ◌∙◌, String, Bool, true, Option, none, some, List, [], ◌∷◌, Bool-cases, inl, inr,
}
use feedium.Errors.{Result, ok, err, is, no_source_due, summary_already_processing}
use feedium.Exec.{Exec}
use feedium.Exec.Ok.{bind_ok}
use feedium.Config.{SummaryConfig}
use feedium.Source.{Source}
use feedium.Post.{Post, ListPostsResult}
use feedium.Outbox.Event.{SummaryEvent, summarize_source, new_summary_event}
use feedium.Summary.Ports.{Ports, Summary}
use feedium.Summary.Process.{nanoseconds}
use feedium.Tx.Atomic.{Atomic, nothing, all}
use feedium.Summary.Schedule.{
  next_at, after_last, one_post, lost_race, enqueue_if, unless_active, maybe_enqueue_source_event,
  schedule_tx, no_source, schedule_next_cumulative,
}

module _ {S : Type 0} (ports : Ports S) (cfg : SummaryConfig) where
  -- In this order, and on one path from `s` to `s'`: a source is claimed, its next time is set to the
  -- clock's reading and the interval, the source has no active event, a post is newer than its last
  -- summary, and an event for the source, with a new identifier, is saved.
  pub record Scheduled (s s' : S) : Type 0 where
    pub source : Source
    pub s1 : S
    pub claimed : ports.claim_due s ≡ (ok source, s1)
    pub s2 : S
    pub bumped :
        ports.bump_next_summary_at source.id (next_at ports cfg (ports.now s1).0) (ports.now s1).1
        ≡ (ok tt, s2)
    pub s3 : S
    pub idle : ports.has_active_event source.id summarize_source s2 ≡ (ok none, s3)
    pub last : Option Summary
    pub s4 : S
    pub summarized : ports.last_summary source.id s3 ≡ (ok last, s4)
    pub newest : Post
    pub rest : List Post
    pub page : ListPostsResult
    pub s5 : S
    pub posts :
        ports.list_posts
          (one_post ports cfg source.id (after_last ports cfg last) (nanoseconds (ports.now s4).0))
          (ports.now s4).1
        ≡ (ok page, s5)
    pub filled : page.items ≡ newest ∷ rest
    pub saved : SummaryEvent
    pub stored :
        ports.save_event
          (new_summary_event
            (ports.new_id s5).0
            (ports.now (ports.new_id s5).1).0
            summarize_source
            source.id
            none)
          (ports.now (ports.new_id s5).1).1
        ≡ (ok saved, s')

  lost_race-true :
      (p : Result SummaryEvent × S) (s' : S)
      → lost_race ports cfg p ≡ (ok true, s')
      → (saved : SummaryEvent) × (p ≡ (ok saved, s'))
  lost_race-true (ok saved, s) s' h = (saved, ap (λ x. (ok saved, x.1)) h)
  lost_race-true (err e, s) s' h = elim (Bool-cases (is e summary_already_processing)) [
    | inl lost ↦ let no = rw lost at h in cc
    | inr other ↦ let no = rw other at h in cc
  ]

  no_source-true :
      (p : Result Bool × S) (s' : S) → no_source ports cfg p ≡ (ok true, s') → p ≡ (ok true, s')
  no_source-true (ok b, s) s' h = h
  no_source-true (err e, s) s' h = elim (Bool-cases (is e no_source_due)) [
    | inl due ↦ let no = rw due at h in cc
    | inr other ↦ let no = rw other at h in cc
  ]

  -- The event of a list of posts that is not empty.
  enqueue_if-true :
      (source_id : String) (ps : List Post) (s s' : S)
      → enqueue_if ports cfg source_id ps s ≡ (ok true, s')
      → (newest : Post) × (rest : List Post) × (saved : SummaryEvent) × (ps ≡ newest ∷ rest)
        × (ports.save_event
              (new_summary_event
                (ports.new_id s).0
                (ports.now (ports.new_id s).1).0
                summarize_source
                source_id
                none)
              (ports.now (ports.new_id s).1).1
            ≡ (ok saved, s'))
  enqueue_if-true source_id [] s s' h = cc
  enqueue_if-true source_id (p ∷ ps) s s' h =
      let (saved, e) = lost_race-true _ s' h in (p, ps, saved, refl, e)

  unless_active-Scheduled :
      (s s' s1 s2 s3 : S) (source : Source) (o : Option SummaryEvent)
      → ports.claim_due s ≡ (ok source, s1)
      → ports.bump_next_summary_at source.id (next_at ports cfg (ports.now s1).0) (ports.now s1).1
        ≡ (ok tt, s2)
      → ports.has_active_event source.id summarize_source s2 ≡ (ok o, s3)
      → unless_active ports cfg source.id o s3 ≡ (ok true, s')
      → Scheduled s s'
  unless_active-Scheduled s s' s1 s2 s3 source (some event) claimed bumped asked h = cc
  unless_active-Scheduled s s' s1 s2 s3 source none claimed bumped asked h =
      let last = bind_ok (ports.last_summary source.id) _ h in
      let before = nanoseconds (ports.now last.state).0 in
      let listed =
        bind_ok
          (ports.list_posts (one_post ports cfg source.id (after_last ports cfg last.value) before))
          _ last.rest in
      let (newest, rest, saved, filled, stored) =
        enqueue_if-true source.id listed.value.items listed.state s' listed.rest in
      record {
        source = source;
        s1 = s1;
        claimed = claimed;
        s2 = s2;
        bumped = bumped;
        s3 = s3;
        idle = asked;
        last = last.value;
        s4 = last.state;
        summarized = last.first;
        newest = newest;
        rest = rest;
        page = listed.value;
        s5 = listed.state;
        posts = listed.first;
        filled = filled;
        saved = saved;
        stored = stored;
      }

  schedule_tx-Scheduled : (s s' : S) → schedule_tx ports cfg s ≡ (ok true, s') → Scheduled s s'
  unfolding schedule_tx maybe_enqueue_source_event
  schedule_tx-Scheduled s s' h =
      let t = bind_ok ports.claim_due _ h in
      let next = next_at ports cfg (ports.now t.state).0 in
      let u = bind_ok (ports.bump_next_summary_at t.value.id next) _ t.rest in
      let v = bind_ok (ports.has_active_event t.value.id summarize_source) _ u.rest in
      unless_active-Scheduled s s' t.state u.state v.state t.value v.value t.first u.first v.first
        v.rest

  module _ {D : Type 0} (db : S → D) where
    committed :
        {A : Type 0} (m : Exec S A) (s s' : S) (a : A) (r : Result A × S)
        → Atomic db m s r
        → r ≡ (ok a, s')
        → m s ≡ (ok a, s')
    committed m s s' a r (nothing e t same) h = cc
    committed m s s' a r (all b t e) h = e ∙ h

    -- Where ScheduleNextCumulative answers true and its transaction is atomic, the transaction has
    -- claimed a source, set its next time to the clock's reading and the interval, found no active
    -- event of the source and a post in it since its last summary, and saved a pending event for the
    -- source, in this order, on one path from the state before to the state after.
    pub schedule_next_cumulative-Scheduled :
        (s s' : S)
        → Atomic db (schedule_tx ports cfg) s (ports.in_tx (schedule_tx ports cfg) s)
        → schedule_next_cumulative ports cfg s ≡ (ok true, s')
        → Scheduled s s'
    unfolding schedule_next_cumulative
    schedule_next_cumulative-Scheduled s s' atomic h = schedule_tx-Scheduled s s' (
        committed (schedule_tx ports cfg) s s' true (ports.in_tx (schedule_tx ports cfg) s) atomic
          (no_source-true (ports.in_tx (schedule_tx ports cfg) s) s' h))
