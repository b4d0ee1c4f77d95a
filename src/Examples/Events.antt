-- ===== src/Examples/Events.antt =====
-- The outbox at work: events that are enqueued, claimed by two workers, renewed, retried and ended.
use feedium.Prelude.{
  ℕ, String, ◌≢◌, str_eq_iff, ◌≡◌, refl, Bool, true, false, none, some, List, [], ◌∷◌, ◌≤◌, ◌==◌,
  arith, All,
}
use mathlib.Core.List.{Memᴰ}
use feedium.Errors.{ok}
use feedium.Examples.Codecs.{codec}
use feedium.Outbox.Event.{
  new_summary_event, Row, summarize_post, processing, completed, expired, failed,
}
use feedium.Outbox.Invariant.{IsConsistent}
use feedium.Outbox.Table.{count}
use feedium.Outbox.Statements.{has_active_post, has_active_source}
use feedium.Outbox.Repo.{
  finalize_with_lease, claim_one, extend_lease, save, mark_for_retry, update_status,
}
use feedium.Outbox.Run.{
  Call, enqueue, claim, extend, finalize, retry, reap, complete, fail, set_status, ends, run, after,
  run-IsConsistent,
}
use feedium.Outbox.Absorb.{Spares}
use feedium.Outbox.Once.{terminations, terminates, terminations-le_one}
use feedium.Outbox.Lease.{Elsewhere, Held, finalize-after_others, run-Held}
use feedium.Outbox.Lifecycle.{Evolves}
use feedium.Outbox.Lifecycle.Calls.{after-Evolves}
use feedium.Outbox.Claim.{Claims, claim_one_lem}

abbrev nobody : ℕ → Bool
nobody i = false

-- An event is enqueued, twice for the same post; worker a loses its lease to worker b, which asks for
-- a retry; a claims the event again and completes it. Another event is ended by UpdateStatus.
abbrev calls : List Call
calls =
    enqueue none "#i" 100 summarize_post "#" (some "#ii")
    ∷ enqueue none "#iii" 101 summarize_post "#" (some "#ii")
    ∷ claim none nobody 200 "a" 50_000
    ∷ extend none 220 "#i" "a" 50_000
    ∷ claim none nobody 300 "b" 50_000
    ∷ finalize none 310 "#i" "a" complete none none
    ∷ retry none 320 "#i" "b" 400 "busy"
    ∷ claim none nobody 410 "a" 50_000
    ∷ finalize none 420 "#i" "a" complete (some "#iiii") none
    ∷ finalize none 430 "#i" "a" fail none (some "late")
    ∷ enqueue none "#iiiii" 440 summarize_post "#" (some "#iiiiii")
    ∷ set_status none 450 "#iiiii" expired none none
    ∷ []

calls_end : All (λ call. ends call ≡ true) calls
calls_end = (
  refl,
  (refl, (refl, (refl, (refl, (refl, (refl, (refl, (refl, (refl, (refl, (refl, tt))))))))))),
)

calls_spare : All (Spares codec 1) calls
calls_spare = (tt, (tt, (tt, (tt, (tt, (tt, (tt, (tt, (tt, (tt, (tt, ((refl, refl), tt))))))))))))

no_rows-IsConsistent : IsConsistent []
no_rows-IsConsistent = record {
  ids = λ i. omega arith;
  posts = λ p e. omega arith;
  sources = λ s. omega arith;
  leases = tt;
}

run-IsConsistent_example : IsConsistent (run codec calls [])
run-IsConsistent_example = run-IsConsistent codec calls [] calls_end no_rows-IsConsistent

terminations-le_one_example : terminations codec 1 calls [] ≤ 1
terminations-le_one_example = terminations-le_one codec 1 calls [] calls_spare no_rows-IsConsistent

ended_once : terminations codec 1 calls [] ≡ 1
unfolding terminates finalize_with_lease after claim_one extend_lease save new_summary_event
    mark_for_retry update_status
ended_once = refl

-- A row that worker a holds until 500.
abbrev leased : Row
leased = record {
  id = 1;
  post_id = some 2;
  source_id = 0;
  event_type = summarize_post;
  status = processing;
  summary_id = none;
  error = none;
  created_at = 100;
  processed_at = none;
  locked_until = some 500;
  locked_by = some "a";
  attempt_count = 1;
  next_attempt_at = none;
}

pub single : (q : Row → Bool) (r : Row) → count q (r ∷ []) ≤ 1
single q r = ground arith

leased-IsConsistent : IsConsistent (leased ∷ [])
leased-IsConsistent = record {
  ids = λ i. single (λ r. r.id == i) leased;
  posts = λ p e. single (has_active_post p e) leased;
  sources = λ s. single (has_active_source s) leased;
  leases = (record { until = refl; by = refl; done = refl }, tt);
}

abbrev others : List Call
others =
    claim none nobody 400 "b" 50_000
    ∷ finalize none 410 "#i" "b" fail none none
    ∷ reap none 420 "#i" 1 0 "stuck"
    ∷ enqueue none "#iii" 430 summarize_post "#" (some "#ii")
    ∷ set_status none 440 "#iii" failed none (some "dropped")
    ∷ []

after-Evolves_example :
    Evolves
      (leased ∷ [])
      (after codec (finalize none 420 "#i" "a" complete none none) (leased ∷ []))
after-Evolves_example =
    after-Evolves codec (finalize none 420 "#i" "a" complete none none) (leased ∷ []) refl
      leased-IsConsistent

leased-Held : Held "a" 500 leased
leased-Held = record { processing = refl; until = refl; holder = refl }

claim_one_lem_example :
    Claims codec nobody 600 "b" 50_000
      (leased ∷ [])
      (claim_one codec none nobody 600 "b" 50_000 (leased ∷ []))
claim_one_lem_example = claim_one_lem codec nobody 600 "b" 50_000 (leased ∷ [])

b_is_not_a : ◌≢◌ {A = String} "b" "a"
b_is_not_a e = let same = (str_eq_iff "b" "a").1 e in cc

others-Elsewhere : All (Elsewhere codec 1 "a" 500) others
others-Elsewhere = (omega arith, (b_is_not_a, (omega arith, (tt, ((refl, refl), tt)))))

run-Held_example : Memᴰ leased (run codec others (leased ∷ []))
run-Held_example =
    run-Held codec "a" 500 leased leased-Held others (leased ∷ []) others-Elsewhere
      leased-IsConsistent (Memᴰ.head refl)

finalize-after_others_example :
    (finalize_with_lease codec none 450
      (codec.to_string 1)
      "a"
      completed
      none
      none
      (run codec others (leased ∷ []))).0
    ≡ ok tt
finalize-after_others_example =
    finalize-after_others codec "a" 500 leased leased-Held others (leased ∷ []) 450 completed none
      none none others-Elsewhere leased-IsConsistent (Memᴰ.head refl) (omega arith) refl
