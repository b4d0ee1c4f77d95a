-- ===== src/Examples/Summaries.antt =====
-- The use cases of summaries in the example world.
use mathlib.Core.List.{Memᴰ}
use feedium.Prelude.{
  true, ℕ, suc, ◌+◌, String, ◌≡◌, refl, subst, ◌⊎◌, inl, none, some, List, [], ◌∷◌, map, ◌≤◌, arith,
  length,
}
use feedium.Summary.Ports.{Ports}
use feedium.Errors.{opaque, is, ok}
use feedium.Exec.{Exec}
use feedium.Text.{Text, truncate_utf8, is_blank, space_width, word_count}
use feedium.Text.Truncate.{Cut, truncate_utf8-Cut}
use feedium.Source.{self_contained}
use feedium.Pages.{sort}
use feedium.Post.Repo.{list, get, post_of, build_result}
use feedium.Post.Listing.{HasIds, Listed, answer, admitted, list-Listed}
use feedium.Outbox.Event.{
  Row, SummaryEvent, summarize_post, summarize_source, pending, new_summary_event,
}
use feedium.Outbox.Repo.{has_active_event, save}
use feedium.Summary.Window.{window_filter, collect_window_posts}
use feedium.Summary.Window.Fit.{Digest}
use feedium.Summary.Window.Pages.{Pages}
use feedium.Summary.Window.Rows.{collect_window_posts-rows}
use feedium.Summary.Llm.{llm_loop, summarize_with_llm_retry, max_retries_of}
use feedium.Summary.Llm.Attempts.{summarize-calls}
use feedium.Summary.Process
use feedium.Summary.Process.Saved.{
  Existing, Stored, Window, process_post_event-Stored, process_source_event-Digest,
}
use feedium.Summary.Schedule.{
  trigger_source_summarize, trigger_tx, schedule_next_cumulative, schedule_tx,
  maybe_enqueue_source_event,
}
use feedium.Summary.Schedule.Atomic.{Contract, trigger_source_summarize-unchanged}
use feedium.Summary.Schedule.Scheduled.{Scheduled, schedule_next_cumulative-Scheduled}
use feedium.Summary.Reap.{reap_stuck_events}
use feedium.Summary.Reap.Sound.{OnTable, reap_stuck_events-Spared}
use feedium.Tx.{in_tx}
use feedium.Tx.Atomic.{Atomic, in_tx-Atomic, in_tx-rolled_back}
use feedium.Examples.Codecs.{codec, tokens}
use feedium.Examples.Workers.{cfg}
use feedium.Examples.World.{World, outbox, driver, ports, provider, posts, fresh, world}

-- One letter of one byte, one of two and one of three.
abbrev letters : Text
letters = 97 ∷ 195 ∷ 169 ∷ 226 ∷ 130 ∷ 172 ∷ []

truncate_utf8-Cut_example : (k : ℕ) × Cut letters 4 k (truncate_utf8 letters 4)
truncate_utf8-Cut_example = truncate_utf8-Cut letters 4

posts-HasIds : HasIds posts
posts-HasIds = ((refl, (refl, tt)), ((refl, tt), (tt, tt)))

list-Listed_example :
    (n : ℕ) × Listed
      (answer codec tokens (window_filter "#" 0 50_000 "") 1 posts)
      n
      ""
      (map (post_of codec) (admitted codec tokens (window_filter "#" 0 50_000 "") 1 (some 0) posts))
    × (n ≤ suc (length (admitted codec tokens (window_filter "#" 0 50_000 "") 1 (some 0) posts)))
list-Listed_example =
    list-Listed codec tokens (window_filter "#" 0 50_000 "") 1 posts posts-HasIds (some 0) refl

collect_window_posts-rows_example :
    (text : Text) × (s' : World) × (collect_window_posts ports 4 "#" 0 50_000 40 world
      ≡ some (ok text, s'))
    × Digest 40
        (map
          (post_of codec)
          (admitted codec tokens (window_filter "#" 0 50_000 "") 499 (some 0) posts))
        text
    × (length text ≤ 40)
unfolding sort
collect_window_posts-rows_example =
    collect_window_posts-rows ports codec tokens posts world "#" (some 0) 0 50_000 40 4 (λ f. refl)
      posts-HasIds refl (omega arith)

same_provider : (l m : Text → Text → Exec World Text) → ok l ≡ ok m → l ≡ m
same_provider l m e = cc

summarize-calls_example :
    (summarize_with_llm_retry ports cfg self_contained letters world).1.calls
    ≤ 0 + max_retries_of cfg
summarize-calls_example =
    summarize-calls ports cfg self_contained letters (λ s. s.calls) (λ d s. omega arith)
      (λ l e p t s.
        subst (λ f. (f p t s).1.calls ≤ suc s.calls) (same_provider provider l e) (omega arith))
      world

abbrev event : SummaryEvent
event = record {
  id = "#i";
  post_id = some "#ii";
  source_id = "#";
  event_type = summarize_post;
  status = pending;
  summary_id = none;
  error = none;
  created_at = 99_000_000;
  processed_at = none;
  attempt_count = 1;
}

-- The clock's first identifier.
abbrev quick : World
quick = record world { tick = 4 }

process_post_event-Stored_example :
    (post_id : String) × (some "#ii" ≡ some post_id)
    × (Existing ports cfg post_id "#iiii" ⊎ Stored ports (some "#ii") "#" "#iiii")
unfolding Process.process_post_event Process.ensure_not_expired Process.summarize_and_save
    summarize_with_llm_retry llm_loop is_blank space_width word_count get post_of
process_post_event-Stored_example = process_post_event-Stored ports cfg event quick "#iiii" refl

abbrev source_event : SummaryEvent
source_event = record event { post_id = none; event_type = summarize_source; created_at = 4 }

abbrev now_world : World
now_world = record world { tick = 50 }

one_page :
    Window ports cfg source_event 0 50_000 1 now_world (
      map
        (post_of codec)
        (admitted codec tokens (window_filter "#" 0 50_000 "") 499 (some 0) posts))
unfolding sort list build_result post_of
one_page =
    Pages.last ""
      (record {
        items =
            map (post_of codec)
              (admitted codec tokens (window_filter "#" 0 50_000 "") 499 (some 0) posts);
        next_page_token = "";
      })
      now_world now_world refl refl

process_source_event-Digest_example :
    (text : Text) × (s2 : World) × (Process.process_source_event ports cfg 1 source_event now_world
      ≡ some (Process.digest ports cfg source_event text s2))
    × Digest 40
        (map
          (post_of codec)
          (admitted codec tokens (window_filter "#" 0 50_000 "") 499 (some 0) posts))
        text
    × ((id : String)
        → (Process.digest ports cfg source_event text s2).0 ≡ ok id
        → Stored ports none "#" id)
unfolding Process.window_of Process.ensure_not_expired
process_source_event-Digest_example =
    process_source_event-Digest ports cfg source_event now_world now_world 0 50_000 1 1
      (map (post_of codec)
        (admitted codec tokens (window_filter "#" 0 50_000 "") 499 (some 0) posts))
      refl one_page (omega arith)

-- The database of the world: its outbox.
abbrev tables : World → List Row
tables s = s.events

in_tx-Atomic_example :
    Atomic outbox.db
      (trigger_tx ports cfg "#" 500)
      quick
      (in_tx outbox driver (trigger_tx ports cfg "#" 500) quick)
in_tx-Atomic_example = in_tx-Atomic outbox driver (trigger_tx ports cfg "#" 500) quick

world-Contract : Contract ports tables
world-Contract = record {
  get_source = λ id s. refl;
  has_active_event = λ id ty s. refl;
  now = λ s. refl;
  rolled_back = λ m s e h. in_tx-rolled_back outbox driver m s e h;
}

-- The new time of the source cannot be written: the event is not kept either.
trigger_source_summarize-unchanged_example :
    tables (trigger_source_summarize ports cfg "#" quick).1 ≡ tables quick
unfolding trigger_source_summarize trigger_tx in_tx new_summary_event has_active_event save
trigger_source_summarize-unchanged_example =
    trigger_source_summarize-unchanged ports tables world-Contract cfg "#" quick
      (opaque "connection lost") refl

-- A database that sets the next time without an error.
abbrev kept_ports : Ports World
kept_ports = record ports { bump_next_summary_at = λ id at s. (ok tt, s) }

abbrev soon : World
soon = record world { tick = 40 }

abbrev scheduled : World
scheduled = (schedule_next_cumulative kept_ports cfg soon).1

event_scheduled : schedule_next_cumulative kept_ports cfg soon ≡ (ok true, scheduled)
unfolding schedule_next_cumulative schedule_tx is in_tx has_active_event list save new_summary_event
    maybe_enqueue_source_event sort
event_scheduled = refl

schedule_next_cumulative-Scheduled_example : Scheduled kept_ports cfg soon scheduled
schedule_next_cumulative-Scheduled_example =
    schedule_next_cumulative-Scheduled kept_ports cfg tables soon scheduled
      (in_tx-Atomic outbox driver (schedule_tx kept_ports cfg) soon) event_scheduled

world-OnTable : OnTable codec ports tables
world-OnTable = record {
  reads = λ grace limit s. refl;
  fails = λ id most grace error s. (none, s.tick, refl);
}

reap_stuck_events-Spared_example : Memᴰ fresh (tables (reap_stuck_events ports cfg world).1)
reap_stuck_events-Spared_example =
    reap_stuck_events-Spared codec ports tables cfg world fresh world-OnTable (inl (omega arith))
      (Memᴰ.tail (Memᴰ.head refl))
