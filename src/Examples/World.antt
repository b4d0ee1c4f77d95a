-- ===== src/Examples/World.antt =====
-- A world for the use cases of summaries: the tables of posts, summaries and events, a clock that
-- also numbers the identifiers, and a provider that counts its calls and answers in two letters.
use feedium.Prelude.{ℕ, zero, suc, String, Bool, false, none, some, List, [], ◌∷◌, select, str_eq}
use feedium.Prelude.Int.{pos}
use feedium.Errors.{opaque, Result, ok, err}
use feedium.Exec.{Exec}
use feedium.Text.{Text}
use feedium.Source.{Source, telegram_group, cumulative, telegram_group_config}
use feedium.Post.Repo.{PostRow, list, get}
use feedium.Outbox.Event.{Row, summarize_post, processing}
use feedium.Outbox.Repo.{has_active_event, save, list_lease_expired, fail_expired}
use feedium.Examples.Codecs.{codec, tokens, print}
use feedium.Tx.{Held, Driver, in_tx}
use feedium.Summary.Ports.{Ports, Summary}

pub record World : Type 0 where
  pub rows : List PostRow
  pub summaries : List Summary
  pub events : List Row
  pub tick : ℕ
  pub calls : ℕ

abbrev of_post : String → Summary → Bool
of_post id x = elim x.post_id [ none ↦ false | some p ↦ str_eq p id ]

abbrev keep_events : {A : Type 0} → World → Result A × List Row → Result A × World
keep_events s (r, t) = (r, record s { events = t })

-- The outbox is what a transaction rolls back; the driver answers without errors.
abbrev pub outbox : Held World (List Row)
outbox = record {
  db = λ s. s.events;
  restore = λ t s. record s { events = t };
  db-restore = λ t s. λ i. t;
}

abbrev pub driver : Driver World
driver = record { begin = λ s. none; rollback = λ s. none; commit = λ s. none }

abbrev group : String → Source
group id = record {
  id = id;
  source_type = telegram_group;
  processing_mode = cumulative;
  config = some (telegram_group_config (pos 7) "group");
  created_at = 0;
  updated_at = 0;
}

abbrev pub provider : Text → Text → Exec World Text
provider prompt text s = (ok (79 ∷ 75 ∷ []), record s { calls = suc s.calls })

abbrev pub ports : Ports World
ports = record {
  summaries_by_post = λ id s. (ok (select (of_post id) s.summaries), s);
  last_summary = λ id s. (ok none, s);
  save_summary = λ x s. (ok x, record s { summaries = x ∷ s.summaries });
  has_active_event = λ id ty s. (has_active_event codec none id ty s.events, s);
  save_event = λ e s. keep_events s (save codec none e s.events);
  list_lease_expired =
      λ grace limit s. (list_lease_expired codec none s.tick grace limit s.events, s);
  fail_expired = λ id most grace error s.
      keep_events s (fail_expired codec none s.tick id most grace error s.events);
  get_source = λ id s. (ok (group id), s);
  claim_due = λ s. (ok (group "#"), s);
  bump_next_summary_at = λ id at s. (err (opaque "connection lost"), s);
  get_post = λ id s. (get codec none id s.rows, s);
  list_posts = λ f s. (list codec tokens none none f s.rows, s);
  in_tx = λ m. in_tx outbox driver m;
  prompt_for = λ mode. ok [];
  llm_for = λ mode. ok provider;
  wait = λ d s. (ok tt, s);
  now = λ s. (s.tick, s);
  new_id = λ s. (print s.tick, record s { tick = suc s.tick });
}

-- Three posts of the source 0, of 5, 10 and 20 bytes.
abbrev post : ℕ → ℕ → Text → PostRow
post id at text = record {
  id = id;
  source_id = 0;
  source_type = telegram_group;
  external_id = "external";
  published_at = at;
  author = none;
  text = text;
  metadata = [];
  created_at = at;
  updated_at = at;
}

abbrev letters : ℕ → Text
letters zero = []
letters (suc n) = 65 ∷ letters n

abbrev pub posts : List PostRow
posts = post 3 30 (letters 20) ∷ post 1 10 (letters 5) ∷ post 2 20 (letters 10) ∷ []

-- An event that a worker has claimed twice, and whose lease ended long ago.
abbrev pub stuck : Row
stuck = record {
  id = 1;
  post_id = some 2;
  source_id = 0;
  event_type = summarize_post;
  status = processing;
  summary_id = none;
  error = none;
  created_at = 10;
  processed_at = none;
  locked_until = some 20;
  locked_by = some "a";
  attempt_count = 2;
  next_attempt_at = none;
}

abbrev pub fresh : Row
fresh = record stuck { id = 5; post_id = some 3; attempt_count = 1 }

abbrev pub world : World
world = record {
  rows = posts;
  summaries = [];
  events = stuck ∷ fresh ∷ [];
  tick = 100_000_000;
  calls = 0;
}
