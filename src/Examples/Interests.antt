-- ===== src/Examples/Interests.antt =====
-- Changes of interests over the repositories, with a pass that fails and one that does not.
use feedium.Prelude.{◌≡◌, refl, false, none, some, [], ◌∷◌, arith}
use feedium.Errors.{Err, opaque, wrap, ok, err}
use feedium.Examples.Codecs.{codec, tokens}
use feedium.Examples.Scores.{counting}
use feedium.Examples.ScoreEvents.{pass, held_db, scored_db, scored_nowhere}
use feedium.Text.{is_blank, space_width}
use feedium.Tx.{Driver, in_tx}
use feedium.Scoring.Enqueue.{enqueue_scored_posts, enqueue_scored_digests}
use feedium.Interest.{create, update, delete}
use feedium.Interest.Repo
use feedium.Interest.Repo.{InterestRow, row_of, interest_of}
use feedium.Interest.Repo.Outside.{
  Database, Change, ports, ports-Contract, Left, new_row, create-Left,
}
use feedium.Interest.Rescored.{Created, changes-unchanged, create-Rescored}

abbrev driver : Driver (Database counting)
driver = record { begin = λ s. none; rollback = λ s. none; commit = λ s. none }

abbrev sample : InterestRow counting
sample = record {
  id = 1;
  topic = 65 ∷ [];
  embedding = 1 ∷ [];
  model = "new";
  created_at = 1;
  updated_at = 1;
}

-- A NULL is read as the nil uuid.
abbrev change : Change counting
change = record {
  embed = λ topic. ok (1 ∷ 2 ∷ []);
  model = "new";
  now = 3;
  new_id = 3;
  fault = none;
  driver = driver;
  posts = pass;
  digests = pass;
  null = ok 0;
}

-- A digest has a score.
abbrev start : Database counting
start = record { interests = sample ∷ []; held = scored_db }

create-Left_example :
    Left codec tokens change
      (new_row codec tokens change (66 ∷ []) (1 ∷ 2 ∷ []))
      start
      (create (ports codec tokens change) (66 ∷ []) start)
unfolding is_blank space_width
create-Left_example =
    create-Left codec tokens change (66 ∷ []) (1 ∷ 2 ∷ []) start refl refl refl refl refl
      (omega arith) refl scored_nowhere

abbrev lost : Change counting
lost = record change { posts = record pass { query_fault = some (opaque "connection lost") } }

abbrev cause : Err
cause = wrap "enqueue rescore" (wrap "query scored posts" (opaque "connection lost"))

changes-unchanged_example :
    ((create (ports codec tokens lost) (66 ∷ []) start).0 ≡ err cause
      → (create (ports codec tokens lost) (66 ∷ []) start).1.held ≡ start.held)
    × ((update (ports codec tokens lost) "#i" (66 ∷ []) start).0 ≡ err cause
        → (update (ports codec tokens lost) "#i" (66 ∷ []) start).1.held ≡ start.held)
    × ((delete (ports codec tokens lost) "#i" start).0 ≡ err cause
        → (delete (ports codec tokens lost) "#i" start).1.held ≡ start.held)
changes-unchanged_example =
    changes-unchanged (ports codec tokens lost) (λ s. s.held) (ports-Contract codec tokens lost)
      "#i" (66 ∷ []) start cause

-- No score is a digest's.
abbrev sound : Database counting
sound = record {
  interests = sample ∷ [];
  held = record held_db { scores = record { post_id = some 2; summary_id = none } ∷ [] };
}

abbrev made : InterestRow counting
made = record {
  id = 3;
  topic = 66 ∷ [];
  embedding = 1 ∷ 2 ∷ [];
  model = "new";
  created_at = 3;
  updated_at = 3;
}

abbrev after_made : Database counting
after_made = (create (ports codec tokens change) (66 ∷ []) sound).1

made_it :
    create (ports codec tokens change) (66 ∷ []) sound ≡ (ok (interest_of codec made), after_made)
unfolding create in_tx is_blank space_width Repo.save enqueue_scored_posts enqueue_scored_digests
made_it = refl

create-Rescored_example :
    (is_blank (66 ∷ []) ≡ false)
    × Created
        (ports codec tokens change)
        (λ s. s.held)
        (ports-Contract codec tokens change)
        (66 ∷ [])
        (interest_of codec made)
        after_made
create-Rescored_example =
    create-Rescored (ports codec tokens change) (λ s. s.held) (ports-Contract codec tokens change)
      (66 ∷ []) sound after_made (interest_of codec made) made_it
