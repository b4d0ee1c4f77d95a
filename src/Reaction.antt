-- ===== src/Reaction.antt =====
-- Reactions to posts: ReactionUsecase (internal/biz/reaction.go) and reactionRepo
-- (internal/data/reaction_repo.go) on the table post_reactions.
pub mod Last
use feedium.Prelude.{
  ℕ, String, Bool, ◌||◌, ◌==◌, Option, none, some, List, any, str_eq, if◌then◌else◌,
}
use feedium.Errors.{Err, sentinel, opaque, wrap, invalid_signal, Result, ok, err}
use feedium.Uuid.{UuidCodec}
use feedium.Outbox.Table.Upsert.{upsert}
use feedium.Outbox.Repo.{parse_id, with_parsed}

pub record ReactionRow : Type 0 where
  pub id : ℕ
  pub post_id : ℕ
  pub signal : String
  pub created_at : ℕ
  pub updated_at : ℕ

-- post_id is unique.
abbrev pub for_post : ℕ → ReactionRow → Bool
for_post p r = r.post_id == p

abbrev pub new_reaction : ℕ → ℕ → ℕ → String → ReactionRow
new_reaction now id p signal = record {
  id = id;
  post_id = p;
  signal = signal;
  created_at = now;
  updated_at = now;
}

abbrev pub set_signal : ℕ → String → ReactionRow → ReactionRow
set_signal now signal r = record r { signal = signal; updated_at = now }

-- INSERT ... ON CONFLICT (post_id) DO UPDATE, with the foreign key to the ids of the posts.
abbrev pub put_reaction :
    Option Err
    → ℕ
    → ℕ
    → List ℕ
    → String
    → ℕ
    → List ReactionRow
    → Result (Unit {0}) × List ReactionRow
put_reaction (some e) now id posts signal p t = (err (wrap "upsert reaction" e), t)
put_reaction none now id posts signal p t =
    if any (λ q. q == p) posts
    then (ok tt, upsert (for_post p) (set_signal now signal) (new_reaction now id p signal) t)
    else (err (wrap "upsert reaction" (opaque "violates foreign key constraint")), t)

abbrev pub is_signal : String → Bool
is_signal signal = str_eq signal "like" || str_eq signal "dislike"

module _ (codec : UuidCodec) where
  -- `id` is what gen_random_uuid() makes.
  unfoldable pub upsert_reaction :
      Option Err
      → ℕ
      → ℕ
      → List ℕ
      → String
      → String
      → List ReactionRow
      → Result (Unit {0}) × List ReactionRow
  upsert_reaction fault now id posts post_id signal t =
      with_parsed (parse_id codec "invalid post id" post_id)
        (λ p. put_reaction fault now id posts signal p t) t

  unfoldable pub react :
      Option Err
      → ℕ
      → ℕ
      → List ℕ
      → String
      → String
      → List ReactionRow
      → Result (Unit {0}) × List ReactionRow
  unfolding upsert_reaction
  react fault now id posts post_id signal t =
      if is_signal signal
      then upsert_reaction fault now id posts post_id signal t
      else (err (sentinel invalid_signal), t)
