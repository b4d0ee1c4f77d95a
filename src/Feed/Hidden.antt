-- ===== src/Feed/Hidden.antt =====
-- Reactions and the ranked feed together: ReactionUsecase.React (internal/biz/reaction.go) before
-- FeedUsecase.RankedFeed (internal/biz/feed.go) over scoreRepo.ListRanked (internal/data/score_repo.go).
use mathlib.Core.Option
use mathlib.Core.Option.{some_inj}
use feedium.Prelude.{
  ℕ, suc, String, Bool, true, false, ◌||◌, ◌≡◌, ◌≢◌, sym, ◌∙◌, Option, none, some, List, [], ◌∷◌,
  ◌++◌, map, str_eq, str_eq_iff, subst, Bool-cases, inl, inr, All, All-append, All-select, All-take,
  if◌then◌else◌,
}
use feedium.Prelude.Int.{ℤ, pos_part}
use feedium.Errors.{Err, sentinel, detail, invalid_threshold, wrap, Result, ok, err, ◌>>=◌}
use feedium.Exec.Ok.{ok_inj}
use feedium.Uuid.{UuidCodec}
use feedium.Outbox.Table.{find}
use feedium.Pages.Suffix.{All-sort}
use feedium.Post.Repo.{PostRow}
use feedium.Summary.Repo.{SummaryRow}
use feedium.Scoring.Relevance.{Floats}
use feedium.Scoring.Scores.{StoredScore}
use feedium.Reaction.{ReactionRow, for_post}
use feedium.Reaction.Last.{ReactCall, signal_at, last_signal, run_reactions, signal-run}
use feedium.Source.Usecase.{clamp_page_size}
use feedium.Feed.{is_after, post, FeedItem, FeedQuery, FeedResult, ranked_feed}
use feedium.Feed.Rows.{
  SqlFloats, FeedDb, RankedRow, digest_row, signal_of, shown, joined_post, post_branch,
  joined_digest, digest_branch, admitted, ranked_before, ranked_rows,
}
use feedium.Feed.Repo.{ScoreTokens, FeedFaults, item_of, scanned, answered, list_ranked}

signal_of-at :
    (o : Option ReactionRow) (s : String) → Option.map (λ r. r.signal) o ≡ some s → signal_of o ≡ s
signal_of-at none s h = cc
signal_of-at (some r) s h = some_inj.0 h

passed :
    {A : Type 0} (a b : Bool) (e e' : Err) (r : Result A) (x : A)
    → (if a then err e else if b then err e' else r) ≡ ok x
    → r ≡ ok x
passed true b e e' r x h = cc
passed false true e e' r x h = cc
passed false false e e' r x h = h

module _ {floats : Floats} (codec : UuidCodec) (p : ℕ) where
  -- Not the post `p`.
  abbrev pub IsHidden : FeedItem floats → Type 0
  IsHidden i = i.kind ≡ post → codec.parse i.post.id ≢ some p

  abbrev Other : RankedRow floats → Type 0
  Other r = r.kind ≡ post → r.id ≢ p

  module _ (sql : SqlFloats floats) (db : FeedDb floats) where
    shown-Other :
        (value : floats.Float64) (r : PostRow) (signal : String)
        → (r.id ≡ p → signal ≡ "dislike")
        → All Other (shown sql db value r signal)
    shown-Other value r signal h = elim (Bool-cases (str_eq signal "dislike")) [
      | inl e ↦ rw e tt
      | inr e ↦
          let kept : r.id ≢ p = λ same. let e' = (str_eq_iff signal "dislike").1 (h same) in cc in
          rw e ((λ k. kept), tt)
    ]

    joined_post-Other :
        (value : floats.Float64) (o : Option PostRow)
        → signal_at p db.reactions ≡ some "dislike"
        → All Other (joined_post sql db value o)
    joined_post-Other value none d = tt
    joined_post-Other value (some r) d =
        shown-Other value r (signal_of (find (for_post r.id) db.reactions))
          (λ same. signal_of-at (find (for_post r.id) db.reactions) "dislike" (rw same d))

    joined_digest-Other :
        (value : floats.Float64) (o : Option SummaryRow) → All Other (joined_digest sql value o)
    joined_digest-Other value none = tt
    joined_digest-Other value (some s) = of_digest s.post_id
      where
        of_digest :
            (o : Option ℕ) → All Other (elim o [ none ↦ digest_row sql value s ∷ [] | some k ↦ [] ])
        of_digest none = ((λ k. absurd (cc)), tt)
        of_digest (some k) = tt

    post_branch-Other :
        (scores : List (StoredScore floats))
        → signal_at p db.reactions ≡ some "dislike"
        → All Other (post_branch sql db scores)
    post_branch-Other [] d = tt
    post_branch-Other (s ∷ ss) d =
        All-append Other (joined_post sql db s.value _) (post_branch sql db ss)
          (joined_post-Other s.value _ d) (post_branch-Other ss d)

    digest_branch-Other :
        (scores : List (StoredScore floats)) → All Other (digest_branch sql db scores)
    digest_branch-Other [] = tt
    digest_branch-Other (s ∷ ss) =
        All-append Other (joined_digest sql s.value _) (digest_branch sql db ss)
          (joined_digest-Other s.value _) (digest_branch-Other ss)

    ranked_rows-Other :
        (q : FeedQuery floats) (cursor : Option (floats.Float64 × ℕ))
        → signal_at p db.reactions ≡ some "dislike"
        → All Other (ranked_rows sql db q cursor)
    ranked_rows-Other q cursor d = All-take Other (suc q.page_size) _ (
        All-sort (ranked_before sql) Other _ (
          All-select Other (admitted sql q cursor)
            (post_branch sql db db.scores ++ digest_branch sql db db.scores)
            (All-append Other (post_branch sql db db.scores) (digest_branch sql db db.scores)
              (post_branch-Other db.scores d) (digest_branch-Other db.scores))))

    module _ (tokens : ScoreTokens floats) where
      items-IsHidden :
          (rows : List (RankedRow floats))
          → All Other rows
          → All IsHidden (map (item_of sql codec tokens) rows)
      items-IsHidden [] a = tt
      items-IsHidden (r ∷ rs) a = (
        (λ k same. a.0 k (some_inj.0 (sym (codec.parse-to_string r.id) ∙ same))),
        items-IsHidden rs a.1,
      )

      scanned-IsHidden :
          (scan ended : Option Err) (n : ℕ) (rows : List (RankedRow floats))
          (page : FeedResult floats)
          → All Other rows
          → scanned sql codec tokens scan ended n rows ≡ ok page
          → All IsHidden page.items
      scanned-IsHidden (some e) ended n (r ∷ rs) page a h = cc
      scanned-IsHidden (some e) (some e') n [] page a h = cc
      scanned-IsHidden (some e) none n [] page a h =
          subst (λ x. All IsHidden x.items) (ok_inj h) (All-take IsHidden n [] tt)
      scanned-IsHidden none (some e) n rows page a h = cc
      scanned-IsHidden none none n rows page a h =
          subst (λ x. All IsHidden x.items) (ok_inj h)
            (All-take IsHidden n (map (item_of sql codec tokens) rows) (items-IsHidden rows a))

      queried-IsHidden :
          (faults : FeedFaults) (fault : Option Err) (q : FeedQuery floats)
          (cursor : Option (floats.Float64 × ℕ)) (page : FeedResult floats)
          → signal_at p db.reactions ≡ some "dislike"
          → elim fault [
            | none ↦
                scanned sql codec tokens faults.scan_fault faults.rows_fault q.page_size
                  (ranked_rows sql db q cursor)
            | some e ↦ err (wrap "list ranked feed" e)
          ]
            ≡ ok page
          → All IsHidden page.items
      queried-IsHidden faults none q cursor page d h =
          scanned-IsHidden faults.scan_fault faults.rows_fault q.page_size _ page
            (ranked_rows-Other q cursor d) h
      queried-IsHidden faults (some e) q cursor page d h = cc

      cursor-IsHidden :
          (faults : FeedFaults) (q : FeedQuery floats) (c : Result (Option (floats.Float64 × ℕ)))
          (page : FeedResult floats)
          → signal_at p db.reactions ≡ some "dislike"
          → (c >>= answered sql codec tokens faults db q) ≡ ok page
          → All IsHidden page.items
      cursor-IsHidden faults q (err e) page d h = cc
      cursor-IsHidden faults q (ok cursor) page d h =
          queried-IsHidden faults faults.query_fault q cursor page d h

      listed-IsHidden :
          (faults : FeedFaults) (q : FeedQuery floats) (page : FeedResult floats)
          → signal_at p db.reactions ≡ some "dislike"
          → list_ranked sql codec tokens faults db q ≡ ok page
          → All IsHidden page.items
      unfolding list_ranked
      listed-IsHidden faults q page d h = cursor-IsHidden faults q _ page d h

      feed-IsHidden :
          (faults : FeedFaults) (size : ℤ) (q : FeedQuery floats) (page : FeedResult floats)
          → signal_at p db.reactions ≡ some "dislike"
          → ranked_feed floats (list_ranked sql codec tokens faults db) size q ≡ ok page
          → All IsHidden page.items
      unfolding ranked_feed
      feed-IsHidden faults size q page d h =
          let asked = record q { page_size = pos_part (clamp_page_size size) } in
          listed-IsHidden faults asked page d (
            passed (floats.lt q.min_score floats.zero || floats.lt floats.one q.min_score)
              (is_after floats q.from q.to)
              (detail (sentinel invalid_threshold) "min_score must be in [0,1]")
              (detail (sentinel invalid_threshold) "from must be before to")
              (list_ranked sql codec tokens faults db asked) page h)

  -- Where the last call of React that was accepted for a post is a dislike, or a dislike was stored
  -- before and no call was accepted for it, no page of the ranked feed after the calls has the post,
  -- whatever the tables, the query and its page token.
  pub feed-run_reactions :
      (sql : SqlFloats floats) (tokens : ScoreTokens floats) (calls : List ReactCall)
      (db : FeedDb floats) (faults : FeedFaults) (size : ℤ) (q : FeedQuery floats)
      (page : FeedResult floats)
      → last_signal codec p calls (signal_at p db.reactions) ≡ some "dislike"
      → ranked_feed floats
          (list_ranked sql codec tokens faults
            (record db { reactions = run_reactions codec calls db.reactions }))
          size
          q
        ≡ ok page
      → All IsHidden page.items
  feed-run_reactions sql tokens calls db faults size q page last h =
      feed-IsHidden sql (record db { reactions = run_reactions codec calls db.reactions }) tokens
        faults size q page (signal-run codec p calls db.reactions ∙ last) h
