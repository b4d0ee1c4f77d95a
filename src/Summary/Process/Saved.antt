-- ===== src/Summary/Process/Saved.antt =====
-- What a handled event leaves behind: the summary that ProcessPostEvent and ProcessSourceEvent
-- (internal/biz/summary_usecase.go) answer with.
use feedium.Prelude.{
  ℕ, ◌≤◌, ◌≡◌, refl, subst, ◌⊎◌, inl, inr, String, false, Option, none, some, List, [], ◌∷◌,
}
use feedium.Errors.{Result, ok, err}
use feedium.Exec.{Exec, pure, wrapped, wrapping, continue, ◌>>=◌}
use feedium.Config.{SummaryConfig, positive_or, default_cumulative_max_chars}
use feedium.Text.{Text, is_blank, word_count}
use feedium.Source.{ProcessingMode, self_contained, cumulative}
use feedium.Outbox.Event.{SummaryEvent}
use feedium.Summary.Ports.{Ports, Summary, reading}
use feedium.Post.{Post}
use feedium.Summary.Window.{window_filter}
use feedium.Summary.Window.Fit.{Digest}
use feedium.Summary.Window.Pages.{Pages, collect_window_posts-Digest}
use feedium.Summary.Llm.{summarize_with_llm_retry}
use feedium.Summary.Llm.Attempts.{summarize-blank}
use feedium.Summary.Process

-- The repository has stored a summary of a post or a source, with a text that is not blank and the
-- number of its words, and has answered with this identifier.
pub data Stored {S : Type 0} (ports : Ports S) (post_id : Option String) (source_id : String)
    : String → Type 0 where
  stored :
      (x saved : Summary) (s s' : S)
      → ports.save_summary x s ≡ (ok saved, s')
      → x.post_id ≡ post_id
      → x.source_id ≡ source_id
      → is_blank x.text ≡ false
      → x.word_count ≡ word_count x.text
      → Stored ports post_id source_id saved.id

ok_inj : {A : Type 0} {a b : A} → ok a ≡ ok b → a ≡ b
ok_inj h = cc

module _ {S : Type 0} (ports : Ports S) (cfg : SummaryConfig) where
  abbrev id_of : Summary → Exec S String
  id_of saved = pure saved.id

  finish :
      (x : Summary) (s : S) (id : String) (q : Result Summary × S)
      → ports.save_summary x s ≡ q
      → is_blank x.text ≡ false
      → x.word_count ≡ word_count x.text
      → (continue (wrapped "save summary" q) id_of).0 ≡ ok id
      → Stored ports x.post_id x.source_id id
  finish x s id (err e, s') q blank words h = cc
  finish x s id (ok saved, s') q blank words h =
      let same : saved.id ≡ id = cc in
      subst (Stored ports x.post_id x.source_id) same (stored x saved s s' q refl refl blank words)

  abbrev save_text : Option String → String → Text → Exec S String
  save_text post_id source_id text = do
    id ← reading ports.new_id
    now ← reading ports.now
    saved ←
        wrapping "save summary"
          (ports.save_summary (Process.new_summary ports cfg post_id source_id text id now))
    pure saved.id

  save_text-Stored :
      (post_id : Option String) (source_id id : String) (p : Result Text × S)
      → ((t : Text) → p.0 ≡ ok t → is_blank t ≡ false)
      → (continue (wrapped "summarize" p) (save_text post_id source_id)).0 ≡ ok id
      → Stored ports post_id source_id id
  save_text-Stored post_id source_id id (err e, s) blank h = cc
  save_text-Stored post_id source_id id (ok t, s) blank h =
      finish
        (Process.new_summary ports cfg post_id source_id t (ports.new_id s).0
          (ports.now (ports.new_id s).1).0)
        (ports.now (ports.new_id s).1).1 id _ refl (blank t refl) refl h

  summarize_and_save-Stored :
      (mode : ProcessingMode) (post_id : Option String) (source_id : String) (input : Text) (s : S)
      (id : String)
      → (Process.summarize_and_save ports cfg mode post_id source_id input s).0 ≡ ok id
      → Stored ports post_id source_id id
  unfolding Process.summarize_and_save
  summarize_and_save-Stored mode post_id source_id input s id h =
      save_text-Stored post_id source_id id (summarize_with_llm_retry ports cfg mode input s)
        (λ t e. summarize-blank ports cfg mode input s t e) h

  -- The post had a summary already: the newest one is the answer.
  abbrev pub Existing : String → String → Type 0
  Existing post_id id =
      (x : Summary) × (xs : List Summary) × (s : S) × (s' : S) × (ports.summaries_by_post post_id s
        ≡ (ok (x ∷ xs), s'))
      × (x.id ≡ id)

  after_get :
      (event : SummaryEvent) (id : String) (p : Result Post × S)
      → (continue (wrapped "get post" p) (λ post.
          Process.summarize_and_save ports cfg self_contained event.post_id event.source_id
            post.text)).0
        ≡ ok id
      → Stored ports event.post_id event.source_id id
  after_get event id (err e, s) h = cc
  after_get event id (ok post, s) h =
      summarize_and_save-Stored self_contained event.post_id event.source_id post.text s id h

  after_check :
      (event : SummaryEvent) (post_id id : String) (s : S) (p : Result (List Summary) × S)
      → ports.summaries_by_post post_id s ≡ p
      → (continue
          (wrapped "check existing summary" p)
          (Process.summarize_post ports cfg event post_id)).0
        ≡ ok id
      → Existing post_id id ⊎ Stored ports event.post_id event.source_id id
  after_check event post_id id s (err e, s') q h = cc
  after_check event post_id id s (ok [], s') q h =
      inr (after_get event id (ports.get_post post_id s') h)
  after_check event post_id id s (ok (x ∷ xs), s') q h = inl (x, xs, s, s', q, ok_inj h)

  with_post-Stored :
      (event : SummaryEvent) (o : Option String) (id : String) (p : Result (Unit {0}) × S)
      → (continue p (λ _. Process.with_post ports cfg event o)).0 ≡ ok id
      → (post_id : String) × (o ≡ some post_id)
        × (Existing post_id id ⊎ Stored ports event.post_id event.source_id id)
  with_post-Stored event o id (err e, s) h = cc
  with_post-Stored event none id (ok u, s) h = cc
  with_post-Stored event (some post_id) id (ok u, s) h =
      (post_id, refl, after_check event post_id id s (ports.summaries_by_post post_id s) refl h)

  -- Where ProcessPostEvent answers with an identifier, the event names a post, and the identifier is
  -- that of the first summary that the repository listed for the post, or that of a summary that it
  -- has just stored for the event's post and source, whose text is not blank and whose word count
  -- is that of the text.
  pub process_post_event-Stored :
      (event : SummaryEvent) (s : S) (id : String)
      → (Process.process_post_event ports cfg event s).0 ≡ ok id
      → (post_id : String) × (event.post_id ≡ some post_id)
        × (Existing post_id id ⊎ Stored ports event.post_id event.source_id id)
  unfolding Process.process_post_event
  process_post_event-Stored event s id h =
      with_post-Stored event event.post_id id (Process.ensure_not_expired ports cfg event s) h

  digest-Stored :
      (event : SummaryEvent) (text : Text) (s : S) (id : String)
      → (Process.digest ports cfg event text s).0 ≡ ok id
      → Stored ports none event.source_id id
  digest-Stored event [] s id h = cc
  digest-Stored event (b ∷ bs) s id h =
      summarize_and_save-Stored cumulative none event.source_id (b ∷ bs) s id h

  -- The window of an event holds these posts, in `n` pages.
  abbrev pub Window : SummaryEvent → ℕ → ℕ → ℕ → S → List Post → Type 0
  Window event start end n s posts =
      Pages (λ token. ports.list_posts (window_filter event.source_id start end token)) n "" s posts

  -- ProcessSourceEvent, on an event whose window [start, end) lists these posts in `n` pages, returns
  -- with fuel for `n` pages or more. The text that it summarizes, and refuses where it is empty, is
  -- the digest of these posts within `max_input_chars`; and an identifier that it answers with is
  -- that of a summary that it has just stored for the source and for no post, whose text is not blank
  -- and whose word count is that of the text.
  pub process_source_event-Digest :
      (event : SummaryEvent) (s s1 : S) (start end n fuel : ℕ) (posts : List Post)
      → Process.window_of ports cfg event s ≡ (ok (start, end), s1)
      → Window event start end n s1 posts
      → n ≤ fuel
      → (text : Text) × (s2 : S) × (Process.process_source_event ports cfg fuel event s
          ≡ some (Process.digest ports cfg event text s2))
        × Digest (positive_or cfg.max_input_chars default_cumulative_max_chars) posts text
        × ((id : String)
            → (Process.digest ports cfg event text s2).0 ≡ ok id
            → Stored ports none event.source_id id)
  unfolding Process.process_source_event
  process_source_event-Digest event s s1 start end n fuel posts w p h =
      let (text, s2, e, d, short) =
        collect_window_posts-Digest ports event.source_id start end
          (positive_or cfg.max_input_chars default_cumulative_max_chars) n fuel s1 posts p h in
      (text, s2, rw (w, e) refl, d, λ id ok_id. digest-Stored event text s2 id ok_id)
