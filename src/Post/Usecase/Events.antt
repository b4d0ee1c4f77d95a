-- ===== src/Post/Usecase/Events.antt =====
-- The events that PostUsecase.Create (internal/biz/post.go) makes.
use feedium.Prelude.{String, ◌≡◌, refl, sym, ap, ◌∙◌, ◌⊎◌, inl, inr, Bool, true, false}
use feedium.Errors.{Result, ok, err}
use feedium.Exec.{Exec, continue, ◌>>=◌}
use feedium.Uuid.{UuidCodec}
use feedium.Source.{Source, ProcessingMode, self_contained, cumulative, processing_mode_for_type}
use feedium.Post.{Post, validate_create_post}
use feedium.Post.Usecase.{
  PostPorts, PostRequest, save_with_event, create_tx, create_for, new_post, create,
}

-- What only reads leaves the posts and the outbox as they are, and the writing of a post the outbox; a
-- transaction commits what its closure did, or nothing.
pub record Contract {S D E : Type 0} (ports : PostPorts S) (outbox : S → D) (posts : S → E)
    : Type 1 where
  pub get_source : (id : String) (s : S) → outbox (ports.get_source id s).1 ≡ outbox s
  pub save_post : (p : Post) (s : S) → outbox (ports.save_post p s).1 ≡ outbox s
  pub now : (s : S) → outbox (ports.now s).1 ≡ outbox s
  pub new_id : (s : S) → outbox (ports.new_id s).1 ≡ outbox s
  pub get_source_posts : (id : String) (s : S) → posts (ports.get_source id s).1 ≡ posts s
  pub now_posts : (s : S) → posts (ports.now s).1 ≡ posts s
  pub new_id_posts : (s : S) → posts (ports.new_id s).1 ≡ posts s
  pub all_or_nothing :
      {A : Type 0} (m : Exec S A) (s : S)
      → (outbox (ports.in_tx m s).1 ≡ outbox (m s).1) ⊎ (outbox (ports.in_tx m s).1 ≡ outbox s)

-- The repository knows the post of the request in the state `s`: while it has the posts of `s`, saving
-- a post with the source and the external id of the request creates no row.
abbrev pub Known : {S E : Type 0} → PostPorts S → (S → E) → String → PostRequest → S → Type 0
Known {S = S} ports posts source_id r s =
    (p q : Post) (t t' : S) (created : Bool)
    → p.source_id ≡ source_id
    → p.external_id ≡ r.external_id
    → posts t ≡ posts s
    → ports.save_post p t ≡ (ok (q, created), t')
    → created ≡ false

module _ {S D E : Type 0} (codec : UuidCodec) (ports : PostPorts S) (outbox : S → D) (posts : S → E)
    (c : Contract ports outbox posts) where
  saved-outbox :
      (mode : ProcessingMode) (source_id : String) (p : Result (Post × Bool) × S)
      → (mode ≡ cumulative)
        ⊎ ((q : Post) (created : Bool) → p.0 ≡ ok (q, created) → created ≡ false)
      → outbox (continue p (save_with_event codec ports mode source_id)).1 ≡ outbox p.1
  saved-outbox mode source_id (err e, s) h = refl
  saved-outbox cumulative source_id (ok (q, created), s) h = refl
  saved-outbox self_contained source_id (ok (q, false), s) h = refl
  saved-outbox self_contained source_id (ok (q, true), s) (inl e) = cc
  saved-outbox self_contained source_id (ok (q, true), s) (inr known) =
      let no = known q true refl in cc

  create_tx-outbox :
      (mode : ProcessingMode) (source_id : String) (post : Post) (s : S)
      → (mode ≡ cumulative)
        ⊎ ((q : Post) (t' : S) (created : Bool)
            → ports.save_post post s ≡ (ok (q, created), t')
            → created ≡ false)
      → outbox (create_tx codec ports mode source_id post s).1 ≡ outbox s
  create_tx-outbox mode source_id post s (inl e) =
      saved-outbox mode source_id (ports.save_post post s) (inl e) ∙ c.save_post post s
  create_tx-outbox mode source_id post s (inr known) =
      saved-outbox mode source_id (ports.save_post post s) (
        inr (λ q created e.
          known q (ports.save_post post s).1 created (ap (λ r. (r, (ports.save_post post s).1)) e)))
      ∙ c.save_post post s

  quiet_at :
      (source_id : String) (r : PostRequest) (s0 s : S) (mode : ProcessingMode) (post : Post)
      → post.source_id ≡ source_id
      → post.external_id ≡ r.external_id
      → posts s ≡ posts s0
      → (mode ≡ cumulative) ⊎ Known ports posts source_id r s0
      → (mode ≡ cumulative)
        ⊎ ((q : Post) (t' : S) (created : Bool)
            → ports.save_post post s ≡ (ok (q, created), t')
            → created ≡ false)
  quiet_at source_id r s0 s mode post a b there (inl e) = inl e
  quiet_at source_id r s0 s mode post a b there (inr known) =
      inr (λ q t' created e. known post q s t' created a b there e)

  create_for-outbox :
      (source_id : String) (r : PostRequest) (source : Source) (s0 s : S)
      → posts s ≡ posts s0
      → (processing_mode_for_type source.source_type ≡ cumulative)
        ⊎ Known ports posts source_id r s0
      → outbox (create_for codec ports source_id r source s).1 ≡ outbox s
  create_for-outbox source_id r source s0 s there quiet =
      let s1 = (ports.now s).1 in
      let s2 = (ports.new_id s1).1 in
      let post = new_post codec ports source_id r (ports.now s).0 (ports.new_id s1).0 in
      let mode = processing_mode_for_type source.source_type in
      let read = c.new_id s1 ∙ c.now s in
      let quiet_save =
        quiet_at source_id r s0 s2 mode post refl refl (c.new_id_posts s1 ∙ c.now_posts s ∙ there)
          quiet in
      elim (c.all_or_nothing (create_tx codec ports mode source_id post) s2) [
        | inl done ↦ done ∙ create_tx-outbox mode source_id post s2 quiet_save ∙ read
        | inr undone ↦ undone ∙ read
      ]

  read_posts :
      (source_id : String) (s : S) (p : Result Source × S)
      → ports.get_source source_id s ≡ p
      → posts p.1 ≡ posts s
  read_posts source_id s p q = ap (λ x. posts x.1) (sym q) ∙ c.get_source_posts source_id s

  sourced :
      (source_id : String) (r : PostRequest) (s : S) (p : Result Source × S)
      → ports.get_source source_id s ≡ p
      → ((x : Source) (s' : S)
          → ports.get_source source_id s ≡ (ok x, s')
          → processing_mode_for_type x.source_type ≡ cumulative)
        ⊎ Known ports posts source_id r s
      → outbox (continue p (create_for codec ports source_id r)).1 ≡ outbox p.1
  sourced source_id r s (err e, s') q h = refl
  sourced source_id r s (ok x, s') q (inl slow) =
      create_for-outbox source_id r x s s' (read_posts source_id s _ q) (inl (slow x s' q))
  sourced source_id r s (ok x, s') q (inr known) =
      create_for-outbox source_id r x s s' (read_posts source_id s _ q) (inr known)

  checked :
      (source_id : String) (r : PostRequest) (s : S) (v : Result (Unit {0}))
      → outbox ((ports.get_source source_id >>= create_for codec ports source_id r) s).1 ≡ outbox s
      → outbox
          (continue
            (v, s)
            (λ _. ports.get_source source_id >>= create_for codec ports source_id r)).1
        ≡ outbox s
  checked source_id r s (ok u) h = h
  checked source_id r s (err e) h = refl

  -- Over ports that keep the contract: where the source is a cumulative one, or the repository knows
  -- a post with the source and the external id of the request already, Create makes no event: whatever
  -- it answers, the outbox is as it was.
  pub create-outbox :
      (source_id : String) (r : PostRequest) (s : S)
      → ((x : Source) (s' : S)
          → ports.get_source source_id s ≡ (ok x, s')
          → processing_mode_for_type x.source_type ≡ cumulative)
        ⊎ Known ports posts source_id r s
      → outbox (create codec ports source_id r s).1 ≡ outbox s
  unfolding create
  create-outbox source_id r s quiet =
      checked source_id r s
        (validate_create_post codec source_id r.external_id r.text r.published_at)
        (sourced source_id r s (ports.get_source source_id s) refl quiet ∙ c.get_source source_id s)
