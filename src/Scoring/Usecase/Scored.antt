-- ===== src/Scoring/Usecase/Scored.antt =====
-- What ScorePost (internal/biz/score.go) leaves behind where it answers an id.
use feedium.Prelude.{
  ap, ◌≡◌, refl, sym, subst, ◌∙◌, String, ◌&&◌, Option, none, some, List, [], ◌∷◌, map, All, str_eq,
  str_eq_iff, Bool-cases, inl, inr, and_split,
}
use feedium.Errors.{Result, ok, err, is, post_embedding_not_found}
use feedium.Exec.{pure, lift, wrapping}
use feedium.Exec.Ok.{bind_ok, wrapping_ok, ok_inj}
use feedium.Text.{Text}
use feedium.Summary.Ports.{Summary, reading}
use feedium.Scoring.Outbox.Event.{ScoreEvent}
use feedium.Scoring.Relevance.{Floats, Vector, relevance}
use feedium.Scoring.Relevance.Bounds.{Ordered, InRange, zero-InRange, relevance_bounds}
use feedium.Scoring.Ports.{ScoreKey, Score, PostEmbedding, InterestVector, ScorePorts}
use feedium.Scoring.Usecase.{
  latest, input_of, resolve_score_input, embedding_of, persist, recompute, reuse, resolve_vector,
  with_vector, same_model, value_of, new_score, upsert, save_at, save_value, score_with,
  score_against, score_input, score_post,
}

module _ {floats : Floats} {S : Type 0} (ports : ScorePorts floats S) where
  -- The key and the text of an event: the summary of its digest, or the first summary of its post.
  pub data InputOf (event : ScoreEvent) : ScoreKey → Text → Type 0 where
    digest :
        (id : String) (x : Summary) (s s' : S)
        → event.summary_id ≡ some id
        → ports.get_summary id s ≡ (ok x, s')
        → InputOf event (record { post_id = none; summary_id = some id }) x.text
    post :
        (id : String) (x : Summary) (xs : List Summary) (s s' : S)
        → event.summary_id ≡ none
        → event.post_id ≡ some id
        → ports.summaries_by_post id s ≡ (ok (x ∷ xs), s')
        → InputOf event (record { post_id = some id; summary_id = none }) x.text

  -- The vector of a text: stored for the key by the same model from a text with the same hash, or
  -- just computed from the text.
  pub data VectorOf (key : ScoreKey) (text : Text) : Vector floats → Type 0 where
    stored :
        (e : PostEmbedding floats) (s s' : S)
        → ports.get_embedding key s ≡ (ok e, s')
        → e.model ≡ ports.model
        → e.input_hash ≡ ports.hash_input text
        → VectorOf key text e.vector
    computed :
        (v : Vector floats) (s s' : S) → ports.embed text s ≡ (ok v, s') → VectorOf key text v

  pub data ValueOf (key : ScoreKey) (text : Text)
      : List (Vector floats) → floats.Float64 → Type 0 where
    lowest : ValueOf key text [] floats.zero
    relevant :
        (v i : Vector floats) (is : List (Vector floats)) (x : floats.Float64)
        → VectorOf key text v
        → relevance floats v (i ∷ is) ≡ ok x
        → ValueOf key text (i ∷ is) x

  -- The interests are those that the repository has listed, all of the current model, and a score is
  -- stored for the key of the event, with the value of its text against their vectors.
  pub record Scored (event : ScoreEvent) (id : String) : Type 0 where
    pub key : ScoreKey
    pub text : Text
    pub input : InputOf event key text
    pub interests : List (InterestVector floats)
    pub asked : S
    pub told : S
    pub listed : ports.interest_vectors asked ≡ (ok interests, told)
    pub models : All (λ iv. iv.model ≡ ports.model) interests
    pub score : Score floats
    pub value : ValueOf key text (map (λ iv. iv.embedding) interests) score.value
    pub keys : (score.post_id ≡ key.post_id) × (score.summary_id ≡ key.summary_id)
    pub model : score.model ≡ ports.model
    pub saved : Score floats
    pub before : S
    pub after : S
    pub upserted : ports.upsert_score score before ≡ (ok saved, after)
    pub answered : saved.id ≡ id

  latest-InputOf :
      (event : ScoreEvent) (id : String) (xs : List Summary) (s s' t t' : S) (key : ScoreKey)
      (text : Text)
      → event.summary_id ≡ none
      → event.post_id ≡ some id
      → ports.summaries_by_post id s ≡ (ok xs, s')
      → latest ports id xs t ≡ (ok (key, text), t')
      → InputOf event key text
  latest-InputOf event id [] s s' t t' key text es ep e h = cc
  latest-InputOf event id (x ∷ xs) s s' t t' key text es ep e h =
      let same : Path (ScoreKey × Text) (record { post_id = some id; summary_id = none }, x.text)
          (key, text) =
        cc in
      subst (λ p. InputOf event p.0 p.1) same (InputOf.post id x xs s s' es ep e)

  input-InputOf :
      (event : ScoreEvent) (p q : Option String) (s s' : S) (key : ScoreKey) (text : Text)
      → event.post_id ≡ p
      → event.summary_id ≡ q
      → input_of ports p q s ≡ (ok (key, text), s')
      → InputOf event key text
  input-InputOf event p (some id) s s' key text ep es h =
      let t = bind_ok (wrapping "get digest summary" (ports.get_summary id)) _ h in
      let same : Path (ScoreKey × Text)
          (record { post_id = none; summary_id = some id }, t.value.text) (key, text) =
        cc (t.rest) in
      subst (λ p. InputOf event p.0 p.1) same
        (InputOf.digest id t.value s t.state es
          (wrapping_ok "get digest summary" (ports.get_summary id) t.first))
  input-InputOf event (some id) none s s' key text ep es h =
      let t = bind_ok (wrapping "list post summaries" (ports.summaries_by_post id)) _ h in
      latest-InputOf event id t.value s t.state t.state s' key text es ep
        (wrapping_ok "list post summaries" (ports.summaries_by_post id) t.first) t.rest
  input-InputOf event none none s s' key text ep es h = cc

  persisted :
      (key : ScoreKey) (text : Text) (w v : Vector floats) (s s' : S)
      → persist ports key text w s ≡ (ok v, s')
      → w ≡ v
  persisted key text w v s s' h =
      let t =
        bind_ok
          (wrapping "persist embedding" (ports.upsert_embedding (embedding_of ports key text w)))
          (λ _. pure w) h in
      ok_inj (ap (λ p. p.0) t.rest)

  recompute-VectorOf :
      (key : ScoreKey) (text : Text) (s s' : S) (v : Vector floats)
      → recompute ports key text s ≡ (ok v, s')
      → VectorOf key text v
  unfolding recompute
  recompute-VectorOf key text s s' v h =
      let t = bind_ok (wrapping "embed summary" (ports.embed text)) (persist ports key text) h in
      subst (VectorOf key text) (persisted key text t.value v t.state s' t.rest) (
        VectorOf.computed t.value s t.state
          (wrapping_ok "embed summary" (ports.embed text) t.first))

  reuse-VectorOf :
      (key : ScoreKey) (text : Text) (s s' : S) (v : Vector floats)
      (r : Result (PostEmbedding floats) × S)
      → ports.get_embedding key s ≡ r
      → reuse ports key text r ≡ (ok v, s')
      → VectorOf key text v
  reuse-VectorOf key text s s' v (ok e, t) q h =
      elim (Bool-cases
        (str_eq e.model ports.model && str_eq e.input_hash (ports.hash_input text))) [
          | inl fits ↦
              let (same_model, same_hash) = and_split _ _ fits in
              let same : e.vector ≡ v = ok_inj (ap (λ p. p.0) (rw fits at h)) in
              subst (VectorOf key text) same (
                VectorOf.stored e s t q ((str_eq_iff e.model ports.model).0 same_model)
                  ((str_eq_iff e.input_hash (ports.hash_input text)).0 same_hash))
          | inr stale ↦ recompute-VectorOf key text t s' v (rw stale at h)
        ]
  reuse-VectorOf key text s s' v (err e, t) q h =
      elim (Bool-cases (is e post_embedding_not_found)) [
        | inl missing ↦ recompute-VectorOf key text t s' v (rw missing at h)
        | inr broken ↦ let no = rw broken at h in cc
      ]

  with_vector_ok :
      (v : Vector floats) (r : Result (List (Vector floats))) (vs : List (Vector floats))
      → with_vector ports v r ≡ ok vs
      → (vs' : List (Vector floats)) × (r ≡ ok vs') × (vs ≡ v ∷ vs')
  with_vector_ok v (err e) vs h = cc
  with_vector_ok v (ok vs') vs h = (vs', refl, ok_inj (sym h))

  -- All interests are of the current model, and their vectors are taken.
  same_model-All :
      (ivs : List (InterestVector floats)) (vs : List (Vector floats))
      → same_model ports ivs ≡ ok vs
      → All (λ iv. iv.model ≡ ports.model) ivs × (vs ≡ map (λ iv. iv.embedding) ivs)
  same_model-All [] vs h = (tt, ok_inj (sym h))
  same_model-All (iv ∷ ivs) vs h = elim (Bool-cases (str_eq iv.model ports.model)) [
    | inl same ↦
        let (vs', e, q) = with_vector_ok iv.embedding (same_model ports ivs) vs (rw same at h) in
        let (models, taken) = same_model-All ivs vs' e in
        (((str_eq_iff iv.model ports.model).0 same, models), q ∙ ap (λ l. iv.embedding ∷ l) taken)
    | inr other ↦ let no = rw other at h in cc
  ]

  value_of-ValueOf :
      (key : ScoreKey) (text : Text) (vs : List (Vector floats)) (s s' : S) (x : floats.Float64)
      → value_of ports key text vs s ≡ (ok x, s')
      → ValueOf key text vs x
  unfolding resolve_vector
  value_of-ValueOf key text [] s s' x h =
      subst (ValueOf key text []) (ok_inj (ap (λ p. p.0) h)) lowest
  value_of-ValueOf key text (i ∷ is) s s' x h =
      let t = bind_ok (resolve_vector ports key text) (λ v. lift (relevance floats v (i ∷ is))) h in
      relevant t.value i is x
        (reuse-VectorOf key text s t.state t.value (ports.get_embedding key s) refl t.first)
        (ap (λ p. p.0) t.rest)

  -- The stored score of a value.
  record SavedAs (key : ScoreKey) (value : floats.Float64) (id : String) : Type 0 where
    score : Score floats
    same_value : score.value ≡ value
    keys : (score.post_id ≡ key.post_id) × (score.summary_id ≡ key.summary_id)
    model : score.model ≡ ports.model
    saved : Score floats
    before : S
    after : S
    upserted : ports.upsert_score score before ≡ (ok saved, after)
    answered : saved.id ≡ id

  save_value-SavedAs :
      (key : ScoreKey) (value : floats.Float64) (s s' : S) (id : String)
      → save_value ports key value s ≡ (ok id, s')
      → SavedAs key value id
  save_value-SavedAs key value s s' id h =
      let t = bind_ok (reading ports.now) (save_at ports key value) h in
      let u =
        bind_ok (reading ports.new_id) (λ i. upsert ports (new_score ports key value t.value i))
          t.rest in
      let x = new_score ports key value t.value u.value in
      let w = bind_ok (wrapping "upsert score" (ports.upsert_score x)) (λ y. pure y.id) u.rest in
      record {
        score = x;
        same_value = refl;
        keys = (refl, refl);
        model = refl;
        saved = w.value;
        before = u.state;
        after = w.state;
        upserted = wrapping_ok "upsert score" (ports.upsert_score x) w.first;
        answered = ok_inj (ap (λ p. p.0) w.rest);
      }

  input-Scored :
      (event : ScoreEvent) (key : ScoreKey) (text : Text) (s s' : S) (id : String)
      → InputOf event key text
      → score_input ports (key, text) s ≡ (ok id, s')
      → Scored event id
  input-Scored event key text s s' id input h =
      let t =
        bind_ok (wrapping "list interest vectors" ports.interest_vectors)
          (score_against ports key text) h in
      let u = bind_ok (lift (same_model ports t.value)) (score_with ports key text) t.rest in
      let v = bind_ok (value_of ports key text u.value) (save_value ports key) u.rest in
      let (models, taken) = same_model-All t.value u.value (ap (λ p. p.0) u.first) in
      let saved = save_value-SavedAs key v.value v.state s' id v.rest in
      record {
        key = key;
        text = text;
        input = input;
        interests = t.value;
        asked = s;
        told = t.state;
        listed = wrapping_ok "list interest vectors" ports.interest_vectors t.first;
        models = models;
        score = saved.score;
        value =
            subst (λ vs. ValueOf key text vs saved.score.value) taken
              (subst (ValueOf key text u.value) (sym saved.same_value)
                (value_of-ValueOf key text u.value u.state v.state v.value v.first));
        keys = saved.keys;
        model = saved.model;
        saved = saved.saved;
        before = saved.before;
        after = saved.after;
        upserted = saved.upserted;
        answered = saved.answered;
      }

  -- Where ScorePost answers an id, the repository has stored a score with this id, for the post or
  -- the digest of the event and under the current model; its value is 0 where there are no
  -- interests, and else the relevance of a vector of the event's text, stored for it by the current
  -- model from a text with the same hash or computed from it, to the vectors of all interests
  -- that the repository has listed, none of which is of another model.
  pub score_post-Scored :
      (event : ScoreEvent) (s s' : S) (id : String)
      → score_post ports event s ≡ (ok id, s')
      → Scored event id
  unfolding score_post resolve_score_input
  score_post-Scored event s s' id h =
      let t = bind_ok (resolve_score_input ports event) (score_input ports) h in
      let (key, text) = t.value in
      input-Scored event key text t.state s' id
        (input-InputOf event event.post_id event.summary_id s t.state key text refl refl t.first)
        t.rest

  -- A value that ScorePost stores lies in [0, 1].
  pub ValueOf-InRange :
      (ordered : Ordered floats) (key : ScoreKey) (text : Text) (vs : List (Vector floats))
      (x : floats.Float64)
      → ValueOf key text vs x
      → InRange floats ordered x
  ValueOf-InRange ordered key text _ _ lowest = zero-InRange floats ordered
  ValueOf-InRange ordered key text _ _ (relevant v i is x from e) =
      (relevance_bounds floats ordered v (i ∷ is) x e).0
