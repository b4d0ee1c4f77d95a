-- ===== src/Interest/Rescored.antt =====
-- Changes of interests (internal/biz/interest.go) and the re-scoring that they ask for.
use feedium.Prelude.{ℕ, ◌≡◌, refl, ap, ◌∙◌, String, false, Bool-cases, inl, inr, Option, none, some}
use feedium.Errors.{Err, Result, ok, err}
use feedium.Exec.{Exec, pure, lift, wrapping, ◌>>=◌}
use feedium.Exec.Ok.{bind_ok, wrapping_ok, ok_inj}
use feedium.Exec.Unchanged.{continue-unchanged, wrapped-snd}
use feedium.Text.{Text, is_blank}
use feedium.Tx.Atomic.{Atomic, nothing, all, from_err}
use feedium.Scoring.Relevance.{Floats, Vector}
use feedium.Interest.{
  Interest, InterestPorts, validate_interest_topic, passed, rescore_posts, rescore_digests,
  rescored, new_interest, save_new, create, save_changed, embed_changed, update, delete,
}

module _ {floats : Floats} {S D : Type 0} (ports : InterestPorts floats S) (db : S → D) where
  -- `db` is what the transaction holds. What only reads, and the provider, leave it as it is, and a
  -- transaction is atomic.
  pub record Contract : Type 1 where
    pub get : (id : String) (s : S) → db (ports.get id s).1 ≡ db s
    pub embed : (topic : Text) (s : S) → db (ports.embed topic s).1 ≡ db s
    pub now : (s : S) → db (ports.now s).1 ≡ db s
    pub new_id : (s : S) → db (ports.new_id s).1 ≡ db s
    pub atomic : {A : Type 0} (m : Exec S A) (s : S) → Atomic db m s (ports.in_tx m s)

  -- Both passes have run without an error, from the change on.
  pub record Requeued (before after : S) : Type 0 where
    pub posts : ℕ
    pub between : S
    pub posts_queued : ports.enqueue_scored_posts before ≡ ((posts, none), between)
    pub digests : ℕ
    pub digests_queued : ports.enqueue_scored_digests between ≡ ((digests, none), after)

  passed_ok :
      (what : String) (r : (ℕ × Option Err) × S) (u : Unit {0}) (s' : S)
      → passed ports what r ≡ (ok u, s')
      → (n : ℕ) × (r ≡ ((n, none), s'))
  passed_ok what ((n, none), s) u s' h = (n, ap (λ t. ((n, none), t)) (ap (λ p. p.1) h))
  passed_ok what ((n, some e), s) u s' h = cc

  rescored-Requeued :
      {A : Type 0} (a b : A) (s s' : S) → rescored ports a s ≡ (ok b, s') → Requeued s s' × (a ≡ b)
  rescored-Requeued a b s s' h =
      let t = bind_ok (rescore_posts ports) (λ _. rescore_digests ports >>= λ _. pure a) h in
      let u = bind_ok (rescore_digests ports) (λ _. pure a) t.rest in
      let (n, posts) = passed_ok "enqueue rescore" _ t.value t.state t.first in
      let (m, digests) = passed_ok "enqueue digest rescore" _ u.value u.state u.first in
      (
        record {
          posts = n;
          between = t.state;
          posts_queued = posts;
          digests = m;
          digests_queued = digests ∙ ap (λ x. ((m, none), x)) (ap (λ p. p.1) u.rest);
        },
        ok_inj (ap (λ p. p.0) u.rest),
      )

  not_blank :
      (topic : Text) (u : Unit {0}) → validate_interest_topic topic ≡ ok u → is_blank topic ≡ false
  unfolding validate_interest_topic
  not_blank topic u h = elim (Bool-cases (is_blank topic)) [
    | inl blank ↦ let no = rw blank at h in cc
    | inr e ↦ e
  ]

  module _ (c : Contract) where
    tx-unchanged :
        {A : Type 0} (m : Exec S A) (s : S) (e : Err)
        → (ports.in_tx m s).0 ≡ err e
        → db (ports.in_tx m s).1 ≡ db s
    tx-unchanged m s e h = from_err db m s e (ports.in_tx m s) (c.atomic m s) h

    embedded :
        {A : Type 0} (topic : Text) (k : Vector floats → Exec S A) (s : S) (e : Err)
        → ((v : Vector floats) (s : S) → (k v s).0 ≡ err e → db (k v s).1 ≡ db s)
        → ((wrapping "embed topic" (ports.embed topic) >>= k) s).0 ≡ err e
        → db ((wrapping "embed topic" (ports.embed topic) >>= k) s).1 ≡ db s
    embedded topic k s e f h =
        continue-unchanged db (wrapping "embed topic" (ports.embed topic) s) k e f h
        ∙ ap db (wrapped-snd "embed topic" (ports.embed topic s))
        ∙ c.embed topic s

    create-unchanged :
        (topic : Text) (s : S) (e : Err)
        → (create ports topic s).0 ≡ err e
        → db (create ports topic s).1 ≡ db s
    unfolding create
    create-unchanged topic s e h =
        continue-unchanged db (lift (validate_interest_topic topic) s)
          (λ _. wrapping "embed topic" (ports.embed topic) >>= save_new ports topic) e
          (λ _ s1.
            embedded topic (save_new ports topic) s1 e
              (λ v s2 h2. tx-unchanged _ _ e h2 ∙ c.new_id (ports.now s2).1 ∙ c.now s2))
          h

    update-unchanged :
        (id : String) (topic : Text) (s : S) (e : Err)
        → (update ports id topic s).0 ≡ err e
        → db (update ports id topic s).1 ≡ db s
    unfolding update
    update-unchanged id topic s e h =
        continue-unchanged db (lift (validate_interest_topic topic) s)
          (λ _. ports.get id >>= embed_changed ports topic) e
          (λ _ s1 h1.
            continue-unchanged db (ports.get id s1) (embed_changed ports topic) e
              (λ existing s2.
                embedded topic (save_changed ports existing topic) s2 e
                  (λ v s3 h3. tx-unchanged _ _ e h3 ∙ c.now s3))
              h1
            ∙ c.get id s1)
          h

    -- Where Create, Update or Delete of an interest answers an error, over ports that keep the
    -- contract, the database that the transaction holds is as it was: no part of the re-scoring is
    -- left.
    pub changes-unchanged :
        (id : String) (topic : Text) (s : S) (e : Err)
        → ((create ports topic s).0 ≡ err e → db (create ports topic s).1 ≡ db s)
          × ((update ports id topic s).0 ≡ err e → db (update ports id topic s).1 ≡ db s)
          × ((delete ports id s).0 ≡ err e → db (delete ports id s).1 ≡ db s)
    unfolding delete
    changes-unchanged id topic s e = (
      create-unchanged topic s e,
      update-unchanged id topic s e,
      tx-unchanged (ports.delete id >>= rescored ports) s e,
    )

    -- A transaction that has answered a value has run.
    ran :
        {A : Type 0} (m : Exec S A) (s s' : S) (a : A) (r : Result A × S)
        → Atomic db m s r
        → r ≡ (ok a, s')
        → m s ≡ (ok a, s')
    ran m s s' a r (nothing e t same) h = cc
    ran m s s' a r (all b t e) h = e ∙ h

    -- A change of interests that has been made, from the vector of its topic, and the re-scoring of
    -- all scored posts and digests after it.
    pub record Created (topic : Text) (saved : Interest floats) (after : S) : Type 0 where
      pub vector : Vector floats
      pub asked : S
      pub answered : S
      pub embedded_by : ports.embed topic asked ≡ (ok vector, answered)
      pub interest : Interest floats
      pub fields :
          (interest.topic ≡ topic) × (interest.embedding ≡ vector) × (interest.model ≡ ports.model)
      pub before : S
      pub stored : S
      pub stored_by : ports.save interest before ≡ (ok saved, stored)
      pub requeued : Requeued stored after

    stored_interest :
        (topic : Text) (vector : Vector floats) (asked answered s s' : S) (now : ℕ) (id : String)
        (saved : Interest floats)
        → ports.embed topic asked ≡ (ok vector, answered)
        → (ports.save (new_interest ports topic vector now id) >>= rescored ports) s
          ≡ (ok saved, s')
        → Created topic saved s'
    stored_interest topic vector asked answered s s' now id saved e h =
        let t = bind_ok (ports.save (new_interest ports topic vector now id)) (rescored ports) h in
        let (requeued, same) = rescored-Requeued t.value saved t.state s' t.rest in
        record {
          vector = vector;
          asked = asked;
          answered = answered;
          embedded_by = e;
          interest = new_interest ports topic vector now id;
          fields = (refl, refl, refl);
          before = s;
          stored = t.state;
          stored_by = t.first ∙ ap (λ x. (ok x, t.state)) same;
          requeued = requeued;
        }

    save_new-Created :
        (topic : Text) (vector : Vector floats) (asked answered s s' : S) (saved : Interest floats)
        → ports.embed topic asked ≡ (ok vector, answered)
        → save_new ports topic vector s ≡ (ok saved, s')
        → Created topic saved s'
    save_new-Created topic vector asked answered s s' saved e h =
        let m =
          ports.save
            (new_interest ports topic vector (ports.now s).0 (ports.new_id (ports.now s).1).0)
          >>= rescored ports in
        let s2 = (ports.new_id (ports.now s).1).1 in
        stored_interest topic vector asked answered s2 s' _ _ saved e
          (ran m s2 s' saved (ports.in_tx m s2) (c.atomic m s2) h)

    -- Over ports that keep their contract: where Create answers an interest, the topic is not blank,
    -- Save has answered this interest for the topic, its vector and the current model, and after it
    -- the pass over scored posts and the pass over scored digests have answered without an error.
    pub create-Rescored :
        (topic : Text) (s s' : S) (saved : Interest floats)
        → create ports topic s ≡ (ok saved, s')
        → (is_blank topic ≡ false) × Created topic saved s'
    unfolding create validate_interest_topic
    create-Rescored topic s s' saved h =
        let v =
          bind_ok (lift (validate_interest_topic topic))
            (λ _. wrapping "embed topic" (ports.embed topic) >>= save_new ports topic) h in
        let w =
          bind_ok (wrapping "embed topic" (ports.embed topic)) (save_new ports topic) v.rest in
        (
          not_blank topic v.value (ap (λ p. p.0) v.first),
          save_new-Created topic w.value v.state w.state w.state s' saved
              (wrapping_ok "embed topic" (ports.embed topic) w.first) w.rest,
        )
