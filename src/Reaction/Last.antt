-- ===== src/Reaction/Last.antt =====
-- Calls of ReactionUsecase.React (internal/biz/reaction.go), one after the other, and the signal that is
-- stored for a post after them.
use mathlib.Core.Option
use feedium.Prelude.{
  ℕ, String, Bool, true, false, ◌&&◌, ◌==◌, ==_iff, ◌≡◌, refl, sym, ap, ◌∙◌, Option, none, some,
  List, [], ◌∷◌, any, arith, Bool-cases, inl, inr, if◌then◌else◌,
}
use feedium.Errors.{Err, sentinel, opaque, wrap, invalid_signal, ok, err}
use feedium.Outbox.Repo.{with_parsed}
use feedium.Uuid.{UuidCodec}
use feedium.Outbox.Event.{is_some_eq}
use feedium.Outbox.Table.{find}
use feedium.Outbox.Table.Upsert.{changed_or, find-upsert, find-upsert_other}
use feedium.Outbox.Table.Counts.{All-intro}
use feedium.Reaction.{
  ReactionRow, for_post, new_reaction, set_signal, put_reaction, is_signal, upsert_reaction, react,
}

-- A call, with what the driver, the clock and gen_random_uuid() answer and the ids of the posts.
pub record ReactCall : Type 0 where
  pub fault : Option Err
  pub now : ℕ
  pub id : ℕ
  pub posts : List ℕ
  pub post_id : String
  pub signal : String

abbrev pub signal_at : ℕ → List ReactionRow → Option String
signal_at p t = Option.map (λ r. r.signal) (find (for_post p) t)

abbrev quiet : Option Err → Bool
quiet none = true
quiet (some e) = false

signal_of-changed :
    (now id p : ℕ) (signal : String) (o : Option ReactionRow)
    → (changed_or (set_signal now signal) (new_reaction now id p signal) o).signal ≡ signal
signal_of-changed now id p signal none = refl
signal_of-changed now id p signal (some r) = refl

skipped : {A : Type 0} (a b : A) (c : Bool) → (if c && false then a else b) ≡ b
skipped a b true = refl
skipped a b false = refl

skipped_by : {A : Type 0} (a b : A) (c d : Bool) → (if c && d && false then a else b) ≡ b
skipped_by a b true d = skipped a b d
skipped_by a b false d = refl

module _ (codec : UuidCodec) where
  abbrev pub accepted : ℕ → ReactCall → Bool
  accepted p c =
      is_signal c.signal
      && quiet c.fault
      && any (λ q. q == p) c.posts
      && is_some_eq (codec.parse c.post_id) p

  -- The last write wins: the signal of the last call that is accepted for the post.
  unfoldable pub last_signal : ℕ → List ReactCall → Option String → Option String
  last_signal p [] o = o
  last_signal p (c ∷ cs) o = last_signal p cs (if accepted p c then some c.signal else o)

  abbrev pub after_react : ReactCall → List ReactionRow → List ReactionRow
  after_react c t = (react codec c.fault c.now c.id c.posts c.post_id c.signal t).1

  unfoldable pub run_reactions : List ReactCall → List ReactionRow → List ReactionRow
  run_reactions [] t = t
  run_reactions (c ∷ cs) t = run_reactions cs (after_react c t)

  apart :
      (p q : ℕ) (r : ReactionRow) → (q == p) ≡ false → for_post q r ≡ true → for_post p r ≡ false
  apart p q r e h = ground arith

  put-signal :
      (fault : Option Err) (now id : ℕ) (posts : List ℕ) (signal : String) (p q : ℕ)
      (t : List ReactionRow)
      → signal_at p (put_reaction fault now id posts signal q t).1
        ≡ (if quiet fault && any (λ k. k == p) posts && q == p then some signal else signal_at p t)
  put-signal (some e) now id posts signal p q t = refl
  put-signal none now id posts signal p q t = elim (Bool-cases (q == p)) [
    | inl e ↦
        let same : q ≡ p = (==_iff q p).0 e in
        rw same (elim (Bool-cases (any (λ k. k == p) posts)) [
          | inl there ↦
              rw (there, (==_iff p p).1 refl)
                (ap (Option.map (λ r. r.signal)) (
                    find-upsert (for_post p) (set_signal now signal) (new_reaction now id p signal)
                      t (λ r h. h) ((==_iff p p).1 refl))
                  ∙ ap some (signal_of-changed now id p signal (find (for_post p) t)))
          | inr absent ↦ rw absent refl
        ])
    | inr e ↦ elim (Bool-cases (any (λ k. k == q) posts)) [
      | inl there ↦
          rw (there, e)
            (ap (Option.map (λ r. r.signal)) (
                find-upsert_other (for_post p) (for_post q) (set_signal now signal)
                  (new_reaction now id q signal) t
                  (All-intro _ t (λ r h. (apart p q r e h, apart p q r e h))) e)
              ∙ sym (skipped _ _ _))
      | inr absent ↦ rw (absent, e) (sym (skipped _ _ _))
    ]
  ]

  step-signal :
      (p : ℕ) (c : ReactCall) (t : List ReactionRow) (b : Bool) (o : Option ℕ)
      → signal_at p
          (if b
            then with_parsed
                (elim o [
                  | none ↦ err (wrap "invalid post id" (opaque "invalid UUID"))
                  | some u ↦ ok u
                ])
                (λ q. put_reaction c.fault c.now c.id c.posts c.signal q t)
                t
            else (err (sentinel invalid_signal), t)).1
        ≡ (if b && quiet c.fault && any (λ q. q == p) c.posts && is_some_eq o p
            then some c.signal
            else signal_at p t)
  step-signal p c t true (some q) = put-signal c.fault c.now c.id c.posts c.signal p q t
  step-signal p c t true none = sym (skipped_by _ _ (quiet c.fault) _)
  step-signal p c t false o = refl

  react-signal :
      (p : ℕ) (c : ReactCall) (t : List ReactionRow)
      → signal_at p (after_react c t) ≡ (if accepted p c then some c.signal else signal_at p t)
  unfolding react upsert_reaction
  react-signal p c t = step-signal p c t (is_signal c.signal) (codec.parse c.post_id)

  -- After any calls of React, the signal that is stored for a post is that of the last call that was
  -- accepted for it, or what was stored before.
  pub signal-run :
      (p : ℕ) (cs : List ReactCall) (t : List ReactionRow)
      → signal_at p (run_reactions cs t) ≡ last_signal p cs (signal_at p t)
  unfolding run_reactions last_signal
  signal-run p [] t = refl
  signal-run p (c ∷ cs) t =
      signal-run p cs (after_react c t) ∙ ap (last_signal p cs) (react-signal p c t)
