-- ===== src/Scoring/Enqueue/Insert.antt =====
-- The loop over the candidates of a pass (internal/data/score_outbox_repo.go), where the driver fails at
-- nothing.
use feedium.Prelude.{
  ℕ, suc, ◌+◌, ◌≤◌, ◌≡◌, refl, sym, ap, ◌∙◌, Bool, true, false, none, List, [], ◌∷◌, ◌++◌, arith,
  any, length, ◌==◌, All, Bool-cases, inl, inr, String,
}
use feedium.Errors.{Result, ok}
use feedium.Scoring.Outbox.Event.{ScoreRow}
use feedium.Scoring.Outbox.Repo.{insert_unless}
use feedium.Scoring.Enqueue.Lists.{IsDistinct}
use feedium.Scoring.Enqueue.{Pass, Enqueued, candidates, queried, referencing, insert_all}

-- The driver fails at nothing.
pub record Quiet (pass : Pass) : Type 0 where
  pub query : pass.query_fault ≡ none
  pub rows : pass.rows_fault ≡ none
  pub insert : (k : ℕ) → pass.insert_fault k ≡ none
  pub affected : (k : ℕ) → pass.affected_fault k ≡ none

-- The ids that uuid.NewV7 gives are new to the table, and different from one another.
pub record Fresh (pass : Pass) (t : List ScoreRow) : Type 0 where
  pub unused : (k : ℕ) → any (λ r. r.id == pass.new_id k) t ≡ false
  pub apart : (j k : ℕ) → (pass.new_id j == pass.new_id k) ≡ true → j ≡ k

pub append_assoc {ℓ} : {A : Type ℓ} (xs ys zs : List A) → (xs ++ ys) ++ zs ≡ xs ++ (ys ++ zs)
append_assoc [] ys zs = refl
append_assoc (x ∷ xs) ys zs = rw (append_assoc xs ys zs) refl

pub append_nil {ℓ} : {A : Type ℓ} (xs : List A) → xs ++ [] ≡ xs
append_nil [] = refl
append_nil (x ∷ xs) = rw (append_nil xs) refl

pub any-snoc :
    (p : ScoreRow → Bool) (t : List ScoreRow) (n : ScoreRow)
    → any p t ≡ false
    → p n ≡ false
    → any p (t ++ n ∷ []) ≡ false
any-snoc p [] n h e = rw e refl
any-snoc p (r ∷ rs) n h e = ground (arith, any-snoc p rs n)

same_out :
    (m n : ℕ) (t u : List ScoreRow) → m ≡ n → t ≡ u → Path Enqueued ((m, none), t) ((n, none), u)
same_out m n t u e f = ap (λ x. ((x, none), t)) e ∙ ap (λ x. ((n, none), x)) f

-- The rows that a pass adds, from the k-th insert on.
abbrev pub rows : (ℕ → ℕ → ℕ → ScoreRow) → Pass → ℕ → List ℕ → List ScoreRow
rows make pass k [] = []
rows make pass k (p ∷ ps) = make (pass.new_id k) (pass.now k) p ∷ rows make pass (suc k) ps

-- The insert of an event, with its test for an active event and its foreign key.
abbrev pub put :
    (ℕ → ScoreRow → Bool)
    → (ℕ → ℕ → ℕ → ScoreRow)
    → (ℕ → Bool)
    → Pass
    → ℕ
    → ℕ
    → List ScoreRow
    → Result ℕ × List ScoreRow
put active make exists pass k p t =
    referencing (exists p) t (
      insert_unless (any (active p) t) (pass.insert_fault k) (make (pass.new_id k) (pass.now k) p)
        t)

-- The events of posts, or those of digests: the test for an active event of an entity, and the row
-- that is inserted for it.
module _ (active : ℕ → ScoreRow → Bool) (make : ℕ → ℕ → ℕ → ScoreRow)
    (active-make : (q id now p : ℕ) → active q (make id now p) ≡ (p == q))
    (id-make : (id now p : ℕ) → (make id now p).id ≡ id) (exists : ℕ → Bool) (pass : Pass) where
  put_one :
      (k p : ℕ) (t : List ScoreRow)
      → pass.insert_fault k ≡ none
      → exists p ≡ true
      → any (active p) t ≡ false
      → any (λ r. r.id == pass.new_id k) t ≡ false
      → put active make exists pass k p t ≡ (ok 1, t ++ make (pass.new_id k) (pass.now k) p ∷ [])
  put_one k p t quiet there idle unused =
      rw (quiet, there, idle, id-make (pass.new_id k) (pass.now k) p, unused) refl

  still_idle :
      (k p : ℕ) (t : List ScoreRow) (ps : List ℕ)
      → All (λ q. any (active q) t ≡ false) ps
      → All (λ q. (q == p) ≡ false) ps
      → All (λ q. any (active q) (t ++ make (pass.new_id k) (pass.now k) p ∷ []) ≡ false) ps
  still_idle k p t [] a b = tt
  still_idle k p t (q ∷ qs) a b = (
    any-snoc (active q) t (make (pass.new_id k) (pass.now k) p) a.0
        (active-make q (pass.new_id k) (pass.now k) p ∙ other b.0),
    still_idle k p t qs a.1 b.1,
  )
    where
      other : (q == p) ≡ false → (p == q) ≡ false
      other h = ground arith

  -- Each candidate gets an event, in order, and all are counted.
  pub insert_all_lem :
      (insert affected : String) (ps : List ℕ) (k enqueued : ℕ) (t : List ScoreRow)
      → Quiet pass
      → ((i j : ℕ) → (pass.new_id i == pass.new_id j) ≡ true → i ≡ j)
      → ((j : ℕ) → k ≤ j → any (λ r. r.id == pass.new_id j) t ≡ false)
      → All (λ p. exists p ≡ true) ps
      → All (λ p. any (active p) t ≡ false) ps
      → IsDistinct ps
      → insert_all insert affected pass (put active make exists pass) ps k enqueued t
        ≡ ((enqueued + length ps, none), t ++ rows make pass k ps)
  unfolding insert_all
  insert_all_lem insert affected [] k enqueued t quiet apart unused there idle d =
      same_out enqueued (enqueued + 0) t (t ++ []) (omega arith) (sym (append_nil t))
  insert_all_lem insert affected (p ∷ ps) k enqueued t quiet apart unused there idle d =
      let n = make (pass.new_id k) (pass.now k) p in
      rw (put_one k p t (quiet.insert k) there.0 idle.0 (unused k (omega arith)), quiet.affected k)
        (insert_all_lem insert affected ps (suc k) (enqueued + 1) (t ++ n ∷ []) quiet apart
            (λ j later.
              any-snoc (λ r. r.id == pass.new_id j) t n (unused j (omega arith))
                (new_id j later (id-make (pass.new_id k) (pass.now k) p)))
            there.1 (still_idle k p t ps idle.1 d.0) d.1
          ∙ same_out (enqueued + 1 + length ps) (enqueued + suc (length ps)) _ _ (omega arith)
              (append_assoc t (n ∷ []) (rows make pass (suc k) ps)))
    where
      new_id : (j : ℕ) → suc k ≤ j → {i : ℕ} → i ≡ pass.new_id k → (i == pass.new_id j) ≡ false
      new_id j later e = elim (Bool-cases (pass.new_id k == pass.new_id j)) [
        | inl same ↦ let clash = apart k j same in absurd (omega arith)
        | inr ne ↦ rw e ne
      ]

candidates_ok :
    (query reading : String) (pass : Pass) (ps : List ℕ)
    → Quiet pass
    → candidates query reading pass (ok ps) ≡ ok ps
candidates_ok query reading pass ps quiet = ground (arith, quiet.query, quiet.rows)

-- A pass whose query succeeds is its loop.
pub queried_ok :
    (query reading : String) (pass : Pass) (ps : List ℕ) (loop : List ℕ → Enqueued)
    (t u : List ScoreRow)
    → Quiet pass
    → loop ps ≡ ((0 + length ps, none), u)
    → queried (candidates query reading pass (ok ps)) loop t ≡ ((length ps, none), u)
queried_ok query reading pass ps loop t u quiet e =
    ap (λ r. queried r loop t) (candidates_ok query reading pass ps quiet)
    ∙ e
    ∙ same_out (0 + length ps) (length ps) u u (omega arith) refl
