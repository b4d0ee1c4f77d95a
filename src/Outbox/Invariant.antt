-- ===== src/Outbox/Invariant.antt =====
-- Consistency of the table summary_events: unique keys, one active event per post and type and per
-- cumulative source, leases on the rows in processing, and which changes of a row respect it.
use native.Mathlib.Nat.{le_trans}
use feedium.Prelude.{
  ℕ, ◌≤◌, ◌≡◌, Bool, true, false, ◌&&◌, Option, none, some, List, [], ◌∷◌, ◌++◌, arith, ◌==◌, any,
  All, Bool-cases, inl, inr, and_split3, and_intro3, or_none, and_rest_false, ==_iff, All-append,
}
use feedium.Outbox.Table.{update_where, count}
use feedium.Outbox.Table.Counts.{
  count-update_where, count-append, count_zero, All-update_where, All-map,
}
use feedium.Outbox.Event.{
  SummaryEventType, summarize_source, Row, is_type, is_type-eq, is_active, is_processing,
  is_terminal, is_some_eq, is_some_eq-eq,
}
use feedium.Outbox.Statements.{has_active_post, has_active_source, violates_post, violates_unique}

abbrev pub is_some {ℓ} : {A : Type ℓ} → Option A → Bool
is_some none = false
is_some (some a) = true

pub record IsLeased (r : Row) : Type 0 where
  pub until : is_some r.locked_until ≡ is_processing r.status
  pub by : is_some r.locked_by ≡ is_processing r.status
  pub done : is_some r.processed_at ≡ is_terminal r.status

pub record IsConsistent (t : List Row) : Type 0 where
  pub ids : (i : ℕ) → count (λ r. r.id == i) t ≤ 1
  pub posts : (post : ℕ) (e : SummaryEventType) → count (has_active_post post e) t ≤ 1
  pub sources : (source : ℕ) → count (has_active_source source) t ≤ 1
  pub leases : All IsLeased t

-- A change of a row that no unique index can object to.
pub record Mild (r s : Row) : Type 0 where
  pub same_id : s.id ≡ r.id
  pub same_post : s.post_id ≡ r.post_id
  pub same_source : s.source_id ≡ r.source_id
  pub same_type : s.event_type ≡ r.event_type
  pub was_active : is_active s.status ≡ true → is_active r.status ≡ true
  pub leased : IsLeased s

active_post_parts :
    (post : ℕ) (ty : SummaryEventType) (r : Row)
    → has_active_post post ty r ≡ true
    → (is_active r.status ≡ true)
      × (is_some_eq r.post_id post ≡ true)
      × (is_type r.event_type ty ≡ true)
unfolding has_active_post
active_post_parts post ty r h =
    and_split3 (is_active r.status) (is_some_eq r.post_id post) (is_type r.event_type ty) h

active_source_parts :
    (source : ℕ) (r : Row)
    → has_active_source source r ≡ true
    → (is_active r.status ≡ true)
      × (is_type r.event_type summarize_source ≡ true)
      × ((r.source_id == source) ≡ true)
unfolding has_active_source
active_source_parts source r h =
    and_split3 (is_active r.status) (is_type r.event_type summarize_source) (r.source_id == source)
      h

module _ {r s : Row} (m : Mild r s) where
  post_key-Mild :
      (post : ℕ) (ty : SummaryEventType)
      → has_active_post post ty s ≡ true
      → has_active_post post ty r ≡ true
  unfolding has_active_post
  post_key-Mild post ty h =
      let (active, same_post, same_type) = active_post_parts post ty s h in
      and_intro3 (m.was_active active) (rw (← m.same_post) same_post) (rw (← m.same_type) same_type)

  source_key-Mild :
      (source : ℕ) → has_active_source source s ≡ true → has_active_source source r ≡ true
  unfolding has_active_source
  source_key-Mild source h =
      let (active, same_type, same_source) = active_source_parts source s h in
      and_intro3 (m.was_active active) (rw (← m.same_type) same_type)
        (rw (← m.same_source) same_source)

-- An UPDATE whose changes are all mild keeps the table consistent.
pub update_where-IsConsistent :
    (p : Row → Bool) (f : Row → Row) (t : List Row)
    → All (λ r. p r ≡ true → Mild r (f r)) t
    → IsConsistent t
    → IsConsistent (update_where p f t)
update_where-IsConsistent p f t mild c = record {
  ids = λ i.
      le_trans
        (count-update_where (λ r. r.id == i) p f t
          (All-map _ _ t mild (λ r m e h. rw (← (m e).same_id) h)))
        (c.ids i);
  posts = λ post ty.
      le_trans
        (count-update_where (has_active_post post ty) p f t
          (All-map _ _ t mild (λ r m e h. post_key-Mild (m e) post ty h)))
        (c.posts post ty);
  sources = λ source.
      le_trans
        (count-update_where (has_active_source source) p f t
          (All-map _ _ t mild (λ r m e h. source_key-Mild (m e) source h)))
        (c.sources source);
  leases = All-update_where IsLeased p f t c.leases (All-map _ _ t mild (λ r m e. (m e).leased));
}

-- One more row keeps a key unique if no row has the key that the new row has.
count-insert :
    (q : Row → Bool) (t : List Row) (n : Row)
    → count q t ≤ 1
    → (q n ≡ true → any q t ≡ false)
    → count q (t ++ n ∷ []) ≤ 1
count-insert q t n c fresh = elim (Bool-cases (q n)) [
  | inl e ↦ rw (count-append q t (n ∷ []), e, count_zero q t (fresh e)) (omega arith)
  | inr e ↦ rw (count-append q t (n ∷ []), e) (omega arith)
]

module _ (n : Row) (t : List Row) (free : violates_unique n t ≡ false) where
  fresh_id : (i : ℕ) → (n.id == i) ≡ true → any (λ r. r.id == i) t ≡ false
  unfolding violates_unique
  fresh_id i e = rw (← (==_iff n.id i).0 e) (or_none (any (λ r. r.id == n.id) t) _ free).0

  fresh_keys :
      is_active n.status ≡ true
      → (violates_post n n.post_id t ≡ false)
        × ((is_type n.event_type summarize_source && any (has_active_source n.source_id) t) ≡ false)
  unfolding violates_unique
  fresh_keys active =
      or_none (violates_post n n.post_id t)
        (is_type n.event_type summarize_source && any (has_active_source n.source_id) t)
        (and_rest_false (is_active n.status) _ (or_none (any (λ r. r.id == n.id) t) _ free).1
          active)

  fresh_post :
      (post : ℕ) (ty : SummaryEventType)
      → has_active_post post ty n ≡ true
      → any (has_active_post post ty) t ≡ false
  fresh_post post ty h =
      let (active, same_post, same_type) = active_post_parts post ty n h in
      let kept : violates_post n (some post) t ≡ false =
        rw (is_some_eq-eq n.post_id post same_post) at ((fresh_keys active).0) in
      rw (is_type-eq n.event_type ty same_type) at kept

  fresh_source :
      (source : ℕ) → has_active_source source n ≡ true → any (has_active_source source) t ≡ false
  fresh_source source h =
      let (active, same_type, same_source) = active_source_parts source n h in
      rw (← (==_iff n.source_id source).0 same_source)
        (and_rest_false (is_type n.event_type summarize_source) _ (fresh_keys active).1 same_type)

-- An INSERT that no unique index refuses keeps the table consistent.
pub insert-IsConsistent :
    (n : Row) (t : List Row)
    → IsLeased n
    → violates_unique n t ≡ false
    → IsConsistent t
    → IsConsistent (t ++ n ∷ [])
insert-IsConsistent n t leased free c = record {
  ids = λ i. count-insert (λ r. r.id == i) t n (c.ids i) (fresh_id n t free i);
  posts = λ post ty.
      count-insert (has_active_post post ty) t n (c.posts post ty) (fresh_post n t free post ty);
  sources = λ source.
      count-insert (has_active_source source) t n (c.sources source) (fresh_source n t free source);
  leases = All-append IsLeased t (n ∷ []) c.leases (leased, tt);
}
