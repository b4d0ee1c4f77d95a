-- ===== src/Summary/Window/Pages.antt =====
-- The loop over the pages of a window (collectWindowPosts of internal/biz/summary_usecase.go).
use feedium.Prelude.{
  ℕ, zero, suc, ◌+◌, ◌≤◌, ◌≡◌, refl, String, true, false, ◌||◌, Option, some, List, [], ◌∷◌, ◌++◌,
  arith, length, ltb, str_eq, Bool-cases, inl, inr, if◌then◌else◌,
}
use feedium.Errors.{Result, ok}
use feedium.Exec.{Exec}
use feedium.Text.{Text}
use feedium.Summary.Ports.{Ports}
use feedium.Post.{Post, ListPostsResult}
use feedium.Summary.Window.{
  piece, Collected, started, add_page, window_filter, collect, collect_window_posts,
}
use feedium.Summary.Window.Fit.{Digest, window_text, window_text-Digest, Digest-length}

module _ {S : Type 0} (list : String → Exec S ListPostsResult) where
  -- `n` pages, each asked for with the token of the one before, end with an empty token and hold
  -- these posts.
  pub data Pages : ℕ → String → S → List Post → Type 0 where
    last :
        (token : String) (page : ListPostsResult) (s s' : S)
        → list token s ≡ (ok page, s')
        → str_eq page.next_page_token "" ≡ true
        → Pages 1 token s page.items
    more :
        (n : ℕ) (token : String) (page : ListPostsResult) (posts : List Post) (s s' : S)
        → list token s ≡ (ok page, s')
        → str_eq page.next_page_token "" ≡ false
        → Pages n page.next_page_token s' posts
        → Pages (suc n) token s (page.items ++ posts)

add_page-stop :
    (m : ℕ) (xs ys : List Post) (c : Collected)
    → c.stop ≡ false
    → (add_page m xs c).stop ≡ true
    → add_page m (xs ++ ys) c ≡ add_page m xs c
unfolding add_page
add_page-stop m [] ys c h e = cc
add_page-stop m (x ∷ xs) ys c h e = elim (Bool-cases (ltb m (c.total + length (piece x)))) [
  | inl over ↦ rw over refl
  | inr fits ↦ rw fits (add_page-stop m xs ys _ refl (rw fits at e))
]

add_page-append :
    (m : ℕ) (xs ys : List Post) (c : Collected)
    → (add_page m xs c).stop ≡ false
    → add_page m (xs ++ ys) c ≡ add_page m ys (add_page m xs c)
unfolding add_page
add_page-append m [] ys c e = refl
add_page-append m (x ∷ xs) ys c e = elim (Bool-cases (ltb m (c.total + length (piece x)))) [
  | inl over ↦ let e' : true ≡ false = rw over at e in cc
  | inr fits ↦ rw fits (add_page-append m xs ys _ (rw fits at e))
]

done :
    {S : Type 0} (c : Collected) (s : S) (o : Option (Result Collected × S))
    → (if c.stop || true then some (ok c, s) else o) ≡ some (ok c, s)
done c s o = ground arith

module _ {S : Type 0} (list : String → Exec S ListPostsResult) (m : ℕ) where
  -- With fuel for the pages, the loop collects what one pass over the posts collects.
  collect-Pages :
      (n fuel : ℕ) (token : String) (s : S) (posts : List Post) (c : Collected)
      → Pages list n token s posts
      → n ≤ fuel
      → c.stop ≡ false
      → (s' : S) × (collect list m fuel token c s ≡ some (ok (add_page m posts c), s'))
  unfolding collect
  collect-Pages _ zero _ _ _ c (last token page s s' e tk) h st = absurd (omega arith)
  collect-Pages _ zero _ _ _ c (more n token page rest s s' e tk p) h st = absurd (omega arith)
  collect-Pages _ (suc fuel) _ _ _ c (last token page s s' e tk) h st =
      (s', rw (e, tk) (done (add_page m page.items c) s' _))
  collect-Pages _ (suc fuel) _ _ _ c (more n token page rest s s' e tk p) h st =
      elim (Bool-cases (add_page m page.items c).stop) [
        | inl stop ↦ (s', rw (e, tk, stop, add_page-stop m page.items rest c st stop) refl)
        | inr go ↦
            let (s'', r) =
              collect-Pages n fuel page.next_page_token s' rest (add_page m page.items c) p
                (omega arith) go in
            (s'', rw (e, tk, go, add_page-append m page.items rest c go) r)
      ]

-- A window whose posts are listed in `n` pages, read with fuel for `n` pages or more, yields a
-- text: no text where there are no posts; else the newest posts that fit in `max_chars` bytes,
-- as many as fit, oldest first and each with its separator; or, where not even the newest fits,
-- that post's text cut on a rune's boundary. It has at most `max_chars` bytes.
pub collect_window_posts-Digest :
    {S : Type 0} (ports : Ports S) (source_id : String) (start end m n fuel : ℕ) (s : S)
    (posts : List Post)
    → Pages (λ token. ports.list_posts (window_filter source_id start end token)) n "" s posts
    → n ≤ fuel
    → (text : Text) × (s' : S) × (collect_window_posts ports fuel source_id start end m s
        ≡ some (ok text, s'))
      × Digest m posts text
      × (length text ≤ m)
unfolding collect_window_posts
collect_window_posts-Digest ports source_id start end m n fuel s posts p h =
    let (s', e) = collect-Pages _ m n fuel "" s posts started p h refl in
    let d = window_text-Digest m posts in
    (window_text m posts, s', rw e refl, d, Digest-length m posts _ d)
