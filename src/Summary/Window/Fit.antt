-- ===== src/Summary/Window/Fit.antt =====
-- Which posts of a window are kept (collectWindowPosts of internal/biz/summary_usecase.go).
use feedium.Prelude.{
  ℕ, zero, suc, ◌+◌, ◌≤◌, ◌<◌, ◌≡◌, refl, inl, inr, true, false, List, [], ◌∷◌, ◌++◌, map, arith,
  ltb, length, take, length-append, Bool-cases,
}
use feedium.Text.{Text, truncate_utf8}
use feedium.Text.Truncate.{length-truncate_utf8}
use feedium.Post.{Post}
use feedium.Summary.Window.{piece, started, add_page, oldest_first}

-- The bytes of posts with their separators.
abbrev pub size : List Post → ℕ
size [] = 0
size (p ∷ ps) = length (piece p) + size ps

-- `k` newest posts fit on top of `total` bytes, and no more do.
pub record Fits (max_chars total : ℕ) (posts : List Post) (k : ℕ) : Type 0 where
  pub present : k ≤ length posts
  pub fit : total + size (take k posts) ≤ max_chars
  pub last : k < length posts → max_chars < total + size (take (suc k) posts)

take-zero : (p : Post) (ps : List Post) → size (take (suc zero) (p ∷ ps)) ≡ length (piece p)
take-zero p [] = omega arith
take-zero p (q ∷ ps) = omega arith

append_nil : (ts : List Text) → ts ++ [] ≡ ts
append_nil [] = refl
append_nil (t ∷ ts) = rw (append_nil ts)

append_one : (ts : List Text) (x : Text) (us : List Text) → (ts ++ x ∷ []) ++ us ≡ ts ++ x ∷ us
append_one [] x us = refl
append_one (t ∷ ts) x us = rw (append_one ts x us)

Fits-suc :
    (max_chars total k : ℕ) (p : Post) (ps : List Post)
    → Fits max_chars (total + length (piece p)) ps k
    → Fits max_chars total (p ∷ ps) (suc k)
Fits-suc max_chars total k p ps f = record {
  present = omega (arith, f.present);
  fit = omega (arith, f.fit);
  last = λ h. omega (arith, f.last (omega arith));
}

Fits-zero :
    (max_chars total : ℕ) (p : Post) (ps : List Post)
    → total ≤ max_chars
    → ltb max_chars (total + length (piece p)) ≡ true
    → Fits max_chars total (p ∷ ps) zero
Fits-zero max_chars total p ps h over = record {
  present = omega arith;
  fit = omega arith;
  last = λ _. ground (arith, take-zero p ps);
}

-- With a post collected, the rest of the page is collected as long as it fits.
add_page-Fits :
    (max_chars total : ℕ) (posts : List Post) (t : Text) (ts : List Text)
    → total ≤ max_chars
    → (k : ℕ) × Fits max_chars total posts k
      × ((add_page max_chars posts
            (record { newest_first = t ∷ ts; total = total; stop = false })).newest_first
          ≡ t ∷ (ts ++ map piece (take k posts)))
unfolding add_page
add_page-Fits max_chars total [] t ts h = (
  zero,
  record { present = omega arith; fit = omega arith; last = λ b. omega (arith, b) },
  rw (append_nil ts),
)
add_page-Fits max_chars total (p ∷ ps) t ts h =
    elim (Bool-cases (ltb max_chars (total + length (piece p)))) [
      | inl over ↦ rw over (zero, Fits-zero max_chars total p ps h over, rw (append_nil ts))
      | inr fits ↦
          let (k, f, e) =
            add_page-Fits max_chars (total + length (piece p)) ps t (ts ++ piece p ∷ [])
              (ground arith) in
          rw fits (
            suc k,
            Fits-suc max_chars total k p ps f,
            rw (e, append_one ts (piece p) (map piece (take k ps))),
          )
    ]

-- What the text of a window holds, by its posts from the newest to the oldest.
pub data Digest (max_chars : ℕ) : List Post → Text → Type 0 where
  nothing : Digest max_chars [] []
  cut :
      (p : Post) (ps : List Post)
      → max_chars < length (piece p)
      → Digest max_chars (p ∷ ps) (truncate_utf8 p.text max_chars)
  newest :
      (posts : List Post) (k : ℕ)
      → 0 < k
      → Fits max_chars 0 posts k
      → Digest max_chars posts (oldest_first (map piece (take k posts)))

-- The text that one pass over all posts of the window builds.
abbrev pub window_text : ℕ → List Post → Text
window_text max_chars posts = oldest_first (add_page max_chars posts started).newest_first

pub window_text-Digest :
    (max_chars : ℕ) (posts : List Post) → Digest max_chars posts (window_text max_chars posts)
unfolding add_page
window_text-Digest max_chars [] = nothing
window_text-Digest max_chars (p ∷ ps) = elim (Bool-cases (ltb max_chars (0 + length (piece p)))) [
  | inl over ↦ rw over (cut p ps (ground arith))
  | inr fits ↦
      let (k, f, e) =
        add_page-Fits max_chars (0 + length (piece p)) ps (piece p) [] (ground arith) in
      rw (fits, e) (newest (p ∷ ps) (suc k) (omega arith) (Fits-suc max_chars 0 k p ps f))
]

length-oldest_first : (ps : List Post) → length (oldest_first (map piece ps)) ≡ size ps
length-oldest_first [] = refl
length-oldest_first (p ∷ ps) =
    rw (length-append (oldest_first (map piece ps)) (piece p), length-oldest_first ps) (omega arith)

-- A digest is no longer than the limit.
pub Digest-length :
    (max_chars : ℕ) (posts : List Post) (t : Text) → Digest max_chars posts t → length t ≤ max_chars
Digest-length max_chars posts t nothing = omega arith
Digest-length max_chars posts t (cut p ps over) = length-truncate_utf8 p.text max_chars
Digest-length max_chars posts t (newest _ k h f) =
    rw (length-oldest_first (take k posts)) (let b = f.fit in omega arith)
