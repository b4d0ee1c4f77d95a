-- ===== src/Pages.antt =====
-- Keyset pagination, as the repositories of internal/data do it: rows in the order of a time and their
-- id, the rows after a cursor, a page of them with one row more to see whether another page follows,
-- and page tokens (internal/data/page_token.go).
pub mod Suffix
pub mod Order
pub mod Follow
use feedium.Prelude.{
  ℕ, zero, suc, String, Bool, true, false, ◌&&◌, ◌||◌, ◌==◌, ◌≡◌, ◌⊎◌, Option, none, some, List, [],
  ◌∷◌, ltb, length, take, select, str_eq, if◌then◌else◌, All,
}
use feedium.Errors.{Err, Result, ok, err}

-- An order of rows: `lt a b` says that `a` is listed before `b`.
module _ {R : Type 0} (lt : R → R → Bool) where
  abbrev insert : R → List R → List R
  insert x [] = x ∷ []
  insert x (y ∷ ys) = let rest = insert x ys in if lt x y then x ∷ y ∷ ys else y ∷ rest

  -- ORDER BY the keys of the order.
  unfoldable pub sort : List R → List R
  sort [] = []
  sort (x ∷ xs) = insert x (sort xs)

  -- Each row is listed before all rows that follow it.
  abbrev pub IsSorted : List R → Type 0
  IsSorted [] = Unit
  IsSorted (x ∷ xs) = All (λ y. lt x y ≡ true) xs × IsSorted xs

  -- Two rows of which one is listed before the other.
  abbrev pub Apart : R → R → Type 0
  Apart a b = (lt a b ≡ true) ⊎ (lt b a ≡ true)

  abbrev pub IsApart : List R → Type 0
  IsApart [] = Unit
  IsApart (x ∷ xs) = All (Apart x) xs × IsApart xs

abbrev pub last_of : {R : Type 0} → List R → Option R
last_of [] = none
last_of (x ∷ []) = some x
last_of (x ∷ y ∷ ys) = last_of (y ∷ ys)

-- encodePageToken and decodePageToken: a token is never empty, and it decodes to what it was made
-- from.
pub record TokenCodec : Type 0 where
  pub encode_page_token : ℕ → ℕ → String
  pub decode_page_token : String → Option (ℕ × ℕ)
  pub decode-encode : (v i : ℕ) → decode_page_token (encode_page_token v i) ≡ some (v, i)
  pub encode-filled : (v i : ℕ) → str_eq (encode_page_token v i) "" ≡ false

-- The cursor conditions, on a time and an id: (v, i) is before the row.
abbrev pub key_before : Bool → ℕ → ℕ → ℕ → ℕ → Bool
key_before true v i w j = ltb w v || (w == v && ltb j i)
key_before false v i w j = ltb v w || (v == w && ltb i j)

-- The cursor of a request, with the error of the repository for a token that does not decode.
abbrev pub parse_page_token : TokenCodec → Err → String → Result (Option (ℕ × ℕ))
parse_page_token tokens invalid token =
    if str_eq token "" then ok none else decoded invalid (tokens.decode_page_token token)
  where
    decoded : Err → Option (ℕ × ℕ) → Result (Option (ℕ × ℕ))
    decoded invalid none = err invalid
    decoded invalid (some k) = ok (some k)

-- Rows by their time and id.
module _ {R : Type 0} (value id : R → ℕ) (desc : Bool) where
  abbrev pub after_key : ℕ → ℕ → R → Bool
  after_key v i r = key_before desc v i (value r) (id r)

  abbrev pub listed_before : R → R → Bool
  listed_before a b = after_key (value a) (id a) b

  -- The query, from the rows that match: the cursor, the order and the limit.
  abbrev pub fetch : Option (ℕ × ℕ) → ℕ → List R → List R
  fetch none limit rows = take limit (sort listed_before rows)
  fetch (some (v, i)) limit rows = take limit (sort listed_before (select (after_key v i) rows))

module _ {R : Type 0} (value id : R → ℕ) (tokens : TokenCodec) where
  abbrev token_of : Option R → String
  token_of none = ""
  token_of (some r) = tokens.encode_page_token (value r) (id r)

  -- The token of the last row of the page, where more rows were fetched than the page holds.
  abbrev pub next_token : ℕ → List R → String
  next_token page_size rows =
      if ltb page_size (length rows) then token_of (last_of (take page_size rows)) else ""
