-- ===== src/Pages/Follow.antt =====
-- Following page tokens from the first page to the last, for a listing of a repository that answers
-- with the items of its rows and the token of the next page.
use feedium.Prelude.{
  ℕ, zero, suc, ◌≤◌, ◌<◌, ◌≡◌, refl, sym, ap, subst, ◌∙◌, inl, inr, String, Bool, true, false,
  Option, none, some, List, [], ◌∷◌, ◌++◌, map, arith, ltb, length, take, str_eq, Bool-cases,
  length-take, take_all, min, ltb→lt,
}
use feedium.Errors.{Err, Result, ok}
use feedium.Pages.{sort, TokenCodec, parse_page_token, listed_before, fetch, next_token}
use feedium.Pages.Order.{
  HasIds, sort-after, take-split, last_of-append, take-take, map-append, append_assoc, through,
}

-- Pages: each answer's token asks for the next one, and the last token is empty.
pub data Listed {P A : Type 0} (items : P → List A) (next : P → String) (answer : String → Result P)
    : ℕ → String → List A → Type 0 where
  last :
      (token : String) (page : P)
      → answer token ≡ ok page
      → str_eq (next page) "" ≡ true
      → Listed items next answer 1 token (items page)
  more :
      (n : ℕ) (token : String) (page : P) (later : List A)
      → answer token ≡ ok page
      → str_eq (next page) "" ≡ false
      → Listed items next answer n (next page) later
      → Listed items next answer (suc n) token (items page ++ later)

-- The results of the listing, from the items and the token of a page.
pub record Results (P A : Type 0) : Type 0 where
  pub items : P → List A
  pub next : P → String
  pub make : List A → String → P
  pub items-make : (xs : List A) (token : String) → items (make xs token) ≡ xs
  pub next-make : (xs : List A) (token : String) → next (make xs token) ≡ token

module _ {R P A : Type 0} (results : Results P A) (tokens : TokenCodec) (invalid : Err)
    (value id : R → ℕ) (desc : Bool) (item : R → A) where
  open results use {items, next, make, items-make, next-make}

  -- The answer to a request for at most `size` items, from the fetched rows.
  abbrev pub page_of : ℕ → List R → P
  page_of size rows = make (map item (take size rows)) (next_token value id tokens size rows)

  module _ (j : ℕ) (answer : String → Result P) where
    last_page :
        (token token' : String) (xs : List A)
        → answer token ≡ ok (make xs token')
        → str_eq token' "" ≡ true
        → Listed items next answer 1 token xs
    last_page token token' xs a e =
        subst (Listed items next answer 1 token) (items-make xs token')
          (Listed.last token (make xs token') a (ap (λ s. str_eq s "") (next-make xs token') ∙ e))

    more_page :
        (n : ℕ) (token token' : String) (xs ys : List A)
        → answer token ≡ ok (make xs token')
        → str_eq token' "" ≡ false
        → Listed items next answer n token' ys
        → Listed items next answer (suc n) token (xs ++ ys)
    more_page n token token' xs ys a e p =
        subst (λ zs. Listed items next answer (suc n) token (zs ++ ys)) (items-make xs token')
          (Listed.more n token (make xs token') ys a
            (ap (λ s. str_eq s "") (next-make xs token') ∙ e)
            (subst (λ s. Listed items next answer n s ys) (sym (next-make xs token')) p))

    page : List R → P
    page m = page_of (suc j) (take (suc (suc j)) m)

    made : (xs ys : List A) (s s' : String) → xs ≡ ys → s ≡ s' → make xs s ≡ make ys s'
    made xs ys s s' e e' = ap (λ l. make l s) e ∙ ap (make ys) e'

    page_all : (m : List R) → length m ≤ suc j → page m ≡ make (map item m) ""
    unfolding page
    page_all m h =
        let no_more : ltb (suc j) (length m) ≡ false = ground arith in
        let all = take_all (suc (suc j)) m (omega arith) in
        made _ _ _ _ (rw (all, take_all (suc j) m h) refl) (rw (all, no_more) refl)

    token : R → String
    token c = tokens.encode_page_token (value c) (id c)

    page_split :
        (m init : List R) (c : R)
        → suc j < length m
        → take (suc j) m ≡ init ++ c ∷ []
        → page m ≡ make (map item (init ++ c ∷ [])) (token c)
    unfolding page token
    page_split m init c h e =
        let more_rows : ltb (suc j) (min (suc (suc j)) (length m)) ≡ true = ground arith in
        made _ _ _ _ (rw (take-take (suc j) m, e) refl) (
          rw (length-take (suc (suc j)) m, more_rows, take-take (suc j) m, e, last_of-append init c)
            refl)

    parse-token : (c : R) → parse_page_token tokens invalid (token c) ≡ ok (some (value c, id c))
    unfolding token
    parse-token c = rw (tokens.encode-filled, tokens.decode-encode) refl

    token_filled : (c : R) → str_eq (token c) "" ≡ false
    unfolding token
    token_filled c = tokens.encode-filled (value c) (id c)

    whole :
        (init : List R) (c : R) (rest m : List R)
        → m ≡ init ++ c ∷ rest
        → map item (init ++ c ∷ []) ++ map item rest ≡ map item m
    whole init c rest m e =
        map-append item (init ++ c ∷ []) rest
        ∙ ap (map item) (append_assoc init (c ∷ []) rest ∙ sym e)

    module _ (t : List R) (ids : HasIds id t)
        (reads : (token : String) (cursor : Option (ℕ × ℕ))
          → parse_page_token tokens invalid token ≡ ok cursor
          → answer token ≡ ok (page_of (suc j) (fetch value id desc cursor (suc (suc j)) t))) where
      abbrev rows : List R
      rows = sort (listed_before value id desc) t

      -- The page after the row `c` holds the rows that follow it.
      answer-after :
          (xs : List R) (c : R) (rest : List R)
          → rows ≡ xs ++ c ∷ rest
          → answer (token c) ≡ ok (page rest)
      unfolding page
      answer-after xs c rest e =
          reads (token c) (some (value c, id c)) (parse-token c)
          ∙ ap (λ m. ok (page_of (suc j) (take (suc (suc j)) m)))
              (sort-after value id desc xs c rest t ids e)

      follow :
          (bound : ℕ) (xs m : List R) (from : String)
          → length m < bound
          → rows ≡ xs ++ m
          → answer from ≡ ok (page m)
          → (n : ℕ) × Listed items next answer n from (map item m) × (n ≤ suc (length m))
      follow zero xs m from h e a = absurd (omega arith)
      follow (suc bound) xs m from h e a = elim (Bool-cases (ltb (suc j) (length m))) [
        | inr fits ↦ (
          1,
          last_page from "" (map item m) (a ∙ ap ok (page_all m (ground arith))) refl,
          omega arith,
        )
        | inl over ↦
            let (init, c, rest, em, et, b) = take-split j m (ltb→lt (suc j) (length m) over) in
            let e' : rows ≡ xs ++ (init ++ c ∷ rest) = e ∙ ap (λ l. xs ++ l) em in
            let (n, p, bn) =
              follow bound (xs ++ (init ++ c ∷ [])) rest (token c) (omega arith)
                (e' ∙ sym (through xs init c rest))
                (answer-after (xs ++ init) c rest (e' ∙ sym (append_assoc xs init (c ∷ rest)))) in
            (
              suc n,
              subst (Listed items next answer (suc n) from) (whole init c rest m em) (
                  more_page n from (token c) (map item (init ++ c ∷ [])) (map item rest)
                    (a ∙ ap ok (page_split m init c (ltb→lt (suc j) (length m) over) et))
                    (token_filled c) p),
              omega arith,
            )
      ]

      -- A listing whose answers are the pages of its fetched rows: following the tokens from the
      -- first page ends, after at most one page more than there are rows, and the pages hold
      -- exactly the rows, each once, in order.
      pub follow_all :
          (n : ℕ) × Listed items next answer n "" (map item rows) × (n ≤ suc (length rows))
      unfolding page
      follow_all = follow (suc (length rows)) [] rows "" (omega arith) refl (reads "" none refl)
