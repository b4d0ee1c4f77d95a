-- ===== src/Post.antt =====
-- Posts (internal/biz/post.go): the types, and the validation of requests.
pub mod Repo
pub mod Listing
pub mod Usecase
use Prim.Native.String.{◌++◌ as str_append}
use feedium.Prelude.{
  ℕ, String, Bool, true, false, not, ◌||◌, ◌&&◌, Option, none, some, List, [], ◌∷◌, ◌++◌, ltb, ◌==◌,
  str_eq, if◌then◌else◌,
}
use feedium.Errors.{Err, sentinel, detail, post_invalid_argument, Result, ok, err}
use feedium.Text.{Text, is_blank}
use feedium.Source.{SourceType}
use feedium.Uuid.{UuidCodec}

-- Times are in microseconds; a map is an association list.
pub record Post : Type 0 where
  pub id : String
  pub source_id : String
  pub source_type : SourceType
  pub external_id : String
  pub published_at : ℕ
  pub author : Option String
  pub text : Text
  pub metadata : List (String × String)
  pub created_at : ℕ
  pub updated_at : ℕ

pub data SortField : Type 0 where
  by_published_at by_created_at unknown_field : SortField

pub data SortDirection : Type 0 where
  descending ascending unknown_direction : SortDirection

pub record ListPostsFilter : Type 0 where
  pub source_id : String
  pub page_size : ℕ
  pub page_token : String
  pub order_by : SortField
  pub order_dir : SortDirection
  pub created_after : Option ℕ
  pub created_before : Option ℕ

pub record ListPostsResult : Type 0 where
  pub items : List Post
  pub next_page_token : String

-- strings.Join(invalid, ", ")
abbrev join : List String → String
join [] = ""
join (x ∷ []) = x
join (x ∷ y ∷ ys) = str_append x (str_append ", " (join (y ∷ ys)))

abbrev missing : Bool → String → List String
missing true field = field ∷ []
missing false field = []

abbrev all_valid : List String → Result (Unit {0})
all_valid [] = ok tt
all_valid (x ∷ xs) = err (detail (sentinel post_invalid_argument) (join (x ∷ xs)))

abbrev is_none {ℓ} : {A : Type ℓ} → Option A → Bool
is_none none = true
is_none (some a) = false

-- `published_at` is none for the zero time.
abbrev pub invalid_fields : String → Text → Option ℕ → List String
invalid_fields external_id text published_at =
    missing (str_eq external_id "") "external_id"
    ++ missing (is_blank text) "text"
    ++ missing (is_none published_at) "published_at"

unfoldable pub validate_update_post : String → Text → Option ℕ → Result (Unit {0})
unfolding is_blank
validate_update_post external_id text published_at =
    all_valid (invalid_fields external_id text published_at)

unfoldable pub validate_create_post :
    UuidCodec → String → String → Text → Option ℕ → Result (Unit {0})
unfolding is_blank
validate_create_post codec source_id external_id text published_at = all_valid (
    missing (is_none (codec.parse source_id)) "source_id"
    ++ invalid_fields external_id text published_at)

abbrev invalid : String → Err
invalid m = detail (sentinel post_invalid_argument) m

abbrev known_field : SortField → Bool
known_field unknown_field = false
known_field _ = true

abbrev known_direction : SortDirection → Bool
known_direction unknown_direction = false
known_direction _ = true

abbrev bounds_crossed : Option ℕ → Option ℕ → Bool
bounds_crossed (some a) (some b) = ltb b a
bounds_crossed _ _ = false

unfoldable pub validate_list_posts_filter : UuidCodec → ListPostsFilter → Result (Unit {0})
validate_list_posts_filter codec f =
    if not (known_field f.order_by)
    then err (invalid "invalid order_by")
    else if not (known_direction f.order_dir)
    then err (invalid "invalid order_dir")
    else if not (str_eq f.source_id "") && is_none (codec.parse f.source_id)
    then err (invalid "invalid source_id")
    else if bounds_crossed f.created_after f.created_before
    then err (invalid "created_after must be before created_before")
    else ok tt
