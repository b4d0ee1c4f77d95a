-- ===== src/Source/Usecase/Stored.antt =====
-- What SourceUsecase (internal/biz/source.go) writes to its repository.
use feedium.Prelude.{
  String, ◌≡◌, refl, ap, Bool, true, false, not, Option, none, some, str_eq, if◌then◌else◌,
}
use feedium.Prelude.Int.{ℤ}
use feedium.Errors.{Err, Result, ok, err}
use feedium.Exec.{Exec, continue, raise}
use feedium.Source.{
  SourceType, telegram_channel, telegram_group, rss, html, SourceConfig, telegram_channel_config,
  telegram_group_config, rss_config, html_config, Source, is_zero, is_source_type,
  validate_source_type, parsed_uri, validate_typed, validate_source_config,
  processing_mode_for_type,
}
use feedium.Source.Usecase.{SourcePorts, create, update, replace}

-- A configuration for a type: a group or a channel has an id, a feed or a page has a URL that parses.
pub data Valid (parse_request_uri : String → Option Err) : SourceType → SourceConfig → Type 0 where
  channel :
      (id : ℤ) (user : String)
      → is_zero id ≡ false
      → Valid parse_request_uri telegram_channel (telegram_channel_config id user)
  group :
      (id : ℤ) (user : String)
      → is_zero id ≡ false
      → Valid parse_request_uri telegram_group (telegram_group_config id user)
  feed :
      (url : String)
      → str_eq url "" ≡ false
      → parse_request_uri url ≡ none
      → Valid parse_request_uri rss (rss_config url)
  page :
      (url : String)
      → str_eq url "" ≡ false
      → parse_request_uri url ≡ none
      → Valid parse_request_uri html (html_config url)

module _ (parse_request_uri : String → Option Err) where
  passes :
      {A : Type 0} (b : Bool) (x : Err) (r : Result A) (a : A)
      → (if b then err x else r) ≡ ok a
      → (b ≡ false) × (r ≡ ok a)
  passes true x r a h = cc
  passes false x r a h = (refl, h)

  uri-ok : (m : String) (o : Option Err) → parsed_uri parse_request_uri m o ≡ ok tt → o ≡ none
  uri-ok m none h = refl
  uri-ok m (some e) h = cc

  pub validate_typed-Valid :
      (t : SourceType) (c : SourceConfig)
      → validate_typed parse_request_uri t c ≡ ok tt
      → Valid parse_request_uri t c
  validate_typed-Valid telegram_channel (telegram_channel_config id user) h =
      channel id user (passes _ _ _ _ h).0
  validate_typed-Valid telegram_group (telegram_group_config id user) h =
      group id user (passes _ _ _ _ h).0
  validate_typed-Valid rss (rss_config url) h =
      let (filled, parsed) = passes _ _ _ _ h in feed url filled (uri-ok _ _ parsed)
  validate_typed-Valid html (html_config url) h =
      let (filled, parsed) = passes _ _ _ _ h in page url filled (uri-ok _ _ parsed)
  validate_typed-Valid _ _ h = cc

  validated :
      (t : SourceType) (o : Option SourceConfig)
      → validate_source_config parse_request_uri t o ≡ ok tt
      → (c : SourceConfig) × (o ≡ some c) × Valid parse_request_uri t c
  unfolding validate_source_config
  validated t none h = cc
  validated t (some c) h = (c, refl, validate_typed-Valid t c h)

-- A source whose configuration is one for its type.
abbrev pub IsValid : (String → Option Err) → Source → Type 0
IsValid parse_request_uri x =
    (c : SourceConfig) × (x.config ≡ some c) × Valid parse_request_uri x.source_type c

not-not : (b : Bool) → not b ≡ false → b ≡ true
not-not true h = refl
not-not false h = cc

continue-ok :
    {S A B : Type 0} (r : Result A) (k : A → Exec S B) (s : S) (b : B)
    → (continue (r, s) k).0 ≡ ok b
    → (a : A) × (r ≡ ok a) × ((k a s).0 ≡ ok b)
continue-ok (ok a) k s b h = (a, refl, h)
continue-ok (err x) k s b h = cc

continue-state :
    {S A B : Type 0} (p : Result A × S) (k : A → Exec S B) (b : B)
    → (continue p k).0 ≡ ok b
    → (a : A) × (s : S) × (p ≡ (ok a, s)) × ((k a s).0 ≡ ok b)
continue-state (ok a, s) k b h = (a, s, refl, h)
continue-state (err x, s) k b h = cc

unless :
    {S B : Type 0} (b : Bool) (x : Err) (m : Exec S B) (s : S) (a : B)
    → ((if b then raise x else m) s).0 ≡ ok a
    → (b ≡ false) × ((m s).0 ≡ ok a)
unless true x m s a h = cc
unless false x m s a h = (refl, h)

with_state : {S A : Type 0} (p : Result A × S) (a : A) → p.0 ≡ ok a → p ≡ (ok a, p.1)
with_state p a h = ap (λ r. (r, p.1)) h

module _ {S : Type 0} (ports : SourcePorts S) (parse_request_uri : String → Option Err) where
  -- The repository has saved a valid source of the type, and has answered with this one.
  pub data Created (t : SourceType) : Source → Type 0 where
    created :
        (x answer : Source) (s s' : S)
        → ports.save x s ≡ (ok answer, s')
        → IsValid parse_request_uri x
        → x.source_type ≡ t
        → x.processing_mode ≡ processing_mode_for_type t
        → Created t answer

  -- The repository had a source with the identifier and the type, has updated it with a valid
  -- configuration and no other type, mode or time of creation, and has answered with this one.
  pub data Changed (id : String) (t : SourceType) : Source → Type 0 where
    changed :
        (old x answer : Source) (u u' s s' : S)
        → ports.get id u ≡ (ok old, u')
        → ports.update x s ≡ (ok answer, s')
        → is_source_type old.source_type t ≡ true
        → ((c : SourceConfig) × (x.config ≡ some c) × Valid parse_request_uri t c)
        → (x.id ≡ old.id)
          × (x.source_type ≡ old.source_type)
          × (x.processing_mode ≡ old.processing_mode)
          × (x.created_at ≡ old.created_at)
        → Changed id t answer

  -- A source that Create answers with is one that the repository has saved, of the given type, with
  -- that type's mode and with a configuration for that type: an identifier that is not 0, or a URL
  -- that is not empty and parses.
  pub create-Created :
      (t : SourceType) (config : Option SourceConfig) (s : S) (answer : Source)
      → (create ports parse_request_uri t config s).0 ≡ ok answer
      → Created t answer
  unfolding create
  create-Created t config s answer h =
      let (u1, e1, h1) = continue-ok (validate_source_type t) _ s answer h in
      let (u2, e2, h2) =
        continue-ok (validate_source_config parse_request_uri t config) _ s answer h1 in
      created _ answer _ _ (with_state _ answer h2) (validated parse_request_uri t config e2) refl
        refl

  -- A source that Update answers with is one that the repository has updated: it had the given
  -- identifier and type, and only its configuration, which is one for that type, and the time of
  -- the update were changed.
  pub update-Changed :
      (id : String) (t : SourceType) (config : Option SourceConfig) (s : S) (answer : Source)
      → (update ports parse_request_uri id t config s).0 ≡ ok answer
      → Changed id t answer
  unfolding update
  update-Changed id t config s answer h =
      let (old, s1, e1, h1) =
        continue-state (ports.get id s) (replace ports parse_request_uri t config) answer h in
      let (same, h2) = unless (not (is_source_type old.source_type t)) _ _ s1 answer h1 in
      let (u, e2, h3) =
        continue-ok (validate_source_config parse_request_uri t config) _ s1 answer h2 in
      changed old _ answer s s1 _ _ e1 (with_state _ answer h3) (not-not _ same)
        (validated parse_request_uri t config e2) (refl, refl, refl, refl)
