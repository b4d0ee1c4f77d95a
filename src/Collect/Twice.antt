-- ===== src/Collect/Twice.antt =====
-- Collecting items again (internal/biz/collect.go), over a creator that knows what it has created.
use feedium.Prelude.{◌≡◌, refl, sym, subst, ◌∙◌, String, List, [], ◌∷◌, All}
use feedium.Errors.{ok}
use feedium.Exec.{Exec}
use feedium.Source.{Source}
use feedium.Post.{Post}
use feedium.Post.Usecase.{PostRequest}
use feedium.Collect.{CollectedItem, request_of, filter_text_items, create_all, collect_items}

module _ {S D : Type 0} (db : S → D) (create : String → PostRequest → Exec S Post) where
  -- The database tells which requests were created; it does not forget them, and creating one of
  -- them again answers a post and leaves the database as it is.
  pub record Remembers : Type 1 where
    pub Known : String → PostRequest → D → Type 0
    pub learns :
        (source : String) (r : PostRequest) (p : Post) (s s' : S)
        → create source r s ≡ (ok p, s')
        → Known source r (db s')
    pub keeps :
        (source other : String) (r q : PostRequest) (p : Post) (s s' : S)
        → create other q s ≡ (ok p, s')
        → Known source r (db s)
        → Known source r (db s')
    pub answers :
        (source : String) (r : PostRequest) (s : S)
        → Known source r (db s)
        → (p : Post) × (s' : S) × (create source r s ≡ (ok p, s')) × (db s' ≡ db s)

  -- Each of the items was created, one after the other.
  pub data Created (source : String) : List CollectedItem → S → S → Type 0 where
    done : (s : S) → Created source [] s s
    next :
        (item : CollectedItem) (items : List CollectedItem) (p : Post) (s s1 s' : S)
        → create source (request_of item) s ≡ (ok p, s1)
        → Created source items s1 s'
        → Created source (item ∷ items) s s'

  module _ (c : Remembers) (source : String) where
    later-Known :
        (items : List CollectedItem) (s s' : S) (r : PostRequest)
        → Created source items s s'
        → c.Known source r (db s)
        → c.Known source r (db s')
    later-Known _ _ _ r (done s) k = k
    later-Known _ _ _ r (next item items p s s1 s' e later) k =
        later-Known items s1 s' r later (c.keeps source source r (request_of item) p s s1 e k)

    all-Known :
        (items : List CollectedItem) (s s' : S)
        → Created source items s s'
        → All (λ item. c.Known source (request_of item) (db s')) items
    all-Known _ _ _ (done s) = tt
    all-Known _ _ _ (next item items p s s1 s' e later) = (
      later-Known items s1 s' (request_of item) later (c.learns source (request_of item) p s s1 e),
      all-Known items s1 s' later,
    )

    again :
        (items : List CollectedItem) (d : D) (s : S)
        → db s ≡ d
        → All (λ item. c.Known source (request_of item) d) items
        → ((create_all create source items s).0 ≡ ok tt)
          × (db (create_all create source items s).1 ≡ d)
    again [] d s e a = (refl, e)
    again (item ∷ items) d s e a =
        let (p, s', ran, same) =
          c.answers source (request_of item) s
            (subst (c.Known source (request_of item)) (sym e) a.0) in
        rw ran (again items d s' (same ∙ e) a.1)

  -- Over a creator that keeps the contract: where each text item was created, one after the other,
  -- collecting the same items again, from any state with the database that this has left, answers no
  -- error and leaves the database as it is.
  pub collect_again :
      Remembers
      → (source : Source) (items : List CollectedItem) (s s' later : S)
      → Created source.id (filter_text_items items) s s'
      → db later ≡ db s'
      → ((collect_items create source items later).0 ≡ ok tt)
        × (db (collect_items create source items later).1 ≡ db s')
  unfolding collect_items
  collect_again c source items s s' later created same =
      again c source.id (filter_text_items items) (db s') later same
        (all-Known c source.id (filter_text_items items) s s' created)
