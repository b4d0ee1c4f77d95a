-- ===== src/Examples/Scores.antt =====
-- Scores and embeddings: floating-point numbers by natural numbers, and a world for ScoreUsecase.
use Prim.Native.String as S
use Prim.Native.Char.{code}
use feedium.Prelude.{
  ℕ, zero, suc, ◌+◌, ◌*◌, ◌≡◌, refl, String, false, none, some, List, [], ◌∷◌, ◌==◌, leb, ltb,
  arith, ◌⊎◌, ap, sym, ◌∙◌, if◌then◌else◌,
}
use feedium.Errors.{opaque, sentinel, post_embedding_not_found, Result, ok, err}
use feedium.Examples.Codecs.{codec, print, vs}
use feedium.Exec.Ok.{ok_inj}
use feedium.Summary.Ports.{Summary}
use feedium.Scoring.Outbox.Event.{ScoreEvent, processing}
use feedium.Scoring.Relevance.{Floats, relevance}
use feedium.Scoring.Relevance.Bounds.{Ordered, InRange, NoneAbove, relevance_bounds}
use feedium.Scoring.Ports.{Score, PostEmbedding, ScorePorts}
use feedium.Scoring.Usecase.{score_post}
use feedium.Scoring.Usecase.Scored.{Scored, score_post-Scored}
use feedium.Scoring.Embeddings.{VectorCodec, EmbeddingRow, upsert_embedding, get_embedding}
use feedium.Scoring.Embeddings.Stored.{Same, score_key, get-upsert_embedding}

-- The greatest root of `n` that is at most `k`.
abbrev root_to : ℕ → ℕ → ℕ
root_to zero n = 0
root_to (suc k) n = let below = root_to k n in if leb (suc k * suc k) n then suc k else below

abbrev quotient_to : ℕ → ℕ → ℕ → ℕ
quotient_to zero n d = 0
quotient_to (suc k) n d =
    let below = quotient_to k n d in if leb (suc k * d) n then suc k else below

abbrev pub counting : Floats
counting = record {
  Float64 = ℕ;
  Float32 = ℕ;
  widen = λ a. a;
  zero = 0;
  one = 1;
  add = λ a b. a + b;
  mul = λ a b. a * b;
  div = λ a b. quotient_to a a b;
  sqrt = λ a. root_to a a;
  eq = λ a b. a == b;
  lt = ltb;
}

counting-Ordered : Ordered counting
counting-Ordered = record {
  irrefl = λ a. ground arith;
  trans = λ a b c h k. ground arith;
  zero_one = refl;
}

relevance_bounds_example :
    InRange counting counting-Ordered 1
    × (◌≡◌ {A = ℕ} 1 1
        ⊎ NoneAbove counting counting-Ordered (3 ∷ 4 ∷ []) ((4 ∷ 3 ∷ []) ∷ (6 ∷ 8 ∷ []) ∷ []) 1)
unfolding relevance
relevance_bounds_example =
    relevance_bounds counting counting-Ordered (3 ∷ 4 ∷ []) ((4 ∷ 3 ∷ []) ∷ (6 ∷ 8 ∷ []) ∷ []) 1
      refl

-- A digest with one summary, two interests, and one embedding that another model has made.
pub record ScoreWorld : Type 0 where
  pub scores : List (Score counting)
  pub embeddings : List (PostEmbedding counting)
  pub tick : ℕ

abbrev text_of_digest : Summary
text_of_digest = record {
  id = "#ii";
  post_id = none;
  source_id = "#";
  text = 65 ∷ 66 ∷ [];
  word_count = 1;
  created_at = 10;
}

abbrev old_embedding : PostEmbedding counting
old_embedding = record {
  post_id = none;
  summary_id = some "#ii";
  vector = 9 ∷ 9 ∷ [];
  model = "old";
  input_hash = "hash";
  created_at = 5;
  updated_at = 5;
}

abbrev first_embedding : List (PostEmbedding counting) → Result (PostEmbedding counting)
first_embedding [] = err (sentinel post_embedding_not_found)
first_embedding (e ∷ es) = ok e

abbrev score_ports : ScorePorts counting ScoreWorld
score_ports = record {
  get_summary = λ id s. (ok text_of_digest, s);
  summaries_by_post = λ id s. (ok [], s);
  interest_vectors = λ s. (
    ok (
        record { embedding = 4 ∷ 3 ∷ []; model = "new" }
        ∷ record { embedding = 6 ∷ 8 ∷ []; model = "new" }
        ∷ []),
    s,
  );
  get_embedding = λ key s. (first_embedding s.embeddings, s);
  upsert_embedding = λ e s. (ok e, record s { embeddings = e ∷ [] });
  upsert_score = λ x s. (ok x, record s { scores = x ∷ s.scores });
  embed = λ text s. (ok (3 ∷ 4 ∷ []), s);
  model = "new";
  hash_input = λ text. "hash";
  enqueue_due_posts = λ s. ((0, none), s);
  enqueue_due_digests = λ s. ((0, some (opaque "connection lost")), s);
  list_lease_expired = λ grace limit s. (ok [], s);
  fail_expired = λ id most grace error s. (ok false, s);
  now = λ s. (s.tick, s);
  new_id = λ s. (print s.tick, record s { tick = suc s.tick });
}

abbrev score_event : ScoreEvent
score_event = record {
  id = "#i";
  post_id = none;
  summary_id = some "#ii";
  status = processing;
  error = none;
  attempt_count = 1;
  created_at = 10;
  processed_at = none;
}

abbrev score_world : ScoreWorld
score_world = record { scores = []; embeddings = old_embedding ∷ []; tick = 4 }

abbrev scored_world : ScoreWorld
scored_world = (score_post score_ports score_event score_world).1

score_post-Scored_example : Scored score_ports score_event "#iiii"
unfolding score_post
score_post-Scored_example =
    score_post-Scored score_ports score_event score_world scored_world "#iiii" refl

-- A vector in unary: each component is followed by an end mark.
abbrev written : List ℕ → String
written [] = ""
written (n ∷ ns) = vs n (S.◌∷◌ "i" (written ns))

abbrev read : String → ℕ → List ℕ
read S.[] n = []
read (S.◌∷◌ c s) n =
    let ended = read s 0 in let more = read s (suc n) in if code c == 105 then n ∷ ended else more

read-vs : (m n : ℕ) (s : String) → read (vs m s) n ≡ read s (m + n)
read-vs zero n s = ap (read s) (let e : n ≡ 0 + n = omega arith in e)
read-vs (suc m) n s =
    read-vs m (suc n) s ∙ ap (read s) (let e : m + suc n ≡ suc m + n = omega arith in e)

read-written : (v : List ℕ) → read (written v) 0 ≡ v
read-written [] = refl
read-written (n ∷ ns) =
    read-vs n 0 (S.◌∷◌ "i" (written ns))
    ∙ (let e : n + 0 ≡ n = omega arith in rw (e, read-written ns) refl)

abbrev vectors : VectorCodec counting
vectors = record {
  encode = λ v. ok (written v);
  decode = λ s. ok (read s 0);
  decode-encode = λ v s h. ap ok (ap (λ t. read t 0) (sym (ok_inj h)) ∙ read-written v);
}

abbrev embedding_row : EmbeddingRow
embedding_row = record {
  id = 1;
  post_id = none;
  summary_id = some 2;
  vector = "vvi";
  model = "old";
  input_hash = "old hash";
  created_at = 5;
  updated_at = 5;
}

abbrev new_embedding : PostEmbedding counting
new_embedding = record old_embedding { vector = 3 ∷ 4 ∷ []; model = "new"; input_hash = "new hash" }

abbrev kept_embedding : PostEmbedding counting
kept_embedding = record new_embedding { updated_at = 77 }

get-upsert_embedding_example :
    (get_embedding codec vectors none
        (score_key codec vectors new_embedding)
        (upsert_embedding codec vectors none 77 9 new_embedding (embedding_row ∷ [])).1
      ≡ ok kept_embedding)
    × Same codec vectors new_embedding kept_embedding
unfolding upsert_embedding
get-upsert_embedding_example =
    get-upsert_embedding codec vectors 77 9 new_embedding (embedding_row ∷ []) refl kept_embedding
      refl
