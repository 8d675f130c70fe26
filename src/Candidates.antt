-- ===== src/Candidates.antt =====
-- app/photo_embeddings.py and the matching part of app/embedding_jobs.py: the candidates for a photo,
-- their scores, and the attempts to match with them in the order of their rank.
use Prim.Native.String.{◌++◌ as append}
use mathlib.Core.Option.{get_or}
use dalm_backend.EmbeddingJobs.{PhotoEmbeddingData}
use dalm_backend.Floats.{FloatOps, dot, float_eq, lt}
use dalm_backend.Matching.{are_blocked, finalize_match, is_over}
use dalm_backend.Models.{
  DateTime, Float, Photo, PhotoEmbedding, PhotoStatus, Uuid, days, embedding_status_eq,
  notification_type_eq, photo_status_eq, report_target_eq, term_type_eq, user_status_eq,
  validation_status_eq,
}
use dalm_backend.Prelude.{
  Bool, List, Option, String, [], all, false, for_each, if◌then◌else◌, is_empty, is_none,
  is_some_and, leb, length, ltb, map, nat_eq, none, not, option_eq, order_by, select, some,
  string_eq, strip, take, true, ℕ, ◌&&◌, ◌+◌, ◌==◌, ◌||◌, ◌∷◌,
}
use dalm_backend.Ranking.{
  FeatureScores, MatchCandidate, RankedCandidate, default_options, feature_scores, rank_candidates,
}
use dalm_backend.Store.{
  Action, Code, Db, Env, Error, Result, api_error, err, lift, ok, or_raise, pure, query, raise_if,
  scalar_one_or_none, value_error, ◌>>=◌, ◌>>◌,
}

pub record EmbeddingCandidate : Type 0 where
  pub photo_id : Uuid
  pub user_id : Uuid
  pub registered_at : DateTime
  pub embedding : PhotoEmbeddingData

-- `build_candidate_query`.
abbrev pub is_candidate : Uuid → Uuid → DateTime → Db → Photo → Bool
is_candidate source_photo_id source_user_id now db p =
    not (p.id == source_photo_id)
    && not (p.user_id == source_user_id)
    && p.status == PhotoStatus.searching
    && is_none p.deleted_at
    && leb now (p.registered_at + days 7)
    && is_some_and (λ t. ltb now t) p.search_expires_at
    && not (are_blocked source_user_id p.user_id db)

abbrev pub oldest_first : Photo × PhotoEmbedding → Photo × PhotoEmbedding → Bool
oldest_first (p, r) (q, s) =
    ltb p.registered_at q.registered_at || p.registered_at == q.registered_at && leb p.id q.id

unfoldable pub candidate_rows : Uuid → Uuid → DateTime → ℕ → Db → List (Photo × PhotoEmbedding)
candidate_rows source_photo_id source_user_id now limit db = take limit (
    order_by oldest_first (
      for_each (select (is_candidate source_photo_id source_user_id now db) db.photos)
        λ p. map (λ r. (p, r)) (select (λ r. r.photo_id == p.id) db.photo_embeddings)))

module _ (ops : FloatOps) where
  abbrev pub is_vector : List Float → Bool
  is_vector [] = false
  is_vector (x ∷ xs) = all ops.is_finite (x ∷ xs)

  -- `PhotoEmbeddingData.__post_init__`.
  unfoldable pub embedding_data : PhotoEmbeddingData → Result PhotoEmbeddingData
  embedding_data d =
      if all is_vector (d.scene ∷ d.object_action ∷ d.composition ∷ d.color ∷ d.mood ∷ [])
        && not (is_empty (strip d.model_name))
        && not (is_empty (strip d.model_version))
      then ok d
      else err value_error

  -- `_embedding_data` and `_data`; labels that are null are read as the empty object.
  abbrev pub data_of : PhotoEmbedding → Result PhotoEmbeddingData
  data_of r = embedding_data (record {
    scene = r.scene_vector;
    object_action = r.object_action_vector;
    composition = r.composition_vector;
    color = r.color_vector;
    mood = r.mood_vector;
    labels = get_or r.labels "{}";
    model_name = r.model_name;
    model_version = r.model_version;
  })

  unfoldable pub candidates_of : List (Photo × PhotoEmbedding) → Result (List EmbeddingCandidate)
  candidates_of [] = ok []
  candidates_of ((p, r) ∷ rows) = elim (data_of r) [
    | err x ↦ err x
    | ok d ↦ elim (candidates_of rows) [
      | err x ↦ err x
      | ok cs ↦ ok (
          record {
            photo_id = p.id;
            user_id = p.user_id;
            registered_at = p.registered_at;
            embedding = d;
          }
          ∷ cs)
    ]
  ]

  -- `SqlPhotoEmbeddingStore.list_candidates`.
  unfoldable pub list_candidates : Uuid → DateTime → ℕ → Action (List EmbeddingCandidate)
  unfolding candidate_rows candidates_of
  list_candidates source_photo_id now limit = do
    raise_if (not (leb 1 limit && leb limit 500)) value_error
    rows ← query (λ db. select (λ p. p.id == source_photo_id) db.photos)
    found ← scalar_one_or_none rows
    source ← or_raise found (api_error 404 Code.photo_not_found)
    raise_if (not (source.status == PhotoStatus.searching) || is_over now source)
        (api_error 409 Code.photo_not_searching)
    pairs ← query (candidate_rows source_photo_id source.user_id now limit)
    lift (candidates_of pairs)

  -- `_cosine`.
  unfoldable pub cosine : List Float → List Float → Float
  cosine left right =
      if not (length left == length right) || length left == 0
      then ops.of_int 0
      else (let denominator =
            ops.mul (ops.sqrt (dot ops left left)) (ops.sqrt (dot ops right right)) in
          let ratio = ops.div (dot ops left right) denominator in
          let capped = if lt ops ratio (ops.of_int 1) then ratio else ops.of_int 1 in
          if float_eq ops denominator (ops.of_int 0)
          then ops.of_int 0
          else if lt ops (ops.of_int 0) capped
          then capped
          else ops.of_int 0)

  unfoldable pub score_embeddings : PhotoEmbeddingData → PhotoEmbeddingData → Result FeatureScores
  unfolding cosine
  score_embeddings source candidate =
      let scene = cosine source.scene candidate.scene in
      let objects = cosine source.object_action candidate.object_action in
      let mood = cosine source.mood candidate.mood in
      feature_scores ops (record {
        scene = scene;
        semantic = ops.div (ops.add (ops.add scene objects) mood) (ops.of_int 3);
        objects = objects;
        composition = cosine source.composition candidate.composition;
        color = cosine source.color candidate.color;
        mood = mood;
      })

  unfoldable pub score_all :
      PhotoEmbeddingData → List EmbeddingCandidate → Result (List MatchCandidate)
  unfolding score_embeddings
  score_all source [] = ok []
  score_all source (c ∷ cs) = elim (score_embeddings source c.embedding) [
    | err x ↦ err x
    | ok s ↦ elim (score_all source cs) [
      | err x ↦ err x
      | ok ms ↦ ok (record { photo_id = c.photo_id; scores = s } ∷ ms)
    ]
  ]

  -- The labels of `_explanation` in the order of its dict, each with its score.
  abbrev pub labelled : FeatureScores → List (String × Float)
  labelled s =
      ("장면", s.scene)
      ∷ ("대상과 행동", s.objects)
      ∷ ("구도", s.composition)
      ∷ ("색감", s.color)
      ∷ ("분위기", s.mood)
      ∷ []

  abbrev pub join_labels : List (String × Float) → String
  join_labels [] = ""
  join_labels (a ∷ []) = ""
  join_labels (a ∷ b ∷ rest) = append a.0 (append "과 " (append b.0 "이 닮은 순간이에요."))

  -- `_explanation`: the two best features, by a stable sort with the greatest first.
  unfoldable pub explanation : FeatureScores → String
  explanation s = join_labels (order_by (λ a b. ops.le b.1 a.1) (labelled s))

  -- The errors on which `orchestrate_match` goes on to the next candidate.
  abbrev pub is_passing : Error → Bool
  is_passing (Error.api x) = elim x.code [
    | Code.match_candidate_changed ↦ true
    | Code.user_blocked ↦ true
    | Code.search_period_expired ↦ true
    | _ ↦ false
  ]
  is_passing _ = false

  -- The loop over the ranked candidates.
  unfoldable pub try_candidates : Env → Uuid → List RankedCandidate → Action (Option Uuid)
  try_candidates e photo_id [] s = (ok none, s)
  try_candidates e photo_id (c ∷ cs) s =
      let (r, s') = finalize_match e photo_id c.photo_id (explanation c.scores) e.now s in
      let rest = try_candidates e photo_id cs s' in
      elim r [ ok id ↦ (ok (some id), s') | err x ↦ if is_passing x then rest else (err x, s') ]

  unfoldable pub orchestrate_match : Env → Uuid → Action (Option Uuid)
  unfolding score_all
  orchestrate_match e photo_id = do
    rows ← query (λ db. select (λ r. r.photo_id == photo_id) db.photo_embeddings)
    source ← scalar_one_or_none rows
    elim source [
      | none ↦ pure none
      | some row ↦ (do
        d ← lift (data_of row)
        candidates ← list_candidates photo_id e.now 100
        scored ← lift (score_all d candidates)
        best ← lift (rank_candidates ops (default_options ops) scored)
        try_candidates e photo_id best)
    ]
