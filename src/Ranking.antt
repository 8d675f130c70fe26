-- ===== src/Ranking.antt =====
-- app/match_ranking.py: the candidates of a match, filtered by thresholds and ranked by the weighted
-- sum of their feature scores.
pub mod Best
use dalm_backend.Floats.{FloatOps, dot, float_eq, in_unit, lt}
use dalm_backend.Models.{Float, Uuid}
use dalm_backend.Prelude.{
  Bool, List, Option, [], all, head?, if◌then◌else◌, leb, map, not, order_by, select, ◌&&◌, ◌||◌,
  ◌∷◌,
}
use dalm_backend.Store.{Result, err, ok, value_error}

pub record FeatureScores : Type 0 where
  pub scene : Float
  pub semantic : Float
  pub objects : Float
  pub composition : Float
  pub color : Float
  pub mood : Float

abbrev pub values : FeatureScores → List Float
values s = s.scene ∷ s.semantic ∷ s.objects ∷ s.composition ∷ s.color ∷ s.mood ∷ []

pub record MatchCandidate : Type 0 where
  pub photo_id : Uuid
  pub scores : FeatureScores

pub record RankedCandidate : Type 0 where
  pub photo_id : Uuid
  pub scores : FeatureScores
  pub final_score : Float

-- The keyword arguments of `rank_candidates`; the weights are values that `MatchWeights` accepts.
pub record RankingOptions : Type 0 where
  pub weights : FeatureScores
  pub scene_minimum : Float
  pub semantic_minimum : Float
  pub final_minimum : Float

module _ (ops : FloatOps) where
  -- `FeatureScores.__post_init__`.
  unfoldable pub feature_scores : FeatureScores → Result FeatureScores
  feature_scores s = if all (in_unit ops) (values s) then ok s else err value_error

  -- The defaults of `MatchWeights` and of `rank_candidates`.
  unfoldable pub default_options : RankingOptions
  default_options = record {
    weights = record {
      scene = ops.hundredths 25;
      semantic = ops.hundredths 25;
      objects = ops.hundredths 15;
      composition = ops.hundredths 15;
      color = ops.hundredths 10;
      mood = ops.hundredths 10;
    };
    scene_minimum = ops.hundredths 45;
    semantic_minimum = ops.hundredths 50;
    final_minimum = ops.hundredths 65;
  }

  abbrev pub final_score_of : RankingOptions → FeatureScores → Float
  final_score_of o s = dot ops (values s) (values o.weights)

  -- A candidate that no `continue` skips and whose sum reaches the minimum.
  abbrev pub qualifies : RankingOptions → MatchCandidate → Bool
  qualifies o c =
      not (lt ops c.scores.scene o.scene_minimum)
      && not (lt ops c.scores.semantic o.semantic_minimum)
      && ops.le o.final_minimum (final_score_of o c.scores)

  abbrev pub ranked_of : RankingOptions → MatchCandidate → RankedCandidate
  ranked_of o c = record {
    photo_id = c.photo_id;
    scores = c.scores;
    final_score = ops.round6 (final_score_of o c.scores);
  }

  -- The order of the sort key `(-final_score, str(photo_id))`.
  abbrev pub ranks_before : RankedCandidate → RankedCandidate → Bool
  ranks_before a b =
      lt ops b.final_score a.final_score
      || float_eq ops a.final_score b.final_score && leb a.photo_id b.photo_id

  unfoldable pub ranked : RankingOptions → List MatchCandidate → List RankedCandidate
  ranked o cs = order_by ranks_before (map (ranked_of o) (select (qualifies o) cs))

  unfoldable pub rank_candidates :
      RankingOptions → List MatchCandidate → Result (List RankedCandidate)
  unfolding ranked
  rank_candidates o cs =
      if all (in_unit ops) (o.scene_minimum ∷ o.semantic_minimum ∷ o.final_minimum ∷ [])
      then ok (ranked o cs)
      else err value_error

  -- `ranked[0] if ranked else None`.
  unfoldable pub select_best_candidate :
      RankingOptions → List MatchCandidate → Result (Option RankedCandidate)
  unfolding rank_candidates
  select_best_candidate o cs = elim (rank_candidates o cs) [ ok rs ↦ ok (head? rs) | err x ↦ err x ]
