-- ===== src/Ranking/Best.antt =====
-- The candidate that the ranking puts first.
use dalm_backend.Floats.{FloatOps, IsOrdered, dot, lt}
use dalm_backend.Models.{Float}
use dalm_backend.Prelude.{
  All, All-head?, All-map, All-map-select, Any, List, Option, arith, false, head?, head?-least, map,
  map-head?-none, map-select-All, map-select-Any, none, order_by-All, refl, select, some, true, ◌≡◌,
  ◌≤◌, ◌⊎◌,
}
use dalm_backend.Ranking.{
  MatchCandidate, RankedCandidate, RankingOptions, final_score_of, qualifies, rank_candidates,
  ranked, ranked_of, ranks_before, select_best_candidate, values,
}
use dalm_backend.Store.{ok}

module _ (ops : FloatOps) where
  -- A candidate that no minimum excludes.
  abbrev pub Qualifies : RankingOptions → MatchCandidate → Type 0
  Qualifies o c =
      (lt ops c.scores.scene o.scene_minimum ≡ false)
      × (lt ops c.scores.semantic o.semantic_minimum ≡ false)
      × (ops.le o.final_minimum (dot ops (values c.scores) (values o.weights)) ≡ true)

  abbrev pub rounded_score : RankingOptions → MatchCandidate → Float
  rounded_score o c = ops.round6 (dot ops (values c.scores) (values o.weights))

  -- A score that is at least that of the candidate, and at an equal one an identifier that is not greater.
  abbrev pub IsNotBeaten : RankingOptions → RankedCandidate → MatchCandidate → Type 0
  IsNotBeaten o r c =
      (ops.le (rounded_score o c) r.final_score ≡ true)
      × (ops.le r.final_score (rounded_score o c) ≡ true → r.photo_id ≤ c.photo_id)

  -- A ranked candidate is one of the candidates, with its rounded score.
  abbrev pub IsRankOf : RankingOptions → MatchCandidate → RankedCandidate → Type 0
  IsRankOf o c r =
      Qualifies o c
      × (r.photo_id ≡ c.photo_id)
      × (r.scores ≡ c.scores)
      × (r.final_score ≡ rounded_score o c)

  abbrev pub IsBest : RankingOptions → List MatchCandidate → Option RankedCandidate → Type 0
  IsBest o cs none = All (λ c. ¬ (Qualifies o c)) cs
  IsBest o cs (some r) =
      Any (λ c. IsRankOf o c r) cs × All (λ c. Qualifies o c → IsNotBeaten o r c) cs

  qualifies-Qualifies :
      (o : RankingOptions) (c : MatchCandidate) → qualifies ops o c ≡ true → Qualifies o c
  qualifies-Qualifies o c h = (ground arith, ground arith, ground arith)

  Qualifies-qualifies :
      (o : RankingOptions) (c : MatchCandidate) → Qualifies o c → qualifies ops o c ≡ true
  Qualifies-qualifies o c (scene, semantic, final) = rw (scene, semantic, final) refl

  nothing_ranked :
      (o : RankingOptions) (cs : List MatchCandidate)
      → head? (ranked ops o cs) ≡ none
      → All (λ c. ¬ (Qualifies o c)) cs
  unfolding ranked
  nothing_ranked o cs h =
      All-map cs (λ c unfit fit. unfit (Qualifies-qualifies o c fit))
        (map-head?-none (ranked_of ops o) (qualifies ops o) (ranks_before ops) cs h)

  module _ (ordered : IsOrdered ops) where
    -- Scores that reach a minimum are no NaN.
    abbrev IsNumber : RankedCandidate → Type 0
    IsNumber r = ops.le r.final_score r.final_score ≡ true

    ranks_before_total :
        (a b : RankedCandidate)
        → IsNumber a
        → IsNumber b
        → (ranks_before ops a b ≡ true) ⊎ (ranks_before ops b a ≡ true)
    ranks_before_total a b h k = ground (arith, ordered.total a.final_score b.final_score h k)

    ranks_before_trans :
        (a b c : RankedCandidate)
        → ranks_before ops a b ≡ true
        → ranks_before ops b c ≡ true
        → ranks_before ops a c ≡ true
    ranks_before_trans a b c h k = ground (
      arith,
      ordered.transitive a.final_score b.final_score c.final_score,
      ordered.transitive c.final_score b.final_score a.final_score,
      ordered.transitive b.final_score c.final_score a.final_score,
      ordered.transitive b.final_score a.final_score c.final_score,
      ordered.transitive a.final_score c.final_score b.final_score,
      ordered.transitive c.final_score a.final_score b.final_score,
    )

    not_beaten :
        (o : RankingOptions) (r : RankedCandidate) (c : MatchCandidate)
        → ranks_before ops r (ranked_of ops o c) ≡ true
        → IsNotBeaten o r c
    not_beaten o r c h = (ground arith, (λ k. ground arith))

    ranked-IsBest :
        (o : RankingOptions) (cs : List MatchCandidate) (r : RankedCandidate)
        → head? (ranked ops o cs) ≡ some r
        → IsBest o cs (some r)
    unfolding ranked
    ranked-IsBest o cs r h = (
      All-head? (λ s. Any (λ c. IsRankOf o c s) cs) (ranked ops o cs) r h
          (order_by-All (λ s. Any (λ c. IsRankOf o c s) cs) (ranks_before ops)
            (map (ranked_of ops o) (select (qualifies ops o) cs))
            (map-select-Any (IsRankOf o) (ranked_of ops o) (qualifies ops o) cs
              (λ c q. (qualifies-Qualifies o c q, refl, refl, refl)))),
      All-map cs (λ c before fit. not_beaten o r c (before (Qualifies-qualifies o c fit)))
          (All-map-select (λ s. ranks_before ops r s ≡ true) (ranked_of ops o) (qualifies ops o) cs
            (head?-least (ranks_before ops) IsNumber ranks_before_total ranks_before_trans
              (map (ranked_of ops o) (select (qualifies ops o) cs)) r numbers h)),
    )
      where
        numbers : All IsNumber (map (ranked_of ops o) (select (qualifies ops o) cs))
        numbers = map-select-All IsNumber (ranked_of ops o) (qualifies ops o) cs (λ c q.
            ordered.rounded (final_score_of ops o c.scores)
              (ordered.compared o.final_minimum (final_score_of ops o c.scores)
                (qualifies-Qualifies o c q).2).1)

    -- With comparisons as in IEEE 754, NaN included: where `select_best_candidate` answers none, every
    -- candidate falls below a minimum of its scene, its semantic or its weighted score. Else the
    -- answer is one of the candidates that reach the three minima, with its rounded weighted score,
    -- which is at least that of every other such candidate; at equal scores its photo has the
    -- smaller identifier.
    pub select_best_candidate_lem :
        (o : RankingOptions) (cs : List MatchCandidate) (best : Option RankedCandidate)
        → select_best_candidate ops o cs ≡ ok best
        → IsBest o cs best
    unfolding select_best_candidate rank_candidates
    select_best_candidate_lem o cs none h = nothing_ranked o cs (ground arith)
    select_best_candidate_lem o cs (some r) h = ranked-IsBest o cs r (ground arith)
