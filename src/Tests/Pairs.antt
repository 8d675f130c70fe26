-- ===== src/Tests/Pairs.antt =====
-- Matches and the ranking of candidates.
use dalm_backend.Floats.{FloatOps, IsOrdered}
use dalm_backend.Matching.{finalize, finalize_match, finalize_pair, finalize_rows}
use dalm_backend.Matching.Outcome.{IsMatch, finalize_match-IsAtomic, finalize_match_ok}
use dalm_backend.Models.{Uuid, days}
use dalm_backend.Prelude.{
  List, [], arith, false, is_empty, leb, refl, some, strip, true, ℕ, ◌*◌, ◌+◌, ◌∷◌, ◌≡◌, ◌≢◌,
}
use dalm_backend.Ranking.{
  FeatureScores, MatchCandidate, RankedCandidate, RankingOptions, default_options, rank_candidates,
  ranked, ranked_of, select_best_candidate,
}
use dalm_backend.Ranking.Best.{IsBest, select_best_candidate_lem}
use dalm_backend.Store.{Code, Env, api_error, err, ok, request, satisfies_constraints}
use dalm_backend.Tests.Fixtures.{env, searching_db}

abbrev match_env : Env
match_env = env 100 1000

abbrev first_id : Uuid
first_id = 12

abbrev second_id : Uuid
second_id = 11

match_made : (request (finalize_match match_env 12 11 " 닮은 순간 " 100) searching_db).0 ≡ ok 1000
unfolding finalize_match finalize finalize_rows finalize_pair satisfies_constraints strip
match_made = refl

finalize_match_ok_example :
    (first_id ≢ second_id)
    × (is_empty (strip " 닮은 순간 ") ≡ false)
    × (match_env.uuid4 0 ≡ match_env.uuid4 0)
    × IsMatch match_env 12 11
        (strip " 닮은 순간 ")
        100
        searching_db
        (request (finalize_match match_env 12 11 " 닮은 순간 " 100) searching_db).1
finalize_match_ok_example =
    finalize_match_ok match_env 12 11 " 닮은 순간 " 100 searching_db 1000 match_made

too_late :
    (request (finalize_match match_env 11 12 "닮은 순간" (days 7)) searching_db).0
    ≡ err (api_error 409 Code.search_period_expired)
unfolding finalize_match finalize finalize_rows finalize_pair satisfies_constraints strip
too_late = refl

finalize_match-IsAtomic_example :
    (request (finalize_match match_env 11 12 "닮은 순간" (days 7)) searching_db).1 ≡ searching_db
finalize_match-IsAtomic_example =
    finalize_match-IsAtomic match_env 11 12 "닮은 순간" (days 7) searching_db
      (api_error 409 Code.search_period_expired) too_late

-- Numbers of hundredths in place of floats.
abbrev pub hundredths_ops : FloatOps
hundredths_ops = record {
  add = λ a b. a + b;
  mul = λ a b. a * b;
  div = λ a b. a;
  sqrt = λ a. a;
  round6 = λ a. a;
  is_finite = λ a. true;
  le = leb;
  of_int = λ n. n * 100;
  hundredths = λ n. n;
}

hundredths-IsOrdered : IsOrdered hundredths_ops
hundredths-IsOrdered = record {
  compared = λ a b h. (ground arith, ground arith);
  total = λ a b h k. ground arith;
  transitive = λ a b c h k. ground arith;
  rounded = λ a h. h;
}

abbrev like : ℕ → FeatureScores
like n = record { scene = n; semantic = n; objects = n; composition = n; color = n; mood = n }

abbrev candidate : Uuid → ℕ → MatchCandidate
candidate id n = record { photo_id = id; scores = like n }

abbrev candidates : List MatchCandidate
candidates = candidate 1 40 ∷ candidate 2 70 ∷ candidate 4 90 ∷ candidate 3 90 ∷ []

abbrev options : RankingOptions
options = default_options hundredths_ops

abbrev best : RankedCandidate
best = ranked_of hundredths_ops options (candidate 3 90)

best_selected : select_best_candidate hundredths_ops options candidates ≡ ok (some best)
unfolding select_best_candidate rank_candidates ranked default_options
best_selected = refl

select_best_candidate_lem_example : IsBest hundredths_ops options candidates (some best)
select_best_candidate_lem_example =
    select_best_candidate_lem hundredths_ops hundredths-IsOrdered options candidates (some best)
      best_selected
