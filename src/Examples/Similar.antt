-- ===== src/Examples/Similar.antt =====
-- Four vertices with 3, 3, 2 and 2 edges, in one partition.
use flashmob.Prelude.{
  ℕ, ◌+◌, ◌*◌, ◌%◌, ◌≤◌, ◌≡◌, refl, arith, ltb, true, false, if◌then◌else◌, none, some, ◌<◌,
}
use flashmob.Prelude.Words.{add32, sub32, add64}
use flashmob.Sampler.{Adjacency, sample_direct}
use flashmob.Sampler.Similar.{
  AdjHint, max_hint_num, SimilarDegreeDirectSampler, is_valid, fill_hints, init_similar,
  sample_similar,
}
use flashmob.Sampler.Similar.Runs.{IsDense}
use flashmob.Sampler.Similar.Direct.{sample_similar-eq-direct}
use flashmob.Sampler.Similar.Room.{Descends, fill_hints-hint_num}
use flashmob.Sampler.Dispatch.{Sampler, direct, Serves}
use flashmob.Sampler.Manager.{Parts, Samplers, init_samplers, clear_samplers}
use flashmob.Sampler.Manager.Chosen.{
  IsPrepared, IsChosen, init_samplers-Serves, clear-init_samplers,
}
use flashmob.Examples.Data.{counting, counting-IsGen, blank}

abbrev slope : Adjacency
slope = record {
  adjlists = λ v. record {
    degree = if ltb v 2 then 3 else 2;
    begin = if ltb v 2 then 3 * v else 2 * v + 2;
  };
  neighbor = λ e. e % 4;
}

abbrev no_hints : ℕ → AdjHint
no_hints h = record { vertex_begin = 0; vertex_end = 0; degree = 0; edge_begin = 0 }

slope-IsDense : IsDense slope 0 4
slope-IsDense = record {
  behind = λ v from below. ground arith;
  first_pos = omega arith;
  small = λ v from below. ground arith;
  bounded = omega arith;
}

slope-Descends : Descends slope 0 4 2 3
slope-Descends = record {
  ordered = omega arith;
  descending = λ v from below. ground arith;
  from_low = λ v from below. ground arith;
  to_high = λ v from below. ground arith;
  high_small = omega arith;
}

valid : is_valid 3 2 10 (sub32 4 0) 64 ≡ true
unfolding is_valid add32 sub32 add64
valid = refl

fill_hints-hint_num_example : (fill_hints slope 0 4 no_hints).hint_num ≤ max_hint_num
fill_hints-hint_num_example = fill_hints-hint_num slope 0 4 2 3 slope-Descends 64 10 no_hints valid

sample_similar_example :
    (s : SimilarDegreeDirectSampler) × (init_similar slope 0 4 no_hints ≡ some s)
    × (s.hint_num ≤ max_hint_num)
    × ((v : ℕ) (r : ℕ)
        → 0 ≤ v
        → v < 4
        → 0 < (slope.adjlists v).degree
        → sample_similar counting slope s v r ≡ sample_direct counting slope v r)
sample_similar_example =
    sample_similar-eq-direct counting-IsGen slope 0 4 2 3 64 10 no_hints slope-IsDense
      slope-Descends (omega arith) valid

abbrev parts : Parts
parts = record {
  is_exclusive = λ p. false;
  partition_begin = λ p. 0;
  partition_end = λ p. 4;
  partition_min_degree = λ p. 2;
  partition_max_degree = λ p. 3;
  partition_edge_num = λ p. 10;
}

slope-IsPrepared : IsPrepared slope parts 1
slope-IsPrepared = record {
  laid = λ p lt. record {
    ordered = omega arith;
    bounded = omega arith;
    behind = slope-IsDense.behind;
    small = slope-IsDense.small;
    from_low = slope-Descends.from_low;
    to_high = slope-Descends.to_high;
    first = refl;
    descending = slope-Descends.descending;
    high_small = slope-Descends.high_small;
  };
  fits = λ p lt e. absurd (ground arith);
}

abbrev no_samplers : ℕ → Sampler
no_samplers p = direct

init_samplers_example :
    (s : Samplers slope 64 blank no_hints) × (init_samplers slope 64 blank no_hints parts 1
        no_samplers
      ≡ some s)
    × ((p : ℕ) → p < 1 → IsChosen slope 64 parts p (s.samplers p) × Serves slope (s.samplers p) 0 4)
init_samplers_example =
    init_samplers-Serves slope 64 blank no_hints parts 1 slope-IsPrepared no_samplers

clear-init_samplers_example :
    (s : Samplers slope 64 blank no_hints) × (init_samplers slope 64 blank no_hints parts 1
        no_samplers
      ≡ some s)
    × (clear_samplers 1 s.samplers ≡ none)
clear-init_samplers_example =
    clear-init_samplers slope 64 blank no_hints parts 1 slope-IsPrepared no_samplers 0 (omega arith)
      refl (λ e. absurd (omega (arith, e))) valid
