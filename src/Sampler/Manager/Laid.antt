-- ===== src/Sampler/Manager/Laid.antt =====
-- src/core/sampler.hpp, SamplerManager::init: the partitions as Graph::make leaves them, and what its
-- samplers ask of them.
use flashmob.Prelude.{ℕ, zero, suc, ◌+◌, ◌-◌, ◌*◌, ◌^◌, ◌≤◌, ◌<◌, ◌≡◌, ◌≢◌, ◌∙◌, subst, arith}
use flashmob.Sampler.{Adjacency}
use flashmob.Sampler.Direct.{IsUniform}
use flashmob.Sampler.Similar.Runs.{IsDense}
use flashmob.Sampler.Similar.Room.{Descends}

-- What Graph::make leaves of a partition: its vertices lie behind one another, sorted by degree,
-- and `low` and `high` bound their degrees, the greatest of which is the first.
pub record IsLaid (g : Adjacency) (lo hi low high : ℕ) : Type 0 where
  pub ordered : lo < hi
  pub bounded : hi < 2 ^ 32
  pub behind :
      (v : ℕ)
      → lo ≤ v
      → suc v < hi
      → (g.adjlists (suc v)).begin ≡ (g.adjlists v).begin + (g.adjlists v).degree
  pub small : (v : ℕ) → lo ≤ v → v < hi → (hi - lo) * (g.adjlists v).degree < 2 ^ 32
  pub from_low : (v : ℕ) → lo ≤ v → v < hi → low ≤ (g.adjlists v).degree
  pub to_high : (v : ℕ) → lo ≤ v → v < hi → (g.adjlists v).degree ≤ high
  pub first : (g.adjlists lo).degree ≡ high
  pub descending :
      (v : ℕ) → lo ≤ v → suc v < hi → (g.adjlists (suc v)).degree ≤ (g.adjlists v).degree
  pub high_small : high + 1 < 2 ^ 32

next_begin : (a k d : ℕ) → a + k * d + d ≡ a + suc k * d
next_begin a k d = grind arith

module _ (g : Adjacency) (lo hi low high : ℕ) (l : IsLaid g lo hi low high) where
  pub dense : low ≢ high → IsDense g lo hi
  dense ne = record {
    behind = l.behind;
    first_pos = omega (arith, l.first, l.from_low lo (omega arith) l.ordered);
    small = l.small;
    bounded = l.bounded;
  }

  pub descends : Descends g lo hi low high
  descends = record {
    ordered = omega (arith, l.ordered);
    descending = l.descending;
    from_low = l.from_low;
    to_high = l.to_high;
    high_small = l.high_small;
  }

  module _ (e : low ≡ high) where
    one_degree : (v : ℕ) → lo ≤ v → v < hi → (g.adjlists v).degree ≡ (g.adjlists lo).degree
    one_degree v from below =
        omega (arith, e, l.from_low v from below, l.to_high v from below, l.first)

    in_row :
        (k : ℕ)
        → lo + k < hi
        → (g.adjlists (lo + k)).begin ≡ (g.adjlists lo).begin + k * (g.adjlists lo).degree
    in_row zero lt = let here : lo + 0 ≡ lo = omega arith in rw here (omega arith)
    in_row (suc k) lt =
        let there : lo + suc k ≡ suc (lo + k) = omega arith in
        rw there (
          l.behind (lo + k) (omega arith) (omega arith)
          ∙ rw (in_row k (omega arith), one_degree (lo + k) (omega arith) (omega arith))
              (next_begin (g.adjlists lo).begin k (g.adjlists lo).degree))

    pub is_uniform : IsUniform g lo hi
    is_uniform = record {
      same = one_degree;
      behind = λ v from below.
          let e' : lo + (v - lo) ≡ v = omega arith in
          subst
            (λ x. (g.adjlists x).begin ≡ (g.adjlists lo).begin + (v - lo) * (g.adjlists lo).degree)
            e' (in_row (v - lo) (omega arith));
      small = l.small lo (omega arith) l.ordered;
      bounded = l.bounded;
    }
