-- ===== src/Examples/Data.antt =====
-- A graph of four vertices, each with edges to the next two, in partitions {0, 1} and {2, 3}; its
-- samplers, one of them with buffers; and a generator that counts.
use flashmob.Prelude.{ℕ, zero, suc, ◌+◌, ◌*◌, ◌/◌, ◌%◌, refl, arith}
use flashmob.Prelude.Loops.{sum_below}
use native.Mathlib.Nat.{mod-lt}
use flashmob.Graph.{GroupTable}
use flashmob.Sampler.{Adjacency, init_buffer, init_uniform}
use flashmob.Sampler.Buffer.{IsGen}
use flashmob.Sampler.Init.{Fits, get_edge_buffer_length-le}
use flashmob.Sampler.Direct.{IsUniform}
use flashmob.Sampler.Dispatch.{Sampler, World, exclusive, direct, uniform}

abbrev pub table : GroupTable
table = record {
  group_bits = 2;
  group_mask = 3;
  groups = λ s g. record { partition_bits = 1; partition_offset = 0 };
}

abbrev pub ring : Adjacency
ring = record {
  adjlists = λ v. record { degree = 2; begin = 2 * v };
  neighbor = λ e. (e / 2 + e % 2 + 1) % 4;
}

abbrev pub counting : ℕ → ℕ → ℕ × ℕ
counting bound r = (r % bound, suc r)

pub counting-IsGen : IsGen counting
counting-IsGen = record { below = λ bound r pos. mod-lt r pos }

abbrev pub blank : ℕ → ℕ
blank i = 0

pub ring-Fits : Fits ring 0 2
unfolding sum_below
ring-Fits = record {
  ordered = omega arith;
  bounded = omega arith;
  degree_pos = λ v from below. omega arith;
  degree_small = λ v from below. omega arith;
  units_small = omega (
    arith,
    get_edge_buffer_length-le ring 0 (omega arith),
    get_edge_buffer_length-le ring 1 (omega arith),
  );
}

pub ring-IsUniform : IsUniform ring 2 4
ring-IsUniform = record {
  same = λ v from below. refl;
  behind = λ v from below. omega arith;
  small = omega arith;
  bounded = omega arith;
}

abbrev pub samplers : ℕ → Sampler
samplers zero = exclusive (init_buffer ring 0 2 blank)
samplers (suc zero) = uniform (init_uniform ring 2 4)
samplers (suc (suc p)) = direct

abbrev pub world : World ℕ
world = record { samplers = samplers; rng = 5 }

abbrev pub first : ℕ → ℕ
first p = 2 * p

abbrev pub last : ℕ → ℕ
last p = 2 * p + 2
