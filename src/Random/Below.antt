-- ===== src/Random/Below.antt =====
-- include/random.hpp: the generators against what the samplers ask of one.
use native.Mathlib.Nat.{mod-lt}
use flashmob.Random.{xor_gen, mul_gen}
use flashmob.Sampler.Buffer.{IsGen}

-- Both generators give a number below every positive bound, from every seed, which is what the
-- samplers ask of a generator.
pub generators-IsGen : IsGen xor_gen × IsGen mul_gen
unfolding xor_gen mul_gen
generators-IsGen =
    (record { below = λ bound r pos. mod-lt _ pos }, record { below = λ bound r pos. mod-lt _ pos })
