-- ===== src/Examples/Sampling.antt =====
-- Samples of the ring.
use flashmob.Prelude.{◌≤◌, ◌<◌, ◌≡◌, arith}
use flashmob.Sampler.{
  IsNeighbor, ExclusiveBufferSampler, init_buffer, sample_buffer, init_uniform, sample_uniform,
  sample_direct,
}
use flashmob.Sampler.Buffer.{IsBuffer, sample_buffer_lem}
use flashmob.Sampler.Init.{init_buffer_lem, init_range}
use flashmob.Sampler.Direct.{sample_uniform-eq-direct}
use flashmob.Sampler.Dispatch.{IsSound, LiesIn, sample_partition, sample_partition-IsSampler}
use flashmob.Walk.Blocks.{IsSampler}
use flashmob.Examples.Data.{
  ring, counting, counting-IsGen, blank, ring-Fits, ring-IsUniform, first, last,
}

init_buffer_example : IsBuffer ring (init_buffer ring 0 2 blank)
init_buffer_example = init_buffer_lem ring 0 2 blank ring-Fits

sample_uniform_example :
    sample_uniform counting ring (init_uniform ring 2 4) 3 7 ≡ sample_direct counting ring 3 7
sample_uniform_example =
    sample_uniform-eq-direct counting-IsGen ring 2 4 3 7 ring-IsUniform (omega arith) (omega arith)
      (omega arith)

abbrev sampler : ExclusiveBufferSampler
sampler = init_buffer ring 0 2 blank

in_part : (sampler.vertex_begin ≤ 1) × (1 < sampler.vertex_end)
in_part = omega (arith, init_range ring 0 2 blank ring-Fits)

sample_buffer_example :
    IsNeighbor ring 1 (sample_buffer counting ring 1 sampler 7).0
    × IsBuffer ring (sample_buffer counting ring 1 sampler 7).1
    × ((sample_buffer counting ring 1 sampler 7).1.vertex_begin ≡ sampler.vertex_begin)
    × ((sample_buffer counting ring 1 sampler 7).1.vertex_end ≡ sampler.vertex_end)
sample_buffer_example =
    sample_buffer_lem counting-IsGen ring sampler (init_buffer_lem ring 0 2 blank ring-Fits) 1
      in_part 7

sample_partition_example :
    IsSampler
      (sample_partition counting ring)
      (IsSound counting-IsGen ring first last)
      (LiesIn counting-IsGen ring first last)
      (IsNeighbor ring)
sample_partition_example = sample_partition-IsSampler counting-IsGen ring first last
