-- ===== src/Random.antt =====
-- include/random.hpp: the two generators that keep a 64-bit seed, as functions of the seed. A
-- generator returns a number below its bound and the next seed.
pub mod Below
use Prim.Native.Nat.{bit_xor}
use flashmob.Prelude.{ℕ, ◌+◌, ◌*◌, ◌/◌, ◌%◌, ◌^◌}
use flashmob.Prelude.Words.{u32, u64}

-- seed ^= seed >> 12; seed ^= seed << 25; seed ^= seed >> 27;
pub xorshift : ℕ → ℕ
xorshift seed =
    let a = bit_xor seed (seed / 2 ^ 12) in
    let b = bit_xor a (u64 (a * 2 ^ 25)) in bit_xor b (b / 2 ^ 27)

-- XorRandGen::gen
pub xor_gen : ℕ → ℕ → ℕ × ℕ
unfolding xorshift
xor_gen upper_bound seed = (u32 (seed * 0x2545F4914F6CDD1D) % upper_bound, xorshift seed)

-- MulRandGen::gen
pub mul_gen : ℕ → ℕ → ℕ × ℕ
mul_gen upper_bound seed = (u32 seed % upper_bound, u64 (seed * 25214903917 + 11))
