-- ===== src/Threads.antt =====
-- include/type.hpp, MultiThreadConfig: the socket of a thread and its place there; and
-- include/util.hpp: the exponents of powers of two.
pub mod Places
use Prim.Native.Nat.{bit_and}
use flashmob.Prelude.{
  ℕ, zero, suc, ◌+◌, ◌*◌, ◌-◌, ◌/◌, ◌%◌, ◌^◌, Option, none, some, ltb, ◌==◌, ◌&&◌, not,
  if◌then◌else◌,
}
use flashmob.Prelude.Words.{sub32}

pub record MultiThreadConfig : Type 0 where
  pub thread_num : ℕ
  pub socket_num : ℕ

pub socket_thread_num : MultiThreadConfig → ℕ
socket_thread_num c = c.thread_num / c.socket_num

pub socket_id : MultiThreadConfig → ℕ → ℕ
socket_id c thread = thread / (c.thread_num / c.socket_num)

pub socket_offset : MultiThreadConfig → ℕ → ℕ
socket_offset c thread = thread % (c.thread_num / c.socket_num)

-- The loop of value2bit, over 32-bit values. `none` if the fuel runs out.
pub halve : ℕ → ℕ → ℕ → Option ℕ
halve zero val bit = none
halve (suc fuel) val bit =
    let rest = halve fuel (val / 2) (bit + 1) in if ltb 1 val then rest else some bit

-- CHECK((val & (val - 1)) == 0) and CHECK(val != 0)
pub value2bit : ℕ → Option ℕ
unfolding halve
value2bit val = if (bit_and val (sub32 val 1) == 0) && not (val == 0) then halve 32 val 0 else none

unfoldable pub bit2value : ℕ → ℕ
bit2value bit = 2 ^ bit % 2 ^ 32
