-- ===== src/Codec/Words.antt =====
-- Little-endian words: what is written is read back.
use kvgo.Common.{ap, arith, length, refl, suc, u64_mod, zero, ℕ, ◌*◌, ◌/◌, ◌<◌, ◌≡◌}
use kvgo.Codec.{le_bytes, from_le}

-- 256 ^ n
pub byte_limit : ℕ → ℕ
byte_limit zero = 1
byte_limit (suc n) = 256 * byte_limit n

pub length-le_bytes : (n v : ℕ) → length (le_bytes n v) ≡ n
unfolding le_bytes
length-le_bytes zero v = refl
length-le_bytes (suc n) v = ap suc (length-le_bytes n (v / 256))

from_le-le_bytes : (n v : ℕ) → v < byte_limit n → from_le (le_bytes n v) ≡ v
unfolding le_bytes from_le byte_limit
from_le-le_bytes zero v h = omega arith
from_le-le_bytes (suc n) v h = omega (arith, from_le-le_bytes n (v / 256) (omega arith))

pub from_le-u64 : (v : ℕ) → v < u64_mod → from_le (le_bytes 8 v) ≡ v
unfolding byte_limit
from_le-u64 v h = from_le-le_bytes 8 v h

pub from_le-u32 : (v : ℕ) → v < 4294967296 → from_le (le_bytes 4 v) ≡ v
unfolding byte_limit
from_le-u32 v h = from_le-le_bytes 4 v h
