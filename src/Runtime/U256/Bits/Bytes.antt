-- ===== src/Runtime/U256/Bits/Bytes.antt =====
-- The words of crates/covenant-evm-runtime/src/u256.rs and their bytes.
use covenant_language.Base.{ℕ, ◌^◌, ◌<◌, ◌≡◌, arith}
use covenant_language.Runtime.U256.{U256, limbs}
use covenant_language.Runtime.U256.Value.{IsWord}
use covenant_language.Runtime.U256.Bits.{be_bytes, from_be, to_be_bytes, from_be_bytes}

from_be-be_bytes : (v : ℕ) → v < 2 ^ 64 → from_be (be_bytes v) 0 ≡ v
from_be-be_bytes v h = omega (arith, h)

-- A word whose limbs are `u64`s reads back from its thirty-two bytes.
pub from_be_bytes-to_be_bytes : (a : U256) → IsWord a → from_be_bytes (to_be_bytes a) ≡ a
unfolding from_be_bytes to_be_bytes
from_be_bytes-to_be_bytes a h i =
    limbs (from_be-be_bytes a.limb0 h.below0 i) (from_be-be_bytes a.limb1 h.below1 i)
      (from_be-be_bytes a.limb2 h.below2 i) (from_be-be_bytes a.limb3 h.below3 i)
