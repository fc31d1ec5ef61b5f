-- ===== src/Evm/Asm/Push.antt =====
-- The immediates that crates/covenant-evm-backend/src/asm.rs pushes for a `u32`.
use covenant_language.Base.{
  ℕ, ◌+◌, ◌*◌, ◌^◌, ◌≤◌, ◌<◌, ◌≡◌, ◌≢◌, some, List, [], ◌∷◌, arith, length, get_elem?,
}
use covenant_language.Evm.Asm.{trimmed_bytes}

-- The number that big-endian bytes stand for, behind the digits read so far.
unfoldable pub be_value : ℕ → List ℕ → ℕ
be_value acc [] = acc
be_value acc (b ∷ bs) = be_value (acc * 256 + b) bs

-- The immediate of a `u32` reads back as it, in one to four bytes, and of a number other than zero
-- it has no leading zero.
pub trimmed_bytes_lem :
    (v : ℕ)
    → v < 2 ^ 32
    → (be_value 0 (trimmed_bytes v) ≡ v)
      × (1 ≤ length (trimmed_bytes v))
      × (length (trimmed_bytes v) ≤ 4)
      × (v ≢ 0 → get_elem? (trimmed_bytes v) 0 ≢ some 0)
unfolding be_value trimmed_bytes
trimmed_bytes_lem v h = (ground arith, ground arith, ground arith, ground arith)
