-- ===== src/Runtime/U256/Bits.antt =====
-- The bitwise operations, the shifts and the conversions of crates/covenant-evm-runtime/src/u256.rs.
-- A `usize` has 64 bits.
pub mod Bytes
use Prim.Native.Nat.{bit_and, bit_or, bit_xor, Ordering}
use covenant_language.Base.{
  ℕ, ◌+◌, ◌-◌, ◌*◌, ◌/◌, ◌%◌, ◌^◌, Bool, true, false, not, ◌&&◌, List, [], ◌∷◌, ◌++◌, ◌==◌, ltb,
  leb, get_or, if◌then◌else◌,
}
use covenant_language.Runtime.U256.{U256, limbs, fits_u64, cmp, zero_word, one_word}
use covenant_language.Runtime.U256.Mul.{limb_list}

-- The operation on each pair of limbs.
abbrev pub each_limb : (ℕ → ℕ → ℕ) → U256 → U256 → U256
each_limb f a b =
    limbs (f a.limb0 b.limb0) (f a.limb1 b.limb1) (f a.limb2 b.limb2) (f a.limb3 b.limb3)

unfoldable pub bitand : U256 → U256 → U256
bitand a b = each_limb bit_and a b

unfoldable pub bitor : U256 → U256 → U256
bitor a b = each_limb bit_or a b

unfoldable pub bitxor : U256 → U256 → U256
bitxor a b = each_limb bit_xor a b

-- Limb `i` of the left shift; `checked_sub` fails below zero.
unfoldable pub shl_limb : U256 → ℕ → ℕ → ℕ → ℕ
shl_limb a word_shift bit_shift i =
    let src = if leb word_shift i then get_or (limb_list a) (i - word_shift) 0 else 0 in
    let lower_src =
      if leb (word_shift + 1) i then get_or (limb_list a) (i - word_shift - 1) 0 else 0 in
    if bit_shift == 0
    then src
    else bit_or (src * 2 ^ bit_shift % 2 ^ 64) (lower_src / 2 ^ (64 - bit_shift))

unfoldable pub shl : U256 → ℕ → U256
unfolding shl_limb
shl a shift =
    let ws = shift / 64 in
    let bs = shift % 64 in
    if leb 256 shift
    then zero_word
    else limbs (shl_limb a ws bs 0) (shl_limb a ws bs 1) (shl_limb a ws bs 2) (shl_limb a ws bs 3)

-- Limb `i` of the right shift; a limb past the fourth is zero.
unfoldable pub shr_limb : U256 → ℕ → ℕ → ℕ → ℕ
shr_limb a word_shift bit_shift i =
    let src = get_or (limb_list a) (i + word_shift) 0 in
    let upper_src = get_or (limb_list a) (i + word_shift + 1) 0 in
    if bit_shift == 0
    then src
    else bit_or (src / 2 ^ bit_shift) (upper_src * 2 ^ (64 - bit_shift) % 2 ^ 64)

unfoldable pub shr : U256 → ℕ → U256
unfolding shr_limb
shr a shift =
    let ws = shift / 64 in
    let bs = shift % 64 in
    if leb 256 shift
    then zero_word
    else limbs (shr_limb a ws bs 0) (shr_limb a ws bs 1) (shr_limb a ws bs 2) (shr_limb a ws bs 3)

-- `usize::MAX`.
abbrev pub usize_max : ℕ
usize_max = 2 ^ 64 - 1

unfoldable pub as_usize_saturating : U256 → ℕ
unfolding fits_u64
as_usize_saturating a =
    if not (fits_u64 a) then usize_max else if ltb (2 ^ 32 - 1) a.limb0 then usize_max else a.limb0

-- `U256::from(bool)`.
abbrev pub from_bool : Bool → U256
from_bool true = one_word
from_bool false = zero_word

-- `<` by `Ord::cmp`, and the derived `==`.
abbrev pub less : U256 → U256 → Bool
less a b = elim (cmp a b) [ Ordering.lt ↦ true | _ ↦ false ]

abbrev pub word_eq : U256 → U256 → Bool
word_eq a b =
    a.limb0 == b.limb0 && (a.limb1 == b.limb1 && (a.limb2 == b.limb2 && a.limb3 == b.limb3))

-- `u64::to_be_bytes` and `u64::from_be_bytes`.
abbrev pub be_bytes : ℕ → List ℕ
be_bytes v =
    v / 2 ^ 56 % 256
    ∷ v / 2 ^ 48 % 256
    ∷ v / 2 ^ 40 % 256
    ∷ v / 2 ^ 32 % 256
    ∷ v / 2 ^ 24 % 256
    ∷ v / 2 ^ 16 % 256
    ∷ v / 2 ^ 8 % 256
    ∷ v % 256
    ∷ []

abbrev pub from_be : List ℕ → ℕ → ℕ
from_be bs start =
    2 ^ 56 * get_or bs start 0
    + 2 ^ 48 * get_or bs (start + 1) 0
    + 2 ^ 40 * get_or bs (start + 2) 0
    + 2 ^ 32 * get_or bs (start + 3) 0
    + 2 ^ 24 * get_or bs (start + 4) 0
    + 2 ^ 16 * get_or bs (start + 5) 0
    + 2 ^ 8 * get_or bs (start + 6) 0
    + get_or bs (start + 7) 0

-- The words are big-endian: the greatest limb comes first.
unfoldable pub to_be_bytes : U256 → List ℕ
to_be_bytes a = be_bytes a.limb3 ++ be_bytes a.limb2 ++ be_bytes a.limb1 ++ be_bytes a.limb0

unfoldable pub from_be_bytes : List ℕ → U256
from_be_bytes bs = limbs (from_be bs 24) (from_be bs 16) (from_be bs 8) (from_be bs 0)
