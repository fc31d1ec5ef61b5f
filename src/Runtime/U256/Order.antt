-- ===== src/Runtime/U256/Order.antt =====
-- The comparisons of crates/covenant-evm-runtime/src/u256.rs are those of the numbers.
use covenant_language.Base.{ℕ, ◌≡◌, refl, Bool, true, false, ◌==◌, ltb, arith}
use covenant_language.Runtime.U256.{U256}
use covenant_language.Runtime.U256.Value.{IsWord, value, cmp_lem}
use covenant_language.Runtime.U256.Bits.{from_bool, less, word_eq}

pub less_lem : (a b : U256) → IsWord a → IsWord b → less a b ≡ ltb (value a) (value b)
less_lem a b h g = rw (cmp_lem a b h g, less) refl

pub word_eq_lem : (a b : U256) → IsWord a → IsWord b → word_eq a b ≡ (value a == value b)
unfolding value
word_eq_lem a b h k =
    ground (arith, h.below0, h.below1, h.below2, h.below3, k.below0, k.below1, k.below2, k.below3)

-- A truth value as a word.
abbrev pub flag : Bool → ℕ
flag true = 1
flag false = 0

pub value-from_bool : (b : Bool) → value (from_bool b) ≡ flag b
unfolding value
value-from_bool true = refl
value-from_bool false = refl
