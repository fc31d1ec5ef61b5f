-- ===== src/Runtime/U256/Mul.antt =====
-- `wrapping_mul` of crates/covenant-evm-runtime/src/u256.rs, on lists of limbs, the least one first.
pub mod Product
use covenant_language.Base.{ℕ, ◌+◌, ◌*◌, ◌/◌, ◌%◌, ◌^◌, List, [], ◌∷◌, get_or}
use covenant_language.Runtime.U256.{U256, limbs}

-- The inner loop: the products of one limb with those of the other word are added to the limbs of
-- the result from one place on, as far as these reach. The sum is below 2 ^ 128, a `u128`.
unfoldable pub mul_row : ℕ → ℕ → List ℕ → List ℕ → List ℕ
mul_row x carry (y ∷ ys) (o ∷ os) =
    let prod = x * y + o + carry in prod % 2 ^ 64 ∷ mul_row x (prod / 2 ^ 64) ys os
mul_row x carry _ _ = []

-- The outer loop, from one limb on: a row settles the limb of the result at its place.
unfoldable pub mul_limbs : List ℕ → List ℕ → List ℕ → List ℕ
unfolding mul_row
mul_limbs [] ys out = out
mul_limbs (x ∷ xs) ys out = elim (mul_row x 0 ys out) [ [] ↦ [] | r ∷ rs ↦ r ∷ mul_limbs xs ys rs ]

abbrev pub limb_list : U256 → List ℕ
limb_list a = a.limb0 ∷ a.limb1 ∷ a.limb2 ∷ a.limb3 ∷ []

abbrev pub from_list : List ℕ → U256
from_list ls = limbs (get_or ls 0 0) (get_or ls 1 0) (get_or ls 2 0) (get_or ls 3 0)

unfoldable pub wrapping_mul : U256 → U256 → U256
unfolding mul_limbs
wrapping_mul a b = from_list (mul_limbs (limb_list a) (limb_list b) (0 ∷ 0 ∷ 0 ∷ 0 ∷ []))
