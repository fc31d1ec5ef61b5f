-- ===== src/Runtime/U256/Mul/Product.antt =====
-- Multiplication of words (crates/covenant-evm-runtime/src/u256.rs) against that of their numbers.
use covenant_language.Base.{
  ℕ, suc, ◌+◌, ◌*◌, ◌/◌, ◌%◌, ◌^◌, ◌≤◌, ◌<◌, ◌≡◌, refl, sym, ap, List, [], ◌∷◌, arith, length, All,
}
use covenant_language.Runtime.U256.{U256}
use covenant_language.Runtime.U256.Value.{value}
use covenant_language.Runtime.U256.Mul.{mul_row, mul_limbs, limb_list, wrapping_mul}

-- The number that limbs stand for, and the first number that they cannot reach.
unfoldable num : List ℕ → ℕ
num [] = 0
num (d ∷ ds) = d + (2 ^ 64) * num ds

unfoldable weight : List ℕ → ℕ
weight [] = 1
weight (d ∷ ds) = (2 ^ 64) * weight ds

abbrev Below : List ℕ → Type 0
Below = All (λ d. d < 2 ^ 64)

num-weight : (ds : List ℕ) → Below ds → num ds < weight ds
unfolding num weight
num-weight [] h = omega arith
num-weight (d ∷ ds) h = omega (arith, h.0, num-weight ds h.1)

-- A row adds the product and the carry, up to a multiple of the weight of the result's limbs.
mul_row-num :
    (x carry : ℕ) (ys out : List ℕ)
    → length out ≤ length ys
    → (k : ℕ) × (x * num ys + num out + carry ≡ num (mul_row x carry ys out) + weight out * k)
unfolding mul_row num weight
mul_row-num x carry [] [] h = (carry, omega arith)
mul_row-num x carry (y ∷ ys) [] h = (x * num (y ∷ ys) + carry, omega arith)
mul_row-num x carry [] (o ∷ out) h = (0, omega (arith, h))
mul_row-num x carry (y ∷ ys) (o ∷ out) h =
    let prod = x * y + o + carry in
    let (k, e) = mul_row-num x (prod / 2 ^ 64) ys out (omega (arith, h)) in (k, omega (arith, e))

mul_row-weight :
    (x carry : ℕ) (ys out : List ℕ)
    → length out ≤ length ys
    → weight (mul_row x carry ys out) ≡ weight out
unfolding mul_row weight
mul_row-weight x carry [] [] h = refl
mul_row-weight x carry (y ∷ ys) [] h = refl
mul_row-weight x carry [] (o ∷ out) h = omega (arith, h)
mul_row-weight x carry (y ∷ ys) (o ∷ out) h =
    ap (λ w. (2 ^ 64) * w)
      (mul_row-weight x ((x * y + o + carry) / 2 ^ 64) ys out (omega (arith, h)))

mul_row-length :
    (x carry : ℕ) (ys out : List ℕ)
    → length out ≤ length ys
    → length (mul_row x carry ys out) ≡ length out
unfolding mul_row
mul_row-length x carry [] [] h = refl
mul_row-length x carry (y ∷ ys) [] h = refl
mul_row-length x carry [] (o ∷ out) h = omega (arith, h)
mul_row-length x carry (y ∷ ys) (o ∷ out) h =
    ap suc (mul_row-length x ((x * y + o + carry) / 2 ^ 64) ys out (omega (arith, h)))

mul_row-Below : (x carry : ℕ) (ys out : List ℕ) → Below (mul_row x carry ys out)
unfolding mul_row
mul_row-Below x carry (y ∷ ys) (o ∷ out) =
    (omega arith, mul_row-Below x ((x * y + o + carry) / 2 ^ 64) ys out)
mul_row-Below x carry [] out = tt
mul_row-Below x carry (y ∷ ys) [] = tt

mul_limbs-num :
    (xs ys out : List ℕ)
    → length xs ≡ length out
    → length out ≤ length ys
    → (k : ℕ) × (num xs * num ys + num out ≡ num (mul_limbs xs ys out) + weight out * k)
unfolding mul_limbs mul_row num weight
mul_limbs-num [] ys out e h = (0, omega arith)
mul_limbs-num (x ∷ xs) ys [] e h = (0, omega (arith, e))
mul_limbs-num (x ∷ xs) [] (o ∷ out) e h = (0, omega (arith, h))
mul_limbs-num (x ∷ xs) (y ∷ ys) (o ∷ out) e h =
    let c = (x * y + o + 0) / 2 ^ 64 in
    let short : length out ≤ length ys = omega (arith, h) in
    let (j, p) = mul_row-num x 0 (y ∷ ys) (o ∷ out) h in
    let (k, q) =
      mul_limbs-num xs (y ∷ ys) (mul_row x c ys out)
        (omega (arith, e, mul_row-length x c ys out short))
        (omega (arith, h, mul_row-length x c ys out short)) in
    (j + k, omega (arith, p, q, ap (λ w. w * k) (mul_row-weight x c ys out short)))

mul_limbs-Below : (xs ys out : List ℕ) → Below out → Below (mul_limbs xs ys out)
unfolding mul_limbs mul_row
mul_limbs-Below [] ys out h = h
mul_limbs-Below (x ∷ xs) [] [] h = tt
mul_limbs-Below (x ∷ xs) (y ∷ ys) [] h = tt
mul_limbs-Below (x ∷ xs) [] (o ∷ out) h = tt
mul_limbs-Below (x ∷ xs) (y ∷ ys) (o ∷ out) h =
    (omega arith, mul_limbs-Below xs (y ∷ ys) _ (mul_row-Below x _ ys out))

num-limb_list : (a : U256) → num (limb_list a) ≡ value a
unfolding num value
num-limb_list a = omega arith

module _ (a b : U256) where
  abbrev zeros : List ℕ
  zeros = 0 ∷ 0 ∷ 0 ∷ 0 ∷ []

  abbrev product : List ℕ
  product = mul_limbs (limb_list a) (limb_list b) zeros

  product-value : value (wrapping_mul a b) ≡ num product
  unfolding wrapping_mul mul_limbs mul_row
  product-value = sym (num-limb_list (wrapping_mul a b))

  product_bound : num product < 2 ^ 256
  unfolding mul_limbs mul_row weight
  product_bound = num-weight product (
      mul_limbs-Below (limb_list a) (limb_list b) zeros
        (omega arith, (omega arith, (omega arith, (omega arith, tt)))))

  product-num : (k : ℕ) × (num (limb_list a) * num (limb_list b) ≡ num product + (2 ^ 256) * k)
  unfolding num weight
  product-num =
      let (k, p) = mul_limbs-num (limb_list a) (limb_list b) zeros refl (omega arith) in
      (k, omega (arith, p))

-- Multiplication is that of the numbers, modulo 2 ^ 256, whatever the limbs.
pub value-wrapping_mul : (a b : U256) → value (wrapping_mul a b) ≡ value a * value b % 2 ^ 256
value-wrapping_mul a b =
    let (k, p) = product-num a b in
    rw (product-value a b, ← num-limb_list a, ← num-limb_list b, p)
      (omega (arith, product_bound a b))
