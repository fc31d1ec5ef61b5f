-- ===== src/Runtime/Bytes.antt =====
-- Byte sequences of the test runtime (crates/covenant-evm-runtime/src): slices with their panic, and
-- fixed-width reads that pad with zeros. A byte is a number below 256.
use covenant_language.Base.{
  ℕ, zero, suc, ◌+◌, ◌≡◌, refl, ap, Bool, true, false, ◌&&◌, Option, none, some, List, [], ◌∷◌,
  ◌++◌, ◌==◌, ==-refl, leb, ◌%◌, ◌^◌, get_or, if◌then◌else◌, length, drop, arith,
}

-- `==` of byte arrays.
abbrev pub bytes_eq : List ℕ → List ℕ → Bool
bytes_eq [] [] = true
bytes_eq (x ∷ xs) (y ∷ ys) = x == y && bytes_eq xs ys
bytes_eq _ _ = false

pub bytes_eq_refl : (bs : List ℕ) → bytes_eq bs bs ≡ true
bytes_eq_refl [] = refl
bytes_eq_refl (b ∷ bs) = rw (==-refl b) (bytes_eq_refl bs)

-- The first `n` bytes, with zeros past the end.
abbrev pub window : ℕ → List ℕ → List ℕ
window zero bs = []
window (suc n) [] = 0 ∷ window n []
window (suc n) (b ∷ bs) = b ∷ window n bs

pub window-append : (n : ℕ) (xs ys : List ℕ) → length xs ≡ n → window n (xs ++ ys) ≡ xs
window-append zero [] ys h = refl
window-append zero (x ∷ xs) ys h = ground (arith, h)
window-append (suc n) [] ys h = ground (arith, h)
window-append (suc n) (x ∷ xs) ys h = ap (λ bs. x ∷ bs) (window-append n xs ys (omega (arith, h)))

pub length-window : (n : ℕ) (bs : List ℕ) → length (window n bs) ≡ n
length-window zero bs = refl
length-window (suc n) [] = omega (arith, length-window n [])
length-window (suc n) (b ∷ bs) = omega (arith, length-window n bs)

pub drop-append : (n : ℕ) (xs ys : List ℕ) → length xs ≡ n → drop n (xs ++ ys) ≡ ys
drop-append zero [] ys h = refl
drop-append zero (x ∷ xs) ys h = ground (arith, h)
drop-append (suc n) [] ys h = ground (arith, h)
drop-append (suc n) (x ∷ xs) ys h = drop-append n xs ys (omega (arith, h))

abbrev pub take : ℕ → List ℕ → List ℕ
take zero bs = []
take (suc n) [] = []
take (suc n) (b ∷ bs) = b ∷ take n bs

-- `&bytes[offset..offset + len]`; `none` is the panic.
abbrev pub slice : List ℕ → ℕ → ℕ → Option (List ℕ)
slice bs offset len =
    if leb (offset + len) (length bs) then some (window len (drop offset bs)) else none

-- The bytes from `offset` on, replaced as far as there are some.
abbrev pub overwrite : ℕ → List ℕ → List ℕ → List ℕ
overwrite offset bs [] = []
overwrite zero [] (m ∷ ms) = m ∷ ms
overwrite zero (b ∷ bs) (m ∷ ms) = b ∷ overwrite zero bs ms
overwrite (suc offset) bs (m ∷ ms) = m ∷ overwrite offset bs ms

pub length-overwrite : (offset : ℕ) (bs ms : List ℕ) → length (overwrite offset bs ms) ≡ length ms
length-overwrite offset bs [] = refl
length-overwrite zero [] (m ∷ ms) = refl
length-overwrite zero (b ∷ bs) (m ∷ ms) = omega (arith, length-overwrite zero bs ms)
length-overwrite (suc offset) bs (m ∷ ms) = omega (arith, length-overwrite offset bs ms)

-- `n` bytes from an offset that is counted on modulo 2 ^ 64 (`wrapping_add`), zeros past the end.
abbrev pub wrapping_window : ℕ → ℕ → List ℕ → List ℕ
wrapping_window zero offset bs = []
wrapping_window (suc n) offset bs =
    get_or bs (offset % 2 ^ 64) 0 ∷ wrapping_window n (offset + 1) bs
