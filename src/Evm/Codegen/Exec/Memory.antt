-- ===== src/Evm/Codegen/Exec/Memory.antt =====
-- The words of the memory in crates/covenant-evm-runtime/src/evm.rs: a store of 32 bytes changes those
-- bytes only, and a growth of the memory changes no word.
use covenant_language.Base.{
  ℕ, zero, suc, ◌+◌, ◌-◌, ◌^◌, ◌≤◌, ◌<◌, ◌≡◌, ◌⊎◌, inl, inr, refl, ap, ◌∙◌, sym, true, false, some,
  List, [], ◌∷◌, ◌++◌, arith, length, length-append, drop, leb, ltb, Bool-cases,
}
use mathlib.Core.List.{append-nil}
use covenant_language.Runtime.Bytes.{window, slice, overwrite, window-append, length-window}
use covenant_language.Runtime.U256.Bits.{usize_max}
use covenant_language.Runtime.Evm.{memory_expand}

-- The 32 bytes from an offset on, zeros past the end.
unfoldable pub word_bytes : ℕ → List ℕ → List ℕ
word_bytes p mem = window 32 (drop p mem)

-- The memory grown to hold the word at an offset.
unfoldable pub grow : ℕ → List ℕ → List ℕ
grow p mem = mem ++ window (p + 32 - length mem) []

pub length-grow : (p : ℕ) (mem : List ℕ) → p + 32 ≤ length (grow p mem)
unfolding grow
length-grow p mem = omega (
  arith,
  length-append mem (window (p + 32 - length mem) []),
  length-window (p + 32 - length mem) [],
)

grow_short : (p : ℕ) (mem : List ℕ) → p + 32 ≤ length mem → grow p mem ≡ mem
unfolding grow
grow_short p mem h =
    let e : p + 32 - length mem ≡ 0 = omega (arith, h) in
    ap (λ n. mem ++ window n []) e ∙ append-nil mem

pub memory_expand-grow :
    (p : ℕ) (mem : List ℕ) → p < 2 ^ 62 → memory_expand mem p 32 ≡ some (grow p mem)
unfolding memory_expand grow
memory_expand-grow p mem h =
    let small : leb (p + 32) usize_max ≡ true = ground (arith, h) in
    let fits : leb (2 ^ 63) (p + 32) ≡ false = ground (arith, h) in
    elim (Bool-cases (ltb (length mem) (p + 32))) [
      | inl e ↦ rw (small, e, fits) refl
      | inr e ↦ rw (small, e) (ap some (sym (grow_short p mem (ground (arith, e)))))
    ]

window-zeros : (n k : ℕ) (bs : List ℕ) → window n (bs ++ window k []) ≡ window n bs
window-zeros zero k bs = refl
window-zeros (suc n) zero [] = refl
window-zeros (suc n) (suc k) [] = ap (λ ms. 0 ∷ ms) (window-zeros n k [])
window-zeros (suc n) k (b ∷ bs) = ap (λ ms. b ∷ ms) (window-zeros n k bs)

drop-zeros : (p k : ℕ) → drop p (window k []) ≡ window (k - p) []
drop-zeros zero k = let e : k ≡ k - 0 = omega arith in ap (λ n. window n []) e
drop-zeros (suc p) zero = let e : 0 ≡ 0 - suc p = omega arith in ap (λ n. window n []) e
drop-zeros (suc p) (suc k) =
    let e : k - p ≡ suc k - suc p = omega arith in drop-zeros p k ∙ ap (λ n. window n []) e

window-drop_zeros :
    (n p k : ℕ) (mem : List ℕ) → window n (drop p (mem ++ window k [])) ≡ window n (drop p mem)
window-drop_zeros n zero k mem = window-zeros n k mem
window-drop_zeros n (suc p) k [] = ap (window n) (drop-zeros (suc p) k) ∙ window-zeros n _ []
window-drop_zeros n (suc p) k (m ∷ mem) = window-drop_zeros n p k mem

pub word_bytes-grow : (p q : ℕ) (mem : List ℕ) → word_bytes p (grow q mem) ≡ word_bytes p mem
unfolding word_bytes grow
word_bytes-grow p q mem = window-drop_zeros 32 p (q + 32 - length mem) mem

pub slice-grow : (p : ℕ) (mem : List ℕ) → slice (grow p mem) p 32 ≡ some (word_bytes p mem)
unfolding word_bytes
slice-grow p mem =
    let fits : leb (p + 32) (length (grow p mem)) ≡ true = ground (arith, length-grow p mem) in
    rw fits (ap some (word_bytes-grow p p mem))

overwrite_here :
    (bs mem : List ℕ) → length bs ≤ length mem → overwrite zero bs mem ≡ bs ++ drop (length bs) mem
overwrite_here [] [] h = refl
overwrite_here [] (m ∷ mem) h = refl
overwrite_here (b ∷ bs) [] h = ground (arith, h)
overwrite_here (b ∷ bs) (m ∷ mem) h = ap (λ ms. b ∷ ms) (overwrite_here bs mem (omega (arith, h)))

window-overwrite :
    (p : ℕ) (bs mem : List ℕ)
    → p + length bs ≤ length mem
    → window (length bs) (drop p (overwrite p bs mem)) ≡ bs
window-overwrite zero bs mem h =
    ap (window (length bs)) (overwrite_here bs mem (omega (arith, h)))
    ∙ window-append (length bs) bs _ refl
window-overwrite (suc p) bs [] h = ground (arith, h)
window-overwrite (suc p) bs (m ∷ mem) h = window-overwrite p bs mem (omega (arith, h))

pub word_bytes-overwrite :
    (p : ℕ) (bs mem : List ℕ)
    → length bs ≡ 32
    → p + 32 ≤ length mem
    → word_bytes p (overwrite p bs mem) ≡ bs
unfolding word_bytes
word_bytes-overwrite p bs mem e h =
    ap (λ n. window n (drop p (overwrite p bs mem))) (sym e)
    ∙ window-overwrite p bs mem (omega (arith, e, h))

window_before : (n p : ℕ) (bs mem : List ℕ) → n ≤ p → window n (overwrite p bs mem) ≡ window n mem
window_before zero p bs mem h = refl
window_before (suc n) p bs [] h = refl
window_before (suc n) zero bs (m ∷ mem) h = ground (arith, h)
window_before (suc n) (suc p) bs (m ∷ mem) h =
    ap (λ ms. m ∷ ms) (window_before n p bs mem (omega (arith, h)))

window_below :
    (n p q : ℕ) (bs mem : List ℕ)
    → q + n ≤ p
    → window n (drop q (overwrite p bs mem)) ≡ window n (drop q mem)
window_below n p zero bs mem h = window_before n p bs mem (omega (arith, h))
window_below n p (suc q) bs [] h = refl
window_below n zero (suc q) bs (m ∷ mem) h = ground (arith, h)
window_below n (suc p) (suc q) bs (m ∷ mem) h = window_below n p q bs mem (omega (arith, h))

drop_past : (q : ℕ) (bs mem : List ℕ) → length bs ≤ q → drop q (overwrite zero bs mem) ≡ drop q mem
drop_past q [] [] h = refl
drop_past q [] (m ∷ mem) h = refl
drop_past q (b ∷ bs) [] h = refl
drop_past zero (b ∷ bs) (m ∷ mem) h = ground (arith, h)
drop_past (suc q) (b ∷ bs) (m ∷ mem) h = drop_past q bs mem (omega (arith, h))

drop_above :
    (p q : ℕ) (bs mem : List ℕ) → p + length bs ≤ q → drop q (overwrite p bs mem) ≡ drop q mem
drop_above zero q bs mem h = drop_past q bs mem (omega (arith, h))
drop_above (suc p) q bs [] h = refl
drop_above (suc p) zero bs (m ∷ mem) h = ground (arith, h)
drop_above (suc p) (suc q) bs (m ∷ mem) h = drop_above p q bs mem (omega (arith, h))

pub word_bytes-apart :
    (p q : ℕ) (bs mem : List ℕ)
    → length bs ≡ 32
    → (q + 32 ≤ p) ⊎ (p + 32 ≤ q)
    → word_bytes q (overwrite p bs mem) ≡ word_bytes q mem
unfolding word_bytes
word_bytes-apart p q bs mem e (inl h) = window_below 32 p q bs mem h
word_bytes-apart p q bs mem e (inr h) = ap (window 32) (drop_above p q bs mem (omega (arith, e, h)))
