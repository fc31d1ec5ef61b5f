-- ===== src/Evm/Codegen/Exec/Scratch.antt =====
-- The first words of the memory, in which crates/covenant-evm-backend/src/codegen.rs lays out what it
-- hashes: two words stored there are the first 64 bytes, and the words of the values are above them.
use covenant_language.Base.{
  ℕ, zero, suc, ◌+◌, ◌≤◌, ◌≡◌, inl, inr, refl, ap, ◌∙◌, false, some, List, [], ◌∷◌, ◌++◌, arith,
  length, drop, ltb,
}
use covenant_language.Runtime.Bytes.{window, overwrite, length-overwrite}
use covenant_language.Runtime.U256.{U256, zero_word, from_u64}
use covenant_language.Runtime.U256.Bits.{as_usize_saturating, to_be_bytes}
use covenant_language.Runtime.Evm.{memory_expand}
use covenant_language.Evm.Codegen.{value_memory_offset}
use covenant_language.Evm.Codegen.Exec.Memory.{
  word_bytes, grow, length-grow, word_bytes-grow, word_bytes-overwrite, word_bytes-apart,
}
use covenant_language.Evm.Codegen.Exec.Operands.{usize-from_u64}
use covenant_language.Evm.Codegen.Exec.Values.{HasSlot, slot_bytes_of, offset_exact}

-- The memory with a word at an offset.
abbrev pub with_word : ℕ → U256 → List ℕ → List ℕ
with_word p w mem = overwrite p (to_be_bytes w) (grow p mem)

length-to_be_bytes : (w : U256) → length (to_be_bytes w) ≡ 32
unfolding to_be_bytes
length-to_be_bytes w = refl

drop_nothing : (n : ℕ) → drop {A = ℕ} n [] ≡ []
drop_nothing zero = refl
drop_nothing (suc n) = refl

window_split :
    (n k w : ℕ) (mem : List ℕ) → w ≡ n + k → window w mem ≡ window n mem ++ window k (drop n mem)
window_split zero k w mem e = let same : w ≡ k = omega (arith, e) in ap (λ j. window j mem) same
window_split (suc n) k zero mem e = ground (arith, e)
window_split (suc n) k (suc w) (b ∷ mem) e =
    ap (λ ms. b ∷ ms) (window_split n k w mem (omega (arith, e)))
window_split (suc n) k (suc w) [] e =
    ap (λ ms. 0 ∷ ms)
      (window_split n k w [] (omega (arith, e))
        ∙ ap (λ ms. window n [] ++ window k ms) (drop_nothing n))

-- Two words stored at the start of the memory are its first 64 bytes.
pub two_words :
    (a b : U256) (mem : List ℕ)
    → window 64 (with_word 32 b (with_word 0 a mem)) ≡ to_be_bytes a ++ to_be_bytes b
unfolding word_bytes
two_words a b mem =
    let low : word_bytes 0 (with_word 32 b (with_word 0 a mem)) ≡ to_be_bytes a =
      word_bytes-apart 32 0 (to_be_bytes b) (grow 32 (with_word 0 a mem)) (length-to_be_bytes b)
        (inl (omega arith))
      ∙ word_bytes-grow 0 32 (with_word 0 a mem)
      ∙ word_bytes-overwrite 0 (to_be_bytes a) (grow 0 mem) (length-to_be_bytes a)
          (length-grow 0 mem) in
    let high : word_bytes 32 (with_word 32 b (with_word 0 a mem)) ≡ to_be_bytes b =
      word_bytes-overwrite 32 (to_be_bytes b) (grow 32 (with_word 0 a mem)) (length-to_be_bytes b)
        (length-grow 32 (with_word 0 a mem)) in
    window_split 32 32 64 (with_word 32 b (with_word 0 a mem)) refl ∙ rw (low, high) refl

pub long_enough : (b : U256) (mem : List ℕ) → 64 ≤ length (with_word 32 b mem)
long_enough b mem =
    omega (arith, length-overwrite 32 (to_be_bytes b) (grow 32 mem), length-grow 32 mem)

pub expanded : (mem : List ℕ) → 64 ≤ length mem → memory_expand mem 0 64 ≡ some mem
unfolding memory_expand
expanded mem h = let enough : ltb (length mem) 64 ≡ false = ground (arith, h) in rw enough refl

pub usize_zero : as_usize_saturating zero_word ≡ 0
unfolding from_u64
usize_zero = usize-from_u64 0 (omega arith)

-- The two words end where the words of the values begin.
pub slot_bytes_of-with_word :
    (p v : ℕ) (w : U256) (mem : List ℕ)
    → p + 32 ≤ 0x80
    → HasSlot v
    → slot_bytes_of v (with_word p w mem) ≡ slot_bytes_of v mem
unfolding slot_bytes_of
slot_bytes_of-with_word p v w mem h hv =
    let far : p + 32 ≤ value_memory_offset v = omega (arith, h, offset_exact v hv) in
    word_bytes-apart p (value_memory_offset v) (to_be_bytes w) (grow p mem) (length-to_be_bytes w)
      (inr far)
    ∙ word_bytes-grow (value_memory_offset v) p mem
