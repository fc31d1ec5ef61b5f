-- ===== src/Evm/Codegen/Exec/Operands.antt =====
-- Operands and results of crates/covenant-evm-backend/src/codegen.rs on the machine: a load pushes the
-- word of its SSA value, a store sets that word and leaves those of the other values.
use covenant_language.Base.{
  ℕ, zero, suc, ◌^◌, ◌<◌, ◌≡◌, refl, ap, ◌∙◌, false, List, [], ◌∷◌, ◌++◌, arith, length, leb, ◌==◌,
}
use covenant_language.Runtime.Bytes.{window}
use covenant_language.Runtime.U256.{U256, from_u64, fits_u64, zero_word}
use covenant_language.Runtime.U256.Bits.{as_usize_saturating, from_be, from_be_bytes, to_be_bytes}
use covenant_language.Runtime.Bytes.{overwrite}
use covenant_language.Runtime.Evm.{
  CallEnv, Machine, Flow, Next, ◌>>=◌, pure, pop, push, expand, read_memory, write_memory,
}
use covenant_language.Runtime.Evm.Step.{instruction}
use covenant_language.Evm.Asm.{AsmOp, Labels, trimmed_bytes, skip_zeros, u32_be_bytes}
use covenant_language.Evm.Codegen.{Code}
use covenant_language.Evm.Codegen.Exec.{pushed_word, exec}
use covenant_language.Evm.Codegen.Exec.Memory.{grow, word_bytes, memory_expand-grow, slice-grow}

-- The machine with another stack and another memory.
abbrev pub st : List U256 → List ℕ → Machine → Machine
st s mem m = record m { stack = s; memory = mem }

abbrev pub offset_word : ℕ → U256
offset_word n = pushed_word (trimmed_bytes n)

nonzero : (n : ℕ) → (suc n == 0) ≡ false
nonzero n = ground arith

-- Leading zero bytes do not change the word.
pushed_word-trimmed :
    (a b c d : ℕ)
    → pushed_word (elim (skip_zeros (a ∷ b ∷ c ∷ d ∷ [])) [ [] ↦ 0 ∷ [] | b ∷ bs ↦ b ∷ bs ])
      ≡ pushed_word (a ∷ b ∷ c ∷ d ∷ [])
unfolding skip_zeros
pushed_word-trimmed (suc a) b c d = rw (nonzero a) refl
pushed_word-trimmed zero (suc b) c d = rw (nonzero b) refl
pushed_word-trimmed zero zero (suc c) d = rw (nonzero c) refl
pushed_word-trimmed zero zero zero (suc d) = rw (nonzero d) refl
pushed_word-trimmed zero zero zero zero = refl

-- A pushed `u32` is that number.
pub offset_word_lem : (n : ℕ) → n < 2 ^ 32 → offset_word n ≡ from_u64 n
unfolding trimmed_bytes skip_zeros u32_be_bytes from_be_bytes from_u64
offset_word_lem n h =
    let low : from_be (window 28 [] ++ u32_be_bytes n) 24 ≡ n = omega (arith, h) in
    pushed_word-trimmed _ _ _ _ ∙ ap from_u64 low

pub usize-from_u64 : (n : ℕ) → n < 2 ^ 32 → as_usize_saturating (from_u64 n) ≡ n
unfolding as_usize_saturating from_u64 fits_u64
usize-from_u64 n h = ground (arith, h)

module _ (keccak : List ℕ → List ℕ) (env : CallEnv) (code : List ℕ) (labels : Labels) where
  abbrev pub after : Code → List U256 → List ℕ → Machine → Flow Next
  after ops s mem m = exec keccak env code labels ops (st s mem m)

  pub after_push :
      (bs : List ℕ) (rest : Code) (s : List U256) (mem : List ℕ) (m : Machine)
      → length s < 1024
      → after (AsmOp.push_bytes bs ∷ rest) s mem m ≡ after rest (pushed_word bs ∷ s) mem m
  unfolding exec push
  after_push bs rest s mem m h =
      let room : leb 1024 (length s) ≡ false = ground (arith, h) in rw room refl

  pub after_push0 :
      (rest : Code) (s : List U256) (mem : List ℕ) (m : Machine)
      → length s < 1024
      → after (AsmOp.push0 ∷ rest) s mem m ≡ after rest (zero_word ∷ s) mem m
  unfolding exec push
  after_push0 rest s mem m h =
      let room : leb 1024 (length s) ≡ false = ground (arith, h) in rw room refl

  pub after_mload :
      (w : U256) (p : ℕ) (rest : Code) (s : List U256) (mem : List ℕ) (m : Machine)
      → as_usize_saturating w ≡ p
      → p < 2 ^ 62
      → length s < 1024
      → after (AsmOp.op 0x51 ∷ rest) (w ∷ s) mem m
        ≡ after rest (from_be_bytes (word_bytes p mem) ∷ s) (grow p mem) m
  unfolding exec instruction ◌>>=◌ pure pop push expand read_memory
  after_mload w p rest s mem m e lt h =
      let room : leb 1024 (length s) ≡ false = ground (arith, h) in
      rw (e, memory_expand-grow p mem lt, slice-grow p mem, room) refl

  pub after_mstore :
      (w v : U256) (p : ℕ) (rest : Code) (s : List U256) (mem : List ℕ) (m : Machine)
      → as_usize_saturating w ≡ p
      → p < 2 ^ 62
      → after (AsmOp.op 0x52 ∷ rest) (w ∷ v ∷ s) mem m
        ≡ after rest s (overwrite p (to_be_bytes v) (grow p mem)) m
  unfolding exec instruction ◌>>=◌ pure pop expand write_memory
  after_mstore w v p rest s mem m e lt = rw (e, memory_expand-grow p mem lt) refl
