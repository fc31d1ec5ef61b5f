-- ===== src/Evm/Codegen/Exec/Values.antt =====
-- SSA values of crates/covenant-evm-backend/src/codegen.rs on the machine: a load pushes the word of
-- its value, a store sets that word and leaves those of the other values.
use covenant_language.Base.{
  ℕ, ◌+◌, ◌*◌, ◌^◌, ◌≤◌, ◌<◌, ◌≡◌, ◌≢◌, ◌⊎◌, inl, inr, refl, ap, ◌∙◌, Option, none, some, List, ◌∷◌,
  ◌++◌, arith, length, ltb, Option-cases, Bool-cases,
}
use covenant_language.Ir.Ident.{Value}
use covenant_language.Ir.Function.{IrConstant, IrFunction}
use covenant_language.Runtime.U256.{U256, zero_word}
use covenant_language.Runtime.U256.Bits.{as_usize_saturating, from_be_bytes, to_be_bytes}
use covenant_language.Runtime.Bytes.{overwrite}
use covenant_language.Runtime.Evm.{CallEnv, Machine, ◌>>=◌, pure, pop}
use covenant_language.Runtime.Evm.Step.{instruction}
use covenant_language.Evm.Asm.{AsmOp, Labels, trimmed_bytes, max_push_bytes}
use covenant_language.Evm.Codegen.{
  Code, value_memory_offset, const_op, const_value, load_operand, mstore_result,
}
use covenant_language.Evm.Codegen.Exec.{pushed_word, exec}
use covenant_language.Evm.Codegen.Exec.Memory.{
  grow, word_bytes, length-grow, word_bytes-grow, word_bytes-overwrite, word_bytes-apart,
}
use covenant_language.Evm.Codegen.Exec.Operands.{
  offset_word, offset_word_lem, usize-from_u64, after, after_push, after_push0, after_mload,
  after_mstore,
}

-- A value whose word ends below 2 ^ 32, so that its offset does not wrap.
abbrev pub HasSlot : Value → Type 0
HasSlot v = v < 2 ^ 26

abbrev pub word_of : AsmOp → U256
word_of (AsmOp.push_bytes bs) = pushed_word bs
word_of _ = zero_word

-- The bytes of a value's word in a memory.
unfoldable pub slot_bytes_of : Value → List ℕ → List ℕ
slot_bytes_of v mem = word_bytes (value_memory_offset v) mem

-- The word of an operand: a constant's own, or the one in memory.
unfoldable pub operand : IrFunction → Value → List ℕ → U256
operand f v mem = elim (const_value f v) [
  | some c ↦ word_of (const_op c)
  | none ↦ from_be_bytes (slot_bytes_of v mem)
]

-- The memory after an operand is loaded, and after a result is stored.
unfoldable pub loaded : IrFunction → Value → List ℕ → List ℕ
loaded f v mem = elim (const_value f v) [ some c ↦ mem | none ↦ grow (value_memory_offset v) mem ]

unfoldable pub stored : Option Value → U256 → List ℕ → List ℕ
stored (some r) w mem =
    overwrite (value_memory_offset r) (to_be_bytes w) (grow (value_memory_offset r) mem)
stored none w mem = mem

abbrev pub HasResultSlot : Option Value → Type 0
HasResultSlot (some r) = HasSlot r
HasResultSlot none = Unit

pub offset_exact : (v : Value) → HasSlot v → value_memory_offset v ≡ 0x80 + v * 32
unfolding value_memory_offset
offset_exact v h = omega (arith, h)

pub offset_bound : (v : Value) → value_memory_offset v < 2 ^ 32
unfolding value_memory_offset
offset_bound v = omega arith

offset_usize :
    (v : Value) → as_usize_saturating (offset_word (value_memory_offset v)) ≡ value_memory_offset v
offset_usize v =
    ap as_usize_saturating (offset_word_lem (value_memory_offset v) (offset_bound v))
    ∙ usize-from_u64 (value_memory_offset v) (offset_bound v)

pub slot_bytes_of-loaded :
    (f : IrFunction) (v w : Value) (mem : List ℕ)
    → slot_bytes_of w (loaded f v mem) ≡ slot_bytes_of w mem
unfolding slot_bytes_of loaded
slot_bytes_of-loaded f v w mem = elim (Option-cases (const_value f v)) [
  | inl e ↦ rw (e, loaded) (word_bytes-grow (value_memory_offset w) (value_memory_offset v) mem)
  | inr (c, e) ↦ rw (e, loaded) refl
]

pub operand-loaded :
    (f : IrFunction) (v w : Value) (mem : List ℕ) → operand f w (loaded f v mem) ≡ operand f w mem
unfolding operand
operand-loaded f v w mem = elim (Option-cases (const_value f w)) [
  | inl e ↦ rw (e, operand) (ap from_be_bytes (slot_bytes_of-loaded f v w mem))
  | inr (c, e) ↦ rw (e, operand) refl
]

length-to_be_bytes : (w : U256) → length (to_be_bytes w) ≡ 32
unfolding to_be_bytes
length-to_be_bytes w = refl

pub slot_bytes_of-stored :
    (r : Value) (w : U256) (mem : List ℕ) → slot_bytes_of r (stored (some r) w mem) ≡ to_be_bytes w
unfolding slot_bytes_of stored
slot_bytes_of-stored r w mem =
    word_bytes-overwrite (value_memory_offset r) (to_be_bytes w) _ (length-to_be_bytes w)
      (length-grow (value_memory_offset r) mem)

apart :
    (r v : Value)
    → HasSlot r
    → HasSlot v
    → v ≢ r
    → (value_memory_offset v + 32 ≤ value_memory_offset r)
      ⊎ (value_memory_offset r + 32 ≤ value_memory_offset v)
apart r v h g ne = elim (Bool-cases (ltb v r)) [
  | inl e ↦ inl (rw (offset_exact v g, offset_exact r h) (ground (arith, e)))
  | inr e ↦ inr (rw (offset_exact v g, offset_exact r h) (ground (arith, e, ne)))
]

pub slot_bytes_of-others :
    (r v : Value) (w : U256) (mem : List ℕ)
    → HasSlot r
    → HasSlot v
    → v ≢ r
    → slot_bytes_of v (stored (some r) w mem) ≡ slot_bytes_of v mem
unfolding slot_bytes_of stored
slot_bytes_of-others r v w mem h g ne =
    word_bytes-apart (value_memory_offset r) (value_memory_offset v) (to_be_bytes w) _
      (length-to_be_bytes w) (apart r v h g ne)
    ∙ word_bytes-grow (value_memory_offset v) (value_memory_offset r) mem

module _ (keccak : List ℕ → List ℕ) (env : CallEnv) (code : List ℕ) (labels : Labels) where
  after_const :
      (c : IrConstant) (rest : Code) (s : List U256) (mem : List ℕ) (m : Machine)
      → length s < 1024
      → after keccak env code labels (const_op c ∷ rest) s mem m
        ≡ after keccak env code labels rest (word_of (const_op c) ∷ s) mem m
  unfolding const_op
  after_const (IrConstant.integer n) rest s mem m h =
      after_push keccak env code labels _ rest s mem m h
  after_const (IrConstant.bool b) rest s mem m h =
      after_push keccak env code labels _ rest s mem m h
  after_const (IrConstant.hash b) rest s mem m h =
      after_push keccak env code labels _ rest s mem m h
  after_const (IrConstant.address b) rest s mem m h =
      after_push keccak env code labels _ rest s mem m h
  after_const IrConstant.zero_address rest s mem m h =
      after_push0 keccak env code labels rest s mem m h
  after_const (IrConstant.duration n u) rest s mem m h =
      after_push keccak env code labels _ rest s mem m h
  after_const (IrConstant.text t) rest s mem m h = after_push0 keccak env code labels rest s mem m h
  after_const (IrConstant.hex b) rest s mem m h =
      elim (Bool-cases (ltb max_push_bytes (length b))) [
        | inl e ↦ rw e (after_push0 keccak env code labels rest s mem m h)
        | inr e ↦ rw e (after_push keccak env code labels _ rest s mem m h)
      ]

  pub after_load :
      (f : IrFunction) (v : Value) (rest : Code) (s : List U256) (mem : List ℕ) (m : Machine)
      → length s < 1024
      → after keccak env code labels (load_operand f v ++ rest) s mem m
        ≡ after keccak env code labels rest (operand f v mem ∷ s) (loaded f v mem) m
  unfolding load_operand operand loaded slot_bytes_of
  after_load f v rest s mem m h = elim (Option-cases (const_value f v)) [
    | inr (c, e) ↦ rw (e, load_operand, operand, loaded) (after_const c rest s mem m h)
    | inl e ↦
        rw (e, load_operand, operand, loaded)
          (after_push keccak env code labels _ _ s mem m h
            ∙ after_mload keccak env code labels _ (value_memory_offset v) rest s mem m
                (offset_usize v) (omega (arith, offset_bound v)) h)
  ]

  pub after_store :
      (r : Option Value) (w : U256) (rest : Code) (s : List U256) (mem : List ℕ) (m : Machine)
      → length s < 1023
      → after keccak env code labels (mstore_result r ++ rest) (w ∷ s) mem m
        ≡ after keccak env code labels rest s (stored r w mem) m
  unfolding mstore_result stored exec instruction ◌>>=◌ pure pop
  after_store none w rest s mem m h = refl
  after_store (some r) w rest s mem m h =
      after_push keccak env code labels (trimmed_bytes (value_memory_offset r))
        (AsmOp.op 0x52 ∷ rest) (w ∷ s) mem m (omega (arith, h))
      ∙ after_mstore keccak env code labels _ w (value_memory_offset r) rest s mem m
          (offset_usize r) (omega (arith, offset_bound r))
