-- ===== src/Evm/Codegen/Exec/Plain.antt =====
-- The unguarded operators of crates/covenant-evm-backend/src/codegen.rs against their meaning on words.
use covenant_language.Base.{
  ℕ, ◌<◌, ◌≡◌, ◌≢◌, refl, ap, sym, subst, ◌∙◌, Bool, true, false, not, Option, none, some, List, [],
  ◌∷◌, ◌++◌, length, map, Option-cases, inl, inr,
}
use mathlib.Core.List.{append-nil}
use covenant_language.Ir.Ident.{Value, Span}
use covenant_language.Ir.Opcode.{Opcode}
use covenant_language.Ir.Function.{Instr, IrFunction}
use covenant_language.Ir.Module.{IrModule}
use covenant_language.Runtime.U256.{U256, zero_word, is_zero, wrapping_add, wrapping_sub, bitnot}
use covenant_language.Runtime.U256.Mul.{wrapping_mul}
use covenant_language.Runtime.U256.Bits.{
  from_bool, less, word_eq, bitand, bitor, bitxor, shl, shr, to_be_bytes,
}
use covenant_language.Runtime.Evm.{CallEnv, Machine, Flow, Next}
use covenant_language.Runtime.Evm.Arms.{shift_by, binary, unary}
use covenant_language.Runtime.Evm.Step.{instruction}
use covenant_language.Evm.Asm.{Labels}
use covenant_language.Evm.Codegen.{Code, unreported}
use covenant_language.Evm.Codegen.Arith.{
  binop, binop_shift, negated_binop, unary_op, signed_neg_code,
}
use covenant_language.Evm.Codegen.Opcodes.{Backend, emit_opcode, emit_instr}
use covenant_language.Evm.Codegen.Exec.{exec}
use covenant_language.Evm.Codegen.Exec.Operands.{st, after}
use covenant_language.Evm.Codegen.Exec.Values.{
  HasSlot, slot_bytes_of, operand, stored, loaded, slot_bytes_of-loaded, slot_bytes_of-stored,
  slot_bytes_of-others,
}
use covenant_language.Evm.Codegen.Exec.Binops.{
  both_loaded, after-binop, after-binop_shift, after-negated_binop, after-unary_op,
  after_signed_neg,
}

-- The words that an operator of two operands, in their order, and one of one operand stand for.
abbrev pub binary_meaning : Opcode → Option (U256 → U256 → U256)
binary_meaning Opcode.add = some wrapping_add
binary_meaning Opcode.sub = some wrapping_sub
binary_meaning Opcode.mul = some wrapping_mul
binary_meaning Opcode.bit_and = some bitand
binary_meaning Opcode.logical_and = some bitand
binary_meaning Opcode.bit_or = some bitor
binary_meaning Opcode.logical_or = some bitor
binary_meaning Opcode.bit_xor = some bitxor
binary_meaning Opcode.shift_left = some (λ a b. shl a (shift_by b))
binary_meaning Opcode.shift_right = some (λ a b. shr a (shift_by b))
binary_meaning Opcode.eq = some (λ a b. from_bool (word_eq a b))
binary_meaning Opcode.ne = some (λ a b. from_bool (not (word_eq a b)))
binary_meaning Opcode.lt = some (λ a b. from_bool (less a b))
binary_meaning Opcode.le = some (λ a b. from_bool (not (less b a)))
binary_meaning Opcode.gt = some (λ a b. from_bool (less b a))
binary_meaning Opcode.ge = some (λ a b. from_bool (not (less a b)))
binary_meaning _ = none

abbrev pub unary_meaning : Opcode → Option (U256 → U256)
unary_meaning Opcode.logical_not = some (λ a. from_bool (is_zero a))
unary_meaning Opcode.bit_not = some bitnot
unary_meaning Opcode.signed_neg = some (wrapping_sub zero_word)
unary_meaning _ = none

abbrev pub apply_one : Option (U256 → U256) → U256 → Option U256
apply_one (some g) a = some (g a)
apply_one none a = none

abbrev pub apply_two : Option (U256 → U256 → U256) → U256 → U256 → Option U256
apply_two (some g) a b = some (g a b)
apply_two none a b = none

-- The word of an operator applied to the words of its operands.
abbrev pub plain_meaning : Opcode → List U256 → Option U256
plain_meaning o (a ∷ b ∷ []) = apply_two (binary_meaning o) a b
plain_meaning o (a ∷ []) = apply_one (unary_meaning o) a
plain_meaning o _ = none

-- Of two machines: the same stack and host, `w` in the place of `r`, and `v` as it was.
pub record Assigns (r : Value) (w : U256) (v : Value) (m n : Machine) : Type 0 where
  pub same_stack : n.stack ≡ m.stack
  pub same_host : n.host ≡ m.host
  pub result_bytes : slot_bytes_of r n.memory ≡ to_be_bytes w
  pub other_bytes : slot_bytes_of v n.memory ≡ slot_bytes_of v m.memory

abbrev or_else : {A : Type 0} → Option A → A → A
or_else (some a) d = a
or_else none d = d

from_bool_negated : (b : Bool) → from_bool (is_zero (from_bool b)) ≡ from_bool (not b)
unfolding is_zero
from_bool_negated true = refl
from_bool_negated false = refl

-- The machine with a result stored in a memory that has the words of its own.
pub assigned :
    (r : Value) (w : U256) (v : Value) (mem : List ℕ) (m : Machine)
    → HasSlot r
    → HasSlot v
    → v ≢ r
    → slot_bytes_of v mem ≡ slot_bytes_of v m.memory
    → Assigns r w v m (st m.stack (stored (some r) w mem) m)
assigned r w v mem m hr hv ne same = record {
  same_stack = refl;
  same_host = refl;
  result_bytes = slot_bytes_of-stored r w mem;
  other_bytes = slot_bytes_of-others r v w mem hr hv ne ∙ same;
}

module _ (keccak : List ℕ → List ℕ) (env : CallEnv) (code : List ℕ) (labels : Labels) where
  -- The code falls through to a machine that has the word at the result's place.
  abbrev pub Yields : Code → Value → U256 → Value → Machine → Type 0
  Yields ops r w v m =
      (n : Machine) × (exec keccak env code labels ops m ≡ Flow.go Next.fall n) × Assigns r w v m n

  pub yields :
      (ops : Code) (r : Value) (w : U256) (v : Value) (mem : List ℕ) (m : Machine)
      → HasSlot r
      → HasSlot v
      → v ≢ r
      → slot_bytes_of v mem ≡ slot_bytes_of v m.memory
      → after keccak env code labels (ops ++ []) m.stack m.memory m
        ≡ after keccak env code labels [] m.stack (stored (some r) w mem) m
      → Yields ops r w v m
  unfolding exec
  yields ops r w v mem m hr hv ne same e = (
    st m.stack (stored (some r) w mem) m,
    ap (λ os. exec keccak env code labels os m) (sym (append-nil ops)) ∙ e,
    assigned r w v mem m hr hv ne same,
  )

  module _ (backend : Backend) (im : IrModule) (f : IrFunction) (r v : Value) (m : Machine)
      (hr : HasSlot r) (hv : HasSlot v) (ne : v ≢ r) (room : length m.stack < 1020) where
    both : (x y : Value) → slot_bytes_of v (both_loaded f x y m.memory) ≡ slot_bytes_of v m.memory
    both x y =
        slot_bytes_of-loaded f x v (loaded f y m.memory) ∙ slot_bytes_of-loaded f y v m.memory

    -- What an opcode of two operands emits, and that it yields the word.
    abbrev EmitsBinary : Opcode → Span → Value → Value → (U256 → U256 → U256) → Type 0
    EmitsBinary o span x y g =
        (ops : Code) × (emit_opcode backend im f span (x ∷ y ∷ []) (some r) o
          ≡ some (unreported ops))
        × Yields ops r (g (operand f x m.memory) (operand f y m.memory)) v m

    by_binop :
        (b : ℕ) (g : U256 → U256 → U256) (x y : Value)
        → instruction keccak env code b ≡ binary g
        → Yields (binop f b x y (some r)) r (g (operand f x m.memory) (operand f y m.memory)) v m
    by_binop b g x y e =
        yields _ r _ v (both_loaded f x y m.memory) m hr hv ne (both x y)
          (after-binop keccak env code labels f b g e x y (some r) [] m.stack m.memory m room)

    by_shift :
        (b : ℕ) (g : U256 → U256 → U256) (x y : Value)
        → instruction keccak env code b ≡ binary g
        → Yields
            (binop_shift f b x y (some r))
            r
            (g (operand f y m.memory) (operand f x m.memory))
            v
            m
    by_shift b g x y e =
        yields _ r _ v (both_loaded f y x m.memory) m hr hv ne (both y x)
          (after-binop_shift keccak env code labels f b g e x y (some r) [] m.stack m.memory m room)

    by_negated :
        (b : ℕ) (t : U256 → U256 → Bool) (x y : Value)
        → instruction keccak env code b ≡ binary (λ a c. from_bool (t a c))
        → Yields
            (negated_binop f b x y (some r))
            r
            (from_bool (not (t (operand f x m.memory) (operand f y m.memory))))
            v
            m
    by_negated b t x y e =
        subst (λ w. Yields (negated_binop f b x y (some r)) r w v m)
          (from_bool_negated (t (operand f x m.memory) (operand f y m.memory)))
          (yields _ r _ v (both_loaded f x y m.memory) m hr hv ne (both x y) (
            after-negated_binop keccak env code labels f b _ e x y (some r) [] m.stack m.memory m
              room))

    by_unary :
        (b : ℕ) (g : U256 → U256) (x : Value)
        → instruction keccak env code b ≡ unary g
        → Yields (unary_op f b x (some r)) r (g (operand f x m.memory)) v m
    by_unary b g x e =
        yields _ r _ v (loaded f x m.memory) m hr hv ne (slot_bytes_of-loaded f x v m.memory)
          (after-unary_op keccak env code labels f b g e x (some r) [] m.stack m.memory m room)

    by_neg :
        (x : Value)
        → Yields
            (signed_neg_code f x (some r))
            r
            (wrapping_sub zero_word (operand f x m.memory))
            v
            m
    by_neg x =
        yields _ r _ v (loaded f x m.memory) m hr hv ne (slot_bytes_of-loaded f x v m.memory)
          (after_signed_neg keccak env code labels f x (some r) [] m.stack m.memory m room)

    -- What an opcode emits for its operands, and that the code yields the word.
    abbrev Emits : Opcode → Span → List Value → U256 → Type 0
    Emits o span vs w =
        (ops : Code) × (emit_opcode backend im f span vs (some r) o ≡ some (unreported ops))
        × Yields ops r w v m

    applied :
        (o : Opcode) (span : Span) (x y : Value) (g h : U256 → U256 → U256)
        → some g ≡ some h
        → Emits o span (x ∷ y ∷ []) (g (operand f x m.memory) (operand f y m.memory))
        → Emits o span (x ∷ y ∷ []) (h (operand f x m.memory) (operand f y m.memory))
    applied o span x y g h e k =
        subst
          (λ h.
            Emits o span (x ∷ y ∷ [])
              (or_else h wrapping_add (operand f x m.memory) (operand f y m.memory)))
          e k

    applied_one :
        (o : Opcode) (span : Span) (x : Value) (g h : U256 → U256)
        → some g ≡ some h
        → Emits o span (x ∷ []) (g (operand f x m.memory))
        → Emits o span (x ∷ []) (h (operand f x m.memory))
    applied_one o span x g h e k =
        subst (λ h. Emits o span (x ∷ []) (or_else h bitnot (operand f x m.memory))) e k

    binary_opcode :
        (o : Opcode) (span : Span) (x y : Value) (g : U256 → U256 → U256)
        → binary_meaning o ≡ some g
        → Emits o span (x ∷ y ∷ []) (g (operand f x m.memory) (operand f y m.memory))
    unfolding emit_opcode instruction
    binary_opcode Opcode.add span x y g e =
        applied Opcode.add span x y _ g e (_, refl, by_binop 0x01 _ x y refl)
    binary_opcode Opcode.sub span x y g e =
        applied Opcode.sub span x y _ g e (_, refl, by_binop 0x03 _ x y refl)
    binary_opcode Opcode.mul span x y g e =
        applied Opcode.mul span x y _ g e (_, refl, by_binop 0x02 _ x y refl)
    binary_opcode Opcode.bit_and span x y g e =
        applied Opcode.bit_and span x y _ g e (_, refl, by_binop 0x16 _ x y refl)
    binary_opcode Opcode.logical_and span x y g e =
        applied Opcode.logical_and span x y _ g e (_, refl, by_binop 0x16 _ x y refl)
    binary_opcode Opcode.bit_or span x y g e =
        applied Opcode.bit_or span x y _ g e (_, refl, by_binop 0x17 _ x y refl)
    binary_opcode Opcode.logical_or span x y g e =
        applied Opcode.logical_or span x y _ g e (_, refl, by_binop 0x17 _ x y refl)
    binary_opcode Opcode.bit_xor span x y g e =
        applied Opcode.bit_xor span x y _ g e (_, refl, by_binop 0x18 _ x y refl)
    binary_opcode Opcode.eq span x y g e =
        applied Opcode.eq span x y _ g e (_, refl, by_binop 0x14 _ x y refl)
    binary_opcode Opcode.lt span x y g e =
        applied Opcode.lt span x y _ g e (_, refl, by_binop 0x10 _ x y refl)
    binary_opcode Opcode.gt span x y g e =
        applied Opcode.gt span x y _ g e (_, refl, by_binop 0x11 _ x y refl)
    binary_opcode Opcode.shift_left span x y g e =
        applied Opcode.shift_left span x y _ g e (_, refl, by_shift 0x1b _ x y refl)
    binary_opcode Opcode.shift_right span x y g e =
        applied Opcode.shift_right span x y _ g e (_, refl, by_shift 0x1c _ x y refl)
    binary_opcode Opcode.ne span x y g e =
        applied Opcode.ne span x y _ g e (_, refl, by_negated 0x14 word_eq x y refl)
    binary_opcode Opcode.le span x y g e =
        applied Opcode.le span x y _ g e (_, refl, by_negated 0x11 (λ a c. less c a) x y refl)
    binary_opcode Opcode.ge span x y g e =
        applied Opcode.ge span x y _ g e (_, refl, by_negated 0x10 less x y refl)
    binary_opcode _ span x y g e = cc

    unary_opcode :
        (o : Opcode) (span : Span) (x : Value) (g : U256 → U256)
        → unary_meaning o ≡ some g
        → Emits o span (x ∷ []) (g (operand f x m.memory))
    unfolding emit_opcode instruction
    unary_opcode Opcode.logical_not span x g e =
        applied_one Opcode.logical_not span x _ g e (_, refl, by_unary 0x15 _ x refl)
    unary_opcode Opcode.bit_not span x g e =
        applied_one Opcode.bit_not span x _ g e (_, refl, by_unary 0x19 _ x refl)
    unary_opcode Opcode.signed_neg span x g e =
        applied_one Opcode.signed_neg span x _ g e (_, refl, by_neg x)
    unary_opcode _ span x g e = cc

    plain_opcode :
        (o : Opcode) (span : Span) (vs : List Value) (w : U256)
        → plain_meaning o (map (λ x. operand f x m.memory) vs) ≡ some w
        → Emits o span vs w
    plain_opcode o span (x ∷ y ∷ []) w e =
        let a = operand f x m.memory in
        let b = operand f y m.memory in
        elim (Option-cases (binary_meaning o)) [
          | inl gone ↦ let bad : none ≡ some w = sym (ap (λ q. apply_two q a b) gone) ∙ e in cc
          | inr (g, here) ↦
              let same : some (g a b) ≡ some w = sym (ap (λ q. apply_two q a b) here) ∙ e in
              subst (Emits o span (x ∷ y ∷ [])) (ap (λ q. or_else q a) same)
                (binary_opcode o span x y g here)
        ]
    plain_opcode o span (x ∷ []) w e =
        let a = operand f x m.memory in
        elim (Option-cases (unary_meaning o)) [
          | inl gone ↦ let bad : none ≡ some w = sym (ap (λ q. apply_one q a) gone) ∙ e in cc
          | inr (g, here) ↦
              let same : some (g a) ≡ some w = sym (ap (λ q. apply_one q a) here) ∙ e in
              subst (Emits o span (x ∷ [])) (ap (λ q. or_else q a) same)
                (unary_opcode o span x g here)
        ]
    plain_opcode o span [] w e = cc
    plain_opcode o span (x ∷ y ∷ z ∷ vs) w e = cc

    -- An instruction whose opcode is an unguarded operator emits code that puts the operator's word at
    -- the result's place in memory, leaves the place of every other value, the stack and the host as
    -- they were, and falls through, from any machine with room for four words on its stack.
    pub emit_instr-plain :
        (i : Instr) (w : U256)
        → plain_meaning i.opcode (map (λ x. operand f x m.memory) i.operands) ≡ some w
        → i.result ≡ some r
        → (ops : Code) × (emit_instr backend im f i ≡ some (unreported ops)) × Yields ops r w v m
    unfolding emit_instr
    emit_instr-plain i w e here =
        let (ops, emitted, ys) = plain_opcode i.opcode i.span i.operands w e in
        (ops, rw here emitted, ys)
