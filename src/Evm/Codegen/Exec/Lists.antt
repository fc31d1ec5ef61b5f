-- ===== src/Evm/Codegen/Exec/Lists.antt =====
-- The element accesses of crates/covenant-evm-backend/src/codegen.rs on the machine: the check of the index
-- comes before the access.
use covenant_language.Base.{
  ℕ, ◌≤◌, ◌<◌, ◌≡◌, refl, ◌∙◌, false, Option, none, some, List, ◌∷◌, ◌++◌, arith, length, ltb,
}
use mathlib.Core.List.{append_assoc}
use covenant_language.Ir.Ident.{Value, Span}
use covenant_language.Ir.Opcode.{Opcode}
use covenant_language.Ir.Function.{Instr, IrFunction}
use covenant_language.Ir.Module.{IrModule}
use covenant_language.Runtime.U256.{U256, is_zero}
use covenant_language.Runtime.U256.Value.{IsWord, value}
use covenant_language.Runtime.U256.Bits.{from_bool, less}
use covenant_language.Runtime.U256.Order.{less_lem}
use covenant_language.Runtime.Evm.{CallEnv, Machine, Flow, Next}
use covenant_language.Runtime.Evm.Step.{instruction}
use covenant_language.Evm.Asm.{Labels}
use covenant_language.Evm.Codegen.{Code, Emission, unreported, revert_if}
use covenant_language.Evm.Codegen.Storage.{
  emit_list_bounds_check, emit_list_elem_addr, list_get_code, list_set_code,
}
use covenant_language.Evm.Codegen.Opcodes.{Backend, emit_opcode, emit_instr}
use covenant_language.Evm.Codegen.Exec.Operands.{st, after}
use covenant_language.Evm.Codegen.Exec.Values.{operand, loaded, operand-loaded, after_load}
use covenant_language.Evm.Codegen.Exec.Steps.{after-binary, after-unary}
use covenant_language.Evm.Codegen.Exec.Binops.{both_loaded, after_two_loads}
use covenant_language.Evm.Codegen.Exec.Checked.{
  RevertsAt, GoesTo, from_bool-true, from_bool-false, after_revert, goes_to,
}

-- The list and the index of a read or a write of an element.
abbrev pub access : Opcode → List Value → Option (Value × Value)
access Opcode.list_get (handle ∷ index ∷ vs) = some (handle, index)
access Opcode.list_set (handle ∷ index ∷ v ∷ vs) = some (handle, index)
access _ _ = none

module _ (keccak : List ℕ → List ℕ) (env : CallEnv) (code : List ℕ) (labels : Labels)
    (im : IrModule) (f : IrFunction) (handle index : Value) where
  -- Up to the jump: whether the index is not below the length.
  bounds_reaches :
      (rest : Code) (s : List U256) (mem : List ℕ) (m : Machine)
      → length s < 1020
      → after keccak env code labels (emit_list_bounds_check im f handle index ++ rest) s mem m
        ≡ after keccak env code labels
            (revert_if ++ rest)
            (from_bool (is_zero (from_bool (less (operand f index mem) (operand f handle mem))))
              ∷ s)
            (both_loaded f handle index mem)
            m
  unfolding emit_list_bounds_check instruction
  bounds_reaches rest s mem m h =
      rw (append_assoc, append_assoc)
        (after_two_loads keccak env code labels f handle index _ s mem m h
          ∙ after-binary keccak env code labels 0x11 (λ p q. from_bool (less q p)) refl _ _ _ s _ m
              (omega (arith, h))
          ∙ after-unary keccak env code labels 0x15 (λ a. from_bool (is_zero a)) refl _ _ s _ m
              (omega (arith, h)))

  module _ (d : ℕ) (at : RevertsAt code labels d) where
    -- The address of an element past the end is never computed.
    addr_refused :
        (stride : ℕ) (rest : Code) (s : List U256) (mem : List ℕ) (m : Machine)
        → length s < 1020
        → less (operand f index mem) (operand f handle mem) ≡ false
        → after keccak env code labels
            (emit_list_elem_addr im f handle index stride ++ rest)
            s
            mem
            m
          ≡ Flow.go (Next.goto d) (st s (both_loaded f handle index mem) m)
    unfolding emit_list_elem_addr
    addr_refused stride rest s mem m h e =
        rw (append_assoc (emit_list_bounds_check im f handle index)) (
          bounds_reaches _ s mem m h
          ∙ after_revert keccak env code labels d at _ _ s _ m
              (from_bool-true _ (from_bool-false _ e)) (omega (arith, h)))

    get_refused :
        (r : Option Value) (m : Machine)
        → length m.stack < 1020
        → less (operand f index m.memory) (operand f handle m.memory) ≡ false
        → GoesTo keccak env code labels d (list_get_code im f handle index r) m
    unfolding list_get_code
    get_refused r m h e =
        goes_to keccak env code labels d at (list_get_code im f handle index r) m.stack
          (both_loaded f handle index m.memory) m
          (rw append_assoc (addr_refused _ _ m.stack m.memory m h e))

    set_refused :
        (v : Value) (m : Machine)
        → length m.stack < 1019
        → less (operand f index m.memory) (operand f handle m.memory) ≡ false
        → GoesTo keccak env code labels d (list_set_code im f handle index v) m
    unfolding list_set_code
    set_refused v m h e =
        goes_to keccak env code labels d at (list_set_code im f handle index v)
          (operand f v m.memory ∷ m.stack) (both_loaded f handle index (loaded f v m.memory)) m
          (rw (append_assoc, append_assoc)
            (after_load keccak env code labels f v _ m.stack m.memory m (omega (arith, h))
              ∙ addr_refused _ _ _ _ m (omega (arith, h))
                  (rw (operand-loaded f v index m.memory, operand-loaded f v handle m.memory) e)))

module _ (keccak : List ℕ → List ℕ) (env : CallEnv) (code : List ℕ) (labels : Labels) (d : ℕ)
    (m : Machine) where
  -- Emitted code that leads to the label of reverts.
  abbrev pub Refuses : Option Emission → Type 0
  Refuses e = (ops : Code) × (e ≡ some (unreported ops)) × GoesTo keccak env code labels d ops m

module _ (keccak : List ℕ → List ℕ) (env : CallEnv) (code : List ℕ) (labels : Labels) (d : ℕ)
    (at : RevertsAt code labels d) (backend : Backend) (im : IrModule) (f : IrFunction)
    (handle index : Value) (m : Machine) (room : length m.stack < 1019) where
  refuses :
      (span : Span) (result : Option Value) (o : Opcode) (vs : List Value)
      → access o vs ≡ some (handle, index)
      → less (operand f index m.memory) (operand f handle m.memory) ≡ false
      → Refuses keccak env code labels d m (emit_opcode backend im f span vs result o)
  unfolding emit_opcode
  refuses span result Opcode.list_get (x ∷ y ∷ vs) e past =
      let p : x ≡ handle = cc in
      let q : y ≡ index = cc in
      (
        list_get_code im f handle index result,
        rw (p, q) refl,
        get_refused keccak env code labels im f handle index d at result m (omega (arith, room))
            past,
      )
  refuses span result Opcode.list_set (x ∷ y ∷ v ∷ vs) e past =
      let p : x ≡ handle = cc in
      let q : y ≡ index = cc in
      (
        list_set_code im f handle index v,
        rw (p, q) refl,
        set_refused keccak env code labels im f handle index d at v m room past,
      )
  refuses span result _ _ e past = cc

  -- A read or a write of a list's element at an index that is not below the length of the list: the
  -- code goes to the label of reverts and leaves the host as it was.
  pub emit_instr-access :
      (i : Instr)
      → access i.opcode i.operands ≡ some (handle, index)
      → IsWord (operand f handle m.memory)
      → IsWord (operand f index m.memory)
      → value (operand f handle m.memory) ≤ value (operand f index m.memory)
      → Refuses keccak env code labels d m (emit_instr backend im f i)
  unfolding emit_instr
  emit_instr-access i e hl hi past =
      let outside : ltb (value (operand f index m.memory)) (value (operand f handle m.memory))
          ≡ false =
        ground (arith, past) in
      refuses i.span i.result i.opcode i.operands e
        (less_lem (operand f index m.memory) (operand f handle m.memory) hi hl ∙ outside)
