-- ===== src/Evm/Codegen/Exec/Entries.antt =====
-- A write of a map's entry in crates/covenant-evm-backend/src/codegen.rs, and a read of it afterwards.
use covenant_language.Base.{
  ℕ, ◌^◌, ◌<◌, ◌≡◌, ◌≢◌, refl, ap, ◌∙◌, sym, false, true, some, List, [], ◌∷◌, ◌++◌, ==-refl,
  length, Option-cases, inl, inr, subst,
}
use covenant_language.Ir.Ident.{Value}
use covenant_language.Ir.Opcode.{Opcode}
use covenant_language.Ir.Function.{Instr, IrFunction}
use covenant_language.Ir.Module.{IrModule}
use covenant_language.Runtime.Bytes.{bytes_eq_refl}
use covenant_language.Runtime.Address.{Address}
use covenant_language.Runtime.U256.{U256, from_u64}
use covenant_language.Runtime.U256.Bits.{word_eq, from_be_bytes, to_be_bytes}
use covenant_language.Runtime.Evm.{CallEnv, HostState, Machine, Flow, Next, sload, sstore}
use covenant_language.Evm.Asm.{Labels}
use covenant_language.Evm.Codegen.{Code, unreported, const_value}
use covenant_language.Evm.Codegen.Storage.{map_base_slot}
use covenant_language.Evm.Codegen.Opcodes.{Backend, emit_instr}
use covenant_language.Evm.Codegen.Exec.{exec}
use covenant_language.Evm.Codegen.Exec.Values.{HasSlot, slot_bytes_of, operand}
use covenant_language.Evm.Codegen.Exec.Plain.{Yields}
use covenant_language.Evm.Codegen.Exec.Maps.{emit_instr-sload, emit_instr-sstore}

word_eq_refl : (w : U256) → word_eq w w ≡ true
word_eq_refl w = rw (==-refl w.limb0, ==-refl w.limb1, ==-refl w.limb2, ==-refl w.limb3) refl

sload-sstore : (h : HostState) (a : Address) (k w : U256) → sload (sstore h a k w) a k ≡ w
unfolding sload sstore
sload-sstore h a k w = rw (bytes_eq_refl a, word_eq_refl k) refl

operand-same :
    (f : IrFunction) (v : Value) (mem new : List ℕ)
    → slot_bytes_of v new ≡ slot_bytes_of v mem
    → operand f v new ≡ operand f v mem
unfolding operand
operand-same f v mem new e = elim (Option-cases (const_value f v)) [
  | inl n ↦ rw (n, operand) (ap from_be_bytes e)
  | inr (c, n) ↦ rw (n, operand) refl
]

module _ (keccak : List ℕ → List ℕ) (env : CallEnv) (code : List ℕ) (labels : Labels)
    (im : IrModule) (f : IrFunction) (handle key : Value) (slot : ℕ)
    (found : map_base_slot im f handle ≡ some slot) (small : slot < 2 ^ 32)
    (backend : Backend) where
  abbrev key_of : Machine → U256
  key_of m =
      from_be_bytes (keccak (to_be_bytes (operand f key m.memory) ++ to_be_bytes (from_u64 slot)))

  -- A write of an entry of a map field, in a call that is not static, and a read of the entry under the
  -- same key afterwards: both run through, and the read's result is the word that was written.
  pub emit_instr-sload-sstore :
      (i j : Instr) (x r v : Value) (m : Machine)
      → i.opcode ≡ Opcode.map_set
      → i.operands ≡ handle ∷ key ∷ x ∷ []
      → j.opcode ≡ Opcode.map_get
      → j.operands ≡ handle ∷ key ∷ []
      → j.result ≡ some r
      → HasSlot key
      → HasSlot r
      → HasSlot v
      → v ≢ r
      → length m.stack < 1000
      → env.is_static ≡ false
      → (set : Code) × (get : Code) × (n : Machine) × (emit_instr backend im f i
          ≡ some (unreported set))
        × (emit_instr backend im f j ≡ some (unreported get))
        × (exec keccak env code labels set m ≡ Flow.go Next.fall n)
        × Yields keccak env code labels get r (operand f x m.memory) v n
  emit_instr-sload-sstore i j x r v m set_op set_two get_op get_two here hk hr hv ne h free =
      let (set, set_emitted, written) =
        emit_instr-sstore keccak env code labels im f handle key slot found small backend i x key m
          set_op set_two hk h free in
      let (n, runs, host, stack, same) = written in
      let room : length n.stack < 1000 = subst (λ s. length s < 1000) (sym stack) h in
      let (get, get_emitted, yields) =
        emit_instr-sload keccak env code labels im f handle key slot found small backend j r v n
          get_op get_two here hr hv ne room in
      let kept : key_of n ≡ key_of m =
        ap (λ w. from_be_bytes (keccak (to_be_bytes w ++ to_be_bytes (from_u64 slot))))
          (operand-same f key m.memory n.memory same) in
      let read : sload n.host env.address (key_of n) ≡ operand f x m.memory =
        ap (λ g. sload g env.address (key_of n)) host
        ∙ ap (sload (sstore m.host env.address (key_of m) (operand f x m.memory)) env.address) kept
        ∙ sload-sstore m.host env.address (key_of m) (operand f x m.memory) in
      (
        set,
        get,
        n,
        set_emitted,
        get_emitted,
        runs,
        subst (λ w. Yields keccak env code labels get r w v n) read yields,
      )
