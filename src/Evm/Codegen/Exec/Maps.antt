-- ===== src/Evm/Codegen/Exec/Maps.antt =====
-- The entries of maps in crates/covenant-evm-backend/src/codegen.rs on the machine: an entry lies at the hash
-- of the key's word and the word of the field's slot.
use covenant_language.Base.{
  ℕ, ◌^◌, ◌≤◌, ◌<◌, ◌≡◌, ◌≢◌, refl, ap, ◌∙◌, true, false, some, List, [], ◌∷◌, ◌++◌, arith, length,
  leb,
}
use mathlib.Core.List.{append_assoc}
use covenant_language.Ir.Ident.{Value}
use covenant_language.Ir.Opcode.{Opcode}
use covenant_language.Ir.Function.{Instr, IrFunction}
use covenant_language.Ir.Module.{IrModule}
use covenant_language.Runtime.Bytes.{window}
use covenant_language.Runtime.U256.{U256, zero_word, from_u64}
use covenant_language.Runtime.U256.Bits.{as_usize_saturating, from_be_bytes, to_be_bytes}
use covenant_language.Runtime.Evm.{
  CallEnv, HostState, Machine, Flow, Next, sload, ◌>>=◌, pure, pop, push, expand, read_memory, gets,
  sstore,
}
use covenant_language.Runtime.Evm.Step.{instruction, sstore_arm, store_slot}
use covenant_language.Evm.Asm.{AsmOp, Labels}
use covenant_language.Evm.Codegen.{Code, number, unreported, load_operand, mstore_result}
use covenant_language.Evm.Codegen.Storage.{map_base_slot, base_word, emit_map_slot}
use covenant_language.Evm.Codegen.Opcodes.{Backend, emit_opcode, emit_instr}
use covenant_language.Evm.Codegen.Exec.{exec}
use covenant_language.Evm.Codegen.Exec.Operands.{
  offset_word_lem, usize-from_u64, st, after, after_push, after_push0, after_mstore,
}
use covenant_language.Evm.Codegen.Exec.Values.{
  HasSlot, slot_bytes_of, slot_bytes_of-loaded, operand, operand-loaded, loaded, after_load,
  after_store,
}
use covenant_language.Evm.Codegen.Exec.Plain.{Yields, yields}
use covenant_language.Evm.Codegen.Exec.Scratch.{
  with_word, two_words, long_enough, expanded, usize_zero, slot_bytes_of-with_word,
}

module _ (keccak : List ℕ → List ℕ) (env : CallEnv) (code : List ℕ) (labels : Labels) where
  after-number :
      (n : ℕ) (rest : Code) (s : List U256) (mem : List ℕ) (m : Machine)
      → n < 2 ^ 32
      → length s < 1024
      → after keccak env code labels (number n ∷ rest) s mem m
        ≡ after keccak env code labels rest (from_u64 n ∷ s) mem m
  after-number n rest s mem m small h =
      after_push keccak env code labels _ rest s mem m h
      ∙ ap (λ w. after keccak env code labels rest (w ∷ s) mem m) (offset_word_lem n small)

  after_keccak :
      (rest : Code) (s : List U256) (mem : List ℕ) (m : Machine)
      → 64 ≤ length mem
      → length s < 1023
      → after keccak env code labels (AsmOp.op 0x20 ∷ rest) (zero_word ∷ from_u64 64 ∷ s) mem m
        ≡ after keccak env code labels rest (from_be_bytes (keccak (window 64 mem)) ∷ s) mem m
  unfolding exec instruction ◌>>=◌ pure pop push expand read_memory
  after_keccak rest s mem m long h =
      let room : leb 1024 (length s) ≡ false = ground (arith, h) in
      let many : as_usize_saturating (from_u64 64) ≡ 64 = usize-from_u64 64 (omega arith) in
      let kept = expanded mem long in
      let whole : leb 64 (length mem) ≡ true = ground (arith, long) in
      rw (usize_zero, many, kept, whole, room) refl

  after-sload :
      (k : U256) (rest : Code) (s : List U256) (mem : List ℕ) (m : Machine)
      → length s < 1024
      → after keccak env code labels (AsmOp.op 0x54 ∷ rest) (k ∷ s) mem m
        ≡ after keccak env code labels rest (sload m.host env.address k ∷ s) mem m
  unfolding exec instruction ◌>>=◌ pop push gets sload
  after-sload k rest s mem m h =
      let room : leb 1024 (length s) ≡ false = ground (arith, h) in rw room refl

  abbrev pub with_host : HostState → Machine → Machine
  with_host host m = record m { host = host }

  -- The code falls through, and of what the contract and the values hold only one word of the storage
  -- changes.
  abbrev pub Writes : Code → U256 → U256 → Value → Machine → Type 0
  Writes ops k w v m =
      (n : Machine) × (exec keccak env code labels ops m ≡ Flow.go Next.fall n)
      × (n.host ≡ sstore m.host env.address k w)
      × (n.stack ≡ m.stack)
      × (slot_bytes_of v n.memory ≡ slot_bytes_of v m.memory)

  after-sstore :
      (k w : U256) (s : List U256) (mem : List ℕ) (m : Machine)
      → env.is_static ≡ false
      → after keccak env code labels (AsmOp.op 0x55 ∷ []) (k ∷ w ∷ s) mem m
        ≡ Flow.go Next.fall (with_host (sstore m.host env.address k w) (st s mem m))
  unfolding exec instruction ◌>>=◌ pop sstore_arm store_slot
  after-sstore k w s mem m free = rw free refl

  module _ (im : IrModule) (f : IrFunction) (handle key : Value) (slot : ℕ)
      (found : map_base_slot im f handle ≡ some slot) (small : slot < 2 ^ 32) where
    -- The bytes that are hashed, and the memory that they are left in.
    abbrev pub entry_bytes : List ℕ → List ℕ
    entry_bytes mem = to_be_bytes (operand f key mem) ++ to_be_bytes (from_u64 slot)

    abbrev hashed : List ℕ → List ℕ
    hashed mem = with_word 32 (from_u64 slot) (with_word 0 (operand f key mem) (loaded f key mem))

    base_lem : base_word im f handle ≡ number slot ∷ []
    unfolding base_word
    base_lem = rw (found, base_word) refl

    kept :
        (v : Value) (mem : List ℕ) → HasSlot v → slot_bytes_of v (hashed mem) ≡ slot_bytes_of v mem
    kept v mem hv =
        slot_bytes_of-with_word 32 v _ _ (omega arith) hv
        ∙ slot_bytes_of-with_word 0 v _ _ (omega arith) hv
        ∙ slot_bytes_of-loaded f key v mem

    after_map_slot :
        (vs : List Value) (rest : Code) (s : List U256) (mem : List ℕ) (m : Machine)
        → length s < 1010
        → after keccak env code labels (emit_map_slot im f (handle ∷ key ∷ vs) ++ rest) s mem m
          ≡ after keccak env code labels rest
              (from_be_bytes (keccak (entry_bytes mem)) ∷ s)
              (hashed mem)
              m
    unfolding emit_map_slot
    after_map_slot vs rest s mem m h =
        rw (base_lem, append_assoc)
          (after_load keccak env code labels f key _ s mem m (omega (arith, h))
            ∙ after_push0 keccak env code labels _ _ _ m (omega (arith, h))
            ∙ after_mstore keccak env code labels _ (operand f key mem) 0 _ s (loaded f key mem) m
                usize_zero (omega arith)
            ∙ after-number slot _ s _ m small (omega (arith, h))
            ∙ after-number 32 _ _ _ m (omega arith) (omega (arith, h))
            ∙ after_mstore keccak env code labels (from_u64 32) (from_u64 slot) 32 _ s _ m
                (usize-from_u64 32 (omega arith)) (omega arith)
            ∙ after-number 64 _ s _ m (omega arith) (omega (arith, h))
            ∙ after_push0 keccak env code labels _ _ _ m (omega (arith, h))
            ∙ after_keccak rest s (hashed mem) m (long_enough _ _) (omega (arith, h))
            ∙ ap
                (λ bs.
                  after keccak env code labels rest (from_be_bytes (keccak bs) ∷ s) (hashed mem) m)
                (two_words _ _ _))

    -- A read of an entry of a map field: the result's place gets the word that the called contract's
    -- storage has at the hash of the key's word and the word of the field's slot, and the code falls
    -- through with the place of every other value, the stack and the host as they were.
    pub emit_instr-sload :
        (backend : Backend) (i : Instr) (r v : Value) (m : Machine)
        → i.opcode ≡ Opcode.map_get
        → i.operands ≡ handle ∷ key ∷ []
        → i.result ≡ some r
        → HasSlot r
        → HasSlot v
        → v ≢ r
        → length m.stack < 1000
        → (ops : Code) × (emit_instr backend im f i ≡ some (unreported ops))
          × Yields keccak env code labels ops r
              (sload m.host env.address (from_be_bytes (keccak (entry_bytes m.memory))))
              v
              m
    unfolding emit_instr emit_opcode
    emit_instr-sload backend i r v m opcode two here hr hv ne h =
        let ops =
          emit_map_slot im f (handle ∷ key ∷ []) ++ (AsmOp.op 0x54 ∷ mstore_result (some r)) in
        (
          ops,
          rw (opcode, two, here) refl,
          yields keccak env code labels ops r _ v (hashed m.memory) m hr hv ne (kept v m.memory hv)
              (rw (append_assoc (emit_map_slot im f (handle ∷ key ∷ []))) (
                after_map_slot [] _ m.stack m.memory m (omega (arith, h))
                ∙ after-sload _ _ m.stack _ m (omega (arith, h))
                ∙ after_store keccak env code labels (some r) _ [] m.stack _ m (omega (arith, h)))),
        )

    -- A write of an entry of a map field, in a call that is not static: the called contract's storage
    -- gets the value's word at the hash of the key's word and the word of the field's slot, and the code
    -- falls through with the place of every value and the stack as they were.
    pub emit_instr-sstore :
        (backend : Backend) (i : Instr) (x v : Value) (m : Machine)
        → i.opcode ≡ Opcode.map_set
        → i.operands ≡ handle ∷ key ∷ x ∷ []
        → HasSlot v
        → length m.stack < 1000
        → env.is_static ≡ false
        → (ops : Code) × (emit_instr backend im f i ≡ some (unreported ops))
          × Writes ops (from_be_bytes (keccak (entry_bytes m.memory))) (operand f x m.memory) v m
    unfolding emit_instr emit_opcode
    emit_instr-sstore backend i x v m opcode three hv h free =
        let mem = loaded f x m.memory in
        let slot_code = emit_map_slot im f (handle ∷ key ∷ x ∷ []) in
        (
          load_operand f x ++ (slot_code ++ AsmOp.op 0x55 ∷ []),
          rw (opcode, three) refl,
          (
            with_host
                (sstore m.host env.address (from_be_bytes (keccak (entry_bytes m.memory)))
                  (operand f x m.memory))
                (st m.stack (hashed mem) m),
            after_load keccak env code labels f x _ m.stack m.memory m (omega (arith, h))
                ∙ after_map_slot (x ∷ []) _ _ mem m (omega (arith, h))
                ∙ after-sstore _ _ m.stack (hashed mem) m free
                ∙ ap
                    (λ k. Flow.go Next.fall (
                      with_host
                        (sstore m.host env.address
                          (from_be_bytes (keccak (to_be_bytes k ++ to_be_bytes (from_u64 slot))))
                          (operand f x m.memory))
                        (st m.stack (hashed mem) m)))
                    (operand-loaded f x key m.memory),
            refl,
            refl,
            kept v mem hv ∙ slot_bytes_of-loaded f x v m.memory,
          ),
        )
