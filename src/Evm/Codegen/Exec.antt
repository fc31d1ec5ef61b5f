-- ===== src/Evm/Codegen/Exec.antt =====
-- The code of crates/covenant-evm-backend/src/codegen.rs run on the machine of
-- crates/covenant-evm-runtime/src/evm.rs, operation by operation, before it is laid out as bytes.
-- `labels` are the places of the labels in the bytecode `code`.
pub mod Memory
pub mod Operands
pub mod Values
pub mod Steps
pub mod Binops
pub mod Plain
pub mod Checked
pub mod Guards
pub mod Lists
pub mod Scratch
pub mod Maps
pub mod Entries
pub mod Blocks
pub mod Dispatch
pub mod Tests
use covenant_language.Base.{
  ℕ, ◌-◌, ◌+◌, ◌≡◌, refl, Option, none, some, String, List, [], ◌∷◌, ◌++◌, length,
}
use covenant_language.Evm.Asm.{AsmOp, Labels, find_label}
use covenant_language.Runtime.Bytes.{window}
use covenant_language.Runtime.U256.{U256, zero_word, from_u64}
use covenant_language.Runtime.U256.Bits.{from_be_bytes}
use covenant_language.Runtime.Evm.{CallEnv, Machine, Flow, Op, Next, bind_flow, push}
use covenant_language.Runtime.Evm.Step.{instruction}

-- The word that a PUSH of these bytes pushes.
abbrev pub pushed_word : List ℕ → U256
pushed_word bs = from_be_bytes (window (32 - length bs) [] ++ bs)

-- An unresolved label is a zero.
abbrev pub label_place : Option ℕ → ℕ
label_place (some n) = n
label_place none = 0

module _ (keccak : List ℕ → List ℕ) (env : CallEnv) (code : List ℕ) (labels : Labels) where
  abbrev pub op_arm : AsmOp → Op Next
  op_arm (AsmOp.op b) = instruction keccak env code b
  op_arm (AsmOp.push_bytes bs) = push (pushed_word bs)
  op_arm AsmOp.push0 = push zero_word
  op_arm (AsmOp.label_def _) = Flow.go Next.fall
  op_arm (AsmOp.push_label name) = push (from_u64 (label_place (find_label name labels)))

  -- Control goes on to the next operation, or away from this code.
  abbrev pub onward : Op Next → Next → Op Next
  onward rest Next.fall = rest
  onward rest (Next.goto d) = Flow.go (Next.goto d)

  -- The operations in order, up to the first one that jumps, halts or panics.
  unfoldable pub exec : List AsmOp → Op Next
  exec [] = Flow.go Next.fall
  exec (o ∷ os) = λ m. bind_flow (op_arm o m) (onward (exec os))
