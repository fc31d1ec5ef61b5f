-- ===== src/Evm/Asm.antt =====
-- crates/covenant-evm-backend/src/asm.rs: symbolic assembly to bytes, in two phases. A byte is a
-- number below 256. The label table is an association list, the newest entry first. `none` of
-- `push_n`, and so of `assemble`, is the panic of the source.
pub mod Image
pub mod Jumps
pub mod Push
pub mod Tests
use covenant_language.Base.{
  ℕ, zero, suc, ◌+◌, ◌-◌, ◌*◌, ◌/◌, ◌%◌, ◌^◌, Bool, true, false, ◌&&◌, Option, none, some, String,
  List, [], ◌∷◌, ◌++◌, leb, ◌==◌, str_eq, length, if◌then◌else◌,
}

pub data AsmOp : Type 0 where
  op : ℕ → AsmOp
  push_bytes : List ℕ → AsmOp
  push0 : AsmOp
  label_def push_label : String → AsmOp

abbrev pub op_jumpdest : ℕ
op_jumpdest = 0x5b

abbrev pub op_push0 : ℕ
op_push0 = 0x5f

abbrev pub max_push_bytes : ℕ
max_push_bytes = 32

-- The opcode that carries `n` immediate bytes, a `u8`.
unfoldable pub push_n : ℕ → Option ℕ
push_n n = if leb 1 n && leb n 32 then some (0x60 + (n - 1)) else none

unfoldable pub op_len : AsmOp → ℕ
op_len (AsmOp.op _) = 1
op_len (AsmOp.push_bytes b) = 1 + length b
op_len AsmOp.push0 = 1
op_len (AsmOp.label_def _) = 1
op_len (AsmOp.push_label _) = 3

abbrev pub Labels : Type 0
Labels = List (String × ℕ)

unfoldable pub find_label : String → Labels → Option ℕ
find_label name [] = none
find_label name ((k, v) ∷ m) = if str_eq k name then some v else find_label name m

-- Phase 1: the `u32` cursor at each label definition.
unfoldable pub label_offsets : Labels → ℕ → List AsmOp → Labels
unfolding op_len
label_offsets labels cursor [] = labels
label_offsets labels cursor (AsmOp.label_def name ∷ ops) =
    label_offsets ((name, cursor) ∷ labels) ((cursor + 1) % 2 ^ 32) ops
label_offsets labels cursor (o ∷ ops) =
    label_offsets labels ((cursor + op_len o % 2 ^ 32) % 2 ^ 32) ops

abbrev pub Emitted : Type 0
Emitted = List ℕ × List String

-- Rust's panic is the failure of the whole call.
infixl 5 ◌>>=◌
abbrev pub ◌>>=◌ {ℓ κ} : {A : Type ℓ} {B : Type κ} → Option A → (A → Option B) → Option B
none >>= k = none
some a >>= k = k a

-- Phase 2 at one operation: its bytes, and its label if that is not in the table.
unfoldable pub emit_op : Labels → AsmOp → Option Emitted
unfolding push_n find_label
emit_op labels (AsmOp.op b) = some (b ∷ [], [])
emit_op labels (AsmOp.push_bytes b) =
    let n = length b % 256 in
    if n == 0 then some (op_push0 ∷ [], []) else (do o ← push_n n; some (o ∷ b, []))
emit_op labels AsmOp.push0 = some (op_push0 ∷ [], [])
emit_op labels (AsmOp.label_def _) = some (op_jumpdest ∷ [], [])
emit_op labels (AsmOp.push_label name) = elim (find_label name labels) [
  | some offset ↦ do o ← push_n 2; some (o ∷ offset / 2 ^ 8 % 256 ∷ offset % 256 ∷ [], [])
  | none ↦ do o ← push_n 2; some (o ∷ 0 ∷ 0 ∷ [], name ∷ [])
]

unfoldable pub emit_all : Labels → List AsmOp → Option Emitted
emit_all labels [] = some ([], [])
emit_all labels (o ∷ ops) = do
  first ← emit_op labels o
  rest ← emit_all labels ops
  some (first.0 ++ rest.0, first.1 ++ rest.1)

-- The bytecode and the unresolved labels.
unfoldable pub assemble : List AsmOp → Option Emitted
assemble ops = emit_all (label_offsets [] 0 ops) ops

-- The `Assembler`: its operations so far, in order.
abbrev pub Assembler : Type 0
Assembler = List AsmOp

unfoldable pub emit : Assembler → AsmOp → Assembler
emit ops o = ops ++ o ∷ []

unfoldable pub skip_zeros : List ℕ → List ℕ
skip_zeros [] = []
skip_zeros (b ∷ bs) = if b == 0 then skip_zeros bs else b ∷ bs

unfoldable pub u32_be_bytes : ℕ → List ℕ
u32_be_bytes v = v / 2 ^ 24 % 256 ∷ v / 2 ^ 16 % 256 ∷ v / 2 ^ 8 % 256 ∷ v % 256 ∷ []

-- The immediate of `push_u32`: the big-endian bytes without leading zeros, or one zero byte.
unfoldable pub trimmed_bytes : ℕ → List ℕ
unfolding skip_zeros u32_be_bytes
trimmed_bytes v = elim (skip_zeros (u32_be_bytes v)) [ [] ↦ 0 ∷ [] | b ∷ bs ↦ b ∷ bs ]

unfoldable pub push_u32 : Assembler → ℕ → Assembler
unfolding emit trimmed_bytes
push_u32 ops v = emit ops (AsmOp.push_bytes (trimmed_bytes v))

unfoldable pub push_slot : Assembler → ℕ → Assembler
unfolding push_u32
push_slot ops slot = push_u32 ops slot
