-- ===== src/Evm/Asm/Image.antt =====
-- The assembler of crates/covenant-evm-backend/src/asm.rs against a description that cannot fail:
-- each operation has an image of bytes, as long as `op_len` says.
use covenant_language.Base.{
  ℕ, ◌+◌, ◌/◌, ◌%◌, ◌^◌, ◌≤◌, ◌≡◌, refl, inl, inr, Option, none, some, String, List, [], ◌∷◌, ◌++◌,
  arith, length, length-append, All, Option-cases,
}
use mathlib.Core.List.{append_assoc}
use covenant_language.Evm.Asm.{
  AsmOp, op_len, Labels, find_label, emit_op, emit_all, assemble, label_offsets, op_push0,
  op_jumpdest,
}

-- A literal fits one PUSH.
abbrev pub Fits : AsmOp → Type 0
Fits (AsmOp.push_bytes b) = length b ≤ 32
Fits _ = Unit {0}

-- A PUSH of `b`: PUSH0 stands for no bytes.
abbrev pub push_image : List ℕ → List ℕ
push_image [] = op_push0 ∷ []
push_image (x ∷ b) = (0x60 + length b) ∷ x ∷ b

abbrev pub label_image : Option ℕ → List ℕ
label_image (some offset) = 0x61 ∷ offset / 2 ^ 8 % 256 ∷ offset % 256 ∷ []
label_image none = 0x61 ∷ 0 ∷ 0 ∷ []

unfoldable pub image : Labels → AsmOp → List ℕ
image labels (AsmOp.op b) = b ∷ []
image labels (AsmOp.push_bytes b) = push_image b
image labels AsmOp.push0 = op_push0 ∷ []
image labels (AsmOp.label_def _) = op_jumpdest ∷ []
image labels (AsmOp.push_label name) = label_image (find_label name labels)

abbrev label_missing : String → Option ℕ → List String
label_missing name (some _) = []
label_missing name none = name ∷ []

unfoldable pub missing : Labels → AsmOp → List String
missing labels (AsmOp.push_label name) = label_missing name (find_label name labels)
missing labels _ = []

unfoldable pub image_all : Labels → List AsmOp → List ℕ
image_all labels [] = []
image_all labels (o ∷ ops) = image labels o ++ image_all labels ops

unfoldable pub missing_all : Labels → List AsmOp → List String
missing_all labels [] = []
missing_all labels (o ∷ ops) = missing labels o ++ missing_all labels ops

unfoldable pub total_len : List AsmOp → ℕ
total_len [] = 0
total_len (o ∷ ops) = op_len o + total_len ops

emit_op-image :
    (labels : Labels) (o : AsmOp)
    → Fits o
    → emit_op labels o ≡ some (image labels o, missing labels o)
unfolding emit_op image missing
emit_op-image labels (AsmOp.push_bytes []) h = ground arith
emit_op-image labels (AsmOp.push_bytes (x ∷ b)) h = ground arith
emit_op-image labels (AsmOp.push_label name) h = elim (Option-cases (find_label name labels)) [
  | inl e ↦ rw (e, emit_op)
  | inr (off, e) ↦ rw (e, emit_op)
]
emit_op-image labels _ h = refl

emit_all-image :
    (labels : Labels) (ops : List AsmOp)
    → All Fits ops
    → emit_all labels ops ≡ some (image_all labels ops, missing_all labels ops)
unfolding emit_all image_all missing_all
emit_all-image labels [] h = refl
emit_all-image labels (o ∷ ops) h = rw (emit_op-image labels o h.0, emit_all-image labels ops h.1)

pub length-image : (labels : Labels) (o : AsmOp) → length (image labels o) ≡ op_len o
unfolding image op_len
length-image labels (AsmOp.push_bytes []) = omega arith
length-image labels (AsmOp.push_bytes (x ∷ b)) = omega arith
length-image labels (AsmOp.push_label name) = ground arith
length-image labels _ = refl

pub length-image_all :
    (labels : Labels) (ops : List AsmOp) → length (image_all labels ops) ≡ total_len ops
unfolding image_all total_len
length-image_all labels [] = refl
length-image_all labels (o ∷ ops) = omega (
  arith,
  length-append (image labels o) (image_all labels ops),
  length-image labels o,
  length-image_all labels ops,
)

pub image_all-append :
    (labels : Labels) (xs ys : List AsmOp)
    → image_all labels (xs ++ ys) ≡ image_all labels xs ++ image_all labels ys
unfolding image_all
image_all-append labels [] ys = refl
image_all-append labels (x ∷ xs) ys = rw (image_all-append labels xs ys, append_assoc)

-- Where every literal fits one PUSH, the assembler does not panic: it yields the images of the
-- operations in order, in as many bytes as `op_len` counts, and the labels it found no entry for.
pub assemble-image :
    (ops : List AsmOp)
    → All Fits ops
    → let labels = label_offsets [] 0 ops in
      (assemble ops ≡ some (image_all labels ops, missing_all labels ops))
      × (length (image_all labels ops) ≡ total_len ops)
unfolding assemble
assemble-image ops h =
    let labels = label_offsets [] 0 ops in
    (emit_all-image labels ops h, length-image_all labels ops)
