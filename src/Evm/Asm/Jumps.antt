-- ===== src/Evm/Asm/Jumps.antt =====
-- Jumps of crates/covenant-evm-backend/src/asm.rs land on their JUMPDEST.
use covenant_language.Base.{
  ℕ, ◌+◌, ◌/◌, ◌%◌, ◌^◌, ◌<◌, ◌≡◌, refl, sym, ap, subst, ◌∙◌, true, false, Option, some, String,
  List, [], ◌∷◌, ◌++◌, arith, length, get_elem?, get_elem?-append_right, str_eq, str_eq_iff, All,
}
use native.Mathlib.Nat.{add-zero}
use covenant_language.Evm.Asm.{AsmOp, Labels, find_label, assemble, label_offsets, op_jumpdest}
use covenant_language.Evm.Asm.Image.{
  Fits, image, image_all, missing_all, total_len, label_image, length-image_all, image_all-append,
  assemble-image,
}

-- No operation of the list defines the label.
abbrev pub NotDefined : String → List AsmOp → Type 0
NotDefined name [] = Unit {0}
NotDefined name (AsmOp.label_def n ∷ ops) = (str_eq n name ≡ false) × NotDefined name ops
NotDefined name (_ ∷ ops) = NotDefined name ops

find_label-skip :
    (name : String) (labels : Labels) (cursor : ℕ) (ops : List AsmOp)
    → NotDefined name ops
    → find_label name (label_offsets labels cursor ops) ≡ find_label name labels
unfolding label_offsets find_label
find_label-skip name labels cursor [] h = refl
find_label-skip name labels cursor (AsmOp.label_def n ∷ ops) h =
    find_label-skip name ((n, cursor) ∷ labels) _ ops h.1 ∙ rw h.0
find_label-skip name labels cursor (AsmOp.op b ∷ ops) h = find_label-skip name labels _ ops h
find_label-skip name labels cursor (AsmOp.push_bytes b ∷ ops) h =
    find_label-skip name labels _ ops h
find_label-skip name labels cursor (AsmOp.push0 ∷ ops) h = find_label-skip name labels _ ops h
find_label-skip name labels cursor (AsmOp.push_label n ∷ ops) h =
    find_label-skip name labels _ ops h

str_eq_refl : (s : String) → str_eq s s ≡ true
str_eq_refl s = (str_eq_iff s s).1 refl

-- The `u32` cursor does not wrap below its modulus.
cursor_step :
    (cursor n rest : ℕ) → cursor + (n + rest) < 2 ^ 32 → (cursor + n % 2 ^ 32) % 2 ^ 32 ≡ cursor + n
cursor_step cursor n rest lt = omega arith

-- The last definition of a label is in the table at the length of what stands before it.
pub find_label-defined :
    (name : String) (labels : Labels) (cursor : ℕ) (pre post : List AsmOp)
    → NotDefined name post
    → cursor + total_len pre < 2 ^ 32
    → find_label name (label_offsets labels cursor (pre ++ AsmOp.label_def name ∷ post))
      ≡ some (cursor + total_len pre)
unfolding label_offsets find_label total_len
find_label-defined name labels cursor [] post h lt =
    find_label-skip name ((name, cursor) ∷ labels) _ post h
    ∙ rw (str_eq_refl name) (ap some (omega arith))
find_label-defined name labels cursor (AsmOp.label_def n ∷ pre) post h lt =
    let e : (cursor + 1) % 2 ^ 32 ≡ cursor + 1 = omega arith in
    ap
      (λ c.
        find_label name
          (label_offsets ((n, cursor) ∷ labels) c (pre ++ AsmOp.label_def name ∷ post)))
      e
    ∙ find_label-defined name ((n, cursor) ∷ labels) (cursor + 1) pre post h (omega arith)
    ∙ ap some (omega arith)
find_label-defined name labels cursor (AsmOp.op b ∷ pre) post h lt =
    ap (λ c. find_label name (label_offsets labels c (pre ++ AsmOp.label_def name ∷ post)))
      (cursor_step cursor 1 (total_len pre) lt)
    ∙ find_label-defined name labels (cursor + 1) pre post h (omega arith)
    ∙ ap some (omega arith)
find_label-defined name labels cursor (AsmOp.push_bytes b ∷ pre) post h lt =
    ap (λ c. find_label name (label_offsets labels c (pre ++ AsmOp.label_def name ∷ post)))
      (cursor_step cursor (1 + length b) (total_len pre) lt)
    ∙ find_label-defined name labels (cursor + (1 + length b)) pre post h (omega arith)
    ∙ ap some (omega arith)
find_label-defined name labels cursor (AsmOp.push0 ∷ pre) post h lt =
    ap (λ c. find_label name (label_offsets labels c (pre ++ AsmOp.label_def name ∷ post)))
      (cursor_step cursor 1 (total_len pre) lt)
    ∙ find_label-defined name labels (cursor + 1) pre post h (omega arith)
    ∙ ap some (omega arith)
find_label-defined name labels cursor (AsmOp.push_label n ∷ pre) post h lt =
    ap (λ c. find_label name (label_offsets labels c (pre ++ AsmOp.label_def name ∷ post)))
      (cursor_step cursor 3 (total_len pre) lt)
    ∙ find_label-defined name labels (cursor + 3) pre post h (omega arith)
    ∙ ap some (omega arith)

pub total_len-append : (xs ys : List AsmOp) → total_len (xs ++ ys) ≡ total_len xs + total_len ys
unfolding total_len
total_len-append [] ys = omega arith
total_len-append (x ∷ xs) ys = omega (arith, total_len-append xs ys)

-- The bytes from an operation on, by their place in the bytecode.
code_at :
    (labels : Labels) (pre : List AsmOp) (o : AsmOp) (post : List AsmOp) (i : ℕ)
    → get_elem? (image_all labels (pre ++ o ∷ post)) (total_len pre + i)
      ≡ get_elem? (image labels o ++ image_all labels post) i
unfolding image_all image
code_at labels pre o post i =
    rw (image_all-append labels pre (o ∷ post), ← length-image_all labels pre)
      (get_elem?-append_right (image_all labels pre) (image_all labels (o ∷ post)) i)

-- In a program of fewer than 2 ^ 16 bytes whose literals fit one PUSH, a push of a label is a PUSH2
-- of the place of the label's last definition, and a JUMPDEST stands there.
pub assemble-jumps :
    (ops before after pre post : List AsmOp) (name : String)
    → ops ≡ before ++ AsmOp.push_label name ∷ after
    → ops ≡ pre ++ AsmOp.label_def name ∷ post
    → NotDefined name post
    → All Fits ops
    → total_len ops < 2 ^ 16
    → (code : List ℕ) × (unresolved : List String) × (assemble ops ≡ some (code, unresolved))
      × (get_elem? code (total_len before) ≡ some 0x61)
      × (get_elem? code (total_len before + 1) ≡ some (total_len pre / 256))
      × (get_elem? code (total_len before + 2) ≡ some (total_len pre % 256))
      × (get_elem? code (total_len pre) ≡ some op_jumpdest)
unfolding image total_len
assemble-jumps ops before after pre post name eb ep last fits small = (
  image_all labels ops,
  missing_all labels ops,
  (assemble-image ops fits).0,
  ap (get_elem? (image_all labels ops)) (sym (add-zero (total_len before))) ∙ pushed 0,
  pushed 1 ∙ ap some (omega (arith, below)),
  pushed 2 ∙ ap some (omega arith),
  target,
)
  where
    labels : Labels
    labels = label_offsets [] 0 ops

    below : total_len pre < 2 ^ 16
    below = omega (arith, ap total_len ep, total_len-append pre (AsmOp.label_def name ∷ post))

    found : find_label name labels ≡ some (total_len pre)
    found =
        subst (λ (os : List AsmOp). find_label name (label_offsets [] 0 os) ≡ some (total_len pre))
          (sym ep)
          (find_label-defined name [] 0 pre post last (omega (arith, below))
            ∙ ap some (omega arith))

    pushed :
        (i : ℕ)
        → get_elem? (image_all labels ops) (total_len before + i)
          ≡ get_elem? (label_image (some (total_len pre)) ++ image_all labels after) i
    pushed i =
        subst
          (λ (os : List AsmOp).
            get_elem? (image_all labels os) (total_len before + i)
            ≡ get_elem? (label_image (some (total_len pre)) ++ image_all labels after) i)
          (sym eb)
          (code_at labels before (AsmOp.push_label name) after i
            ∙ ap (λ (o : Option ℕ). get_elem? (label_image o ++ image_all labels after) i) found)

    target : get_elem? (image_all labels ops) (total_len pre) ≡ some op_jumpdest
    target =
        subst (λ (k : ℕ). get_elem? (image_all labels ops) k ≡ some op_jumpdest)
          (add-zero (total_len pre))
          (subst
            (λ (os : List AsmOp).
              get_elem? (image_all labels os) (total_len pre + 0) ≡ some op_jumpdest)
            (sym ep) (code_at labels pre (AsmOp.label_def name) post 0))
