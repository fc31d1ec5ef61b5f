-- ===== src/Evm/Codegen/Bytecode/Places.antt =====
-- The labels of crates/covenant-evm-backend/src/asm.rs in the bytecode that crates/covenant-evm-runtime/src/evm.rs
-- reads: an instruction begins at every operation, and a jump to a label finds its destination.
use covenant_language.Base.{
  ℕ, ◌+◌, ◌^◌, ◌<◌, ◌≡◌, refl, ap, sym, ◌∙◌, subst, Option, none, some, String, List, [], ◌∷◌, ◌++◌,
  arith, length, length-append, drop, get_or, All,
}
use mathlib.Core.List.{append_assoc}
use covenant_language.Runtime.Bytes.{drop-append}
use covenant_language.Runtime.Evm.Jumpdests.{scan_width, Begins, compute_jumpdests_iff}
use covenant_language.Evm.Asm.{AsmOp, op_len, Labels, find_label, label_offsets}
use covenant_language.Evm.Asm.Image.{
  label_image, image, image_all, image_all-append, total_len, length-image,
}
use covenant_language.Evm.Asm.Jumps.{NotDefined, find_label-defined, total_len-append}
use covenant_language.Evm.Codegen.Exec.Checked.{LabelAt}
use covenant_language.Evm.Codegen.Bytecode.{IsWhole, get_or-drop, drop_at}
use covenant_language.Evm.Codegen.Bytecode.Runs.{length-drop, drop-drop, op_len_pos}

label_width :
    (o : Option ℕ) → (b : ℕ) × (bs : List ℕ) × (label_image o ≡ b ∷ bs) × (scan_width b ≡ 3)
unfolding scan_width
label_width (some n) = (_, _, refl, refl)
label_width none = (_, _, refl, refl)

module _ (labels : Labels) where
  -- The scan of the code passes an operation's bytes in one step.
  width :
      (o : AsmOp)
      → IsWhole o
      → (b : ℕ) × (bs : List ℕ) × (image labels o ≡ b ∷ bs) × (scan_width b ≡ op_len o)
  unfolding image scan_width op_len
  width (AsmOp.op b) h = (b, [], refl, rw h refl)
  width (AsmOp.push_bytes []) h = (_, [], refl, refl)
  width (AsmOp.push_bytes (x ∷ bs)) h = (_, _, refl, ground (arith, h))
  width AsmOp.push0 h = (_, [], refl, refl)
  width (AsmOp.label_def name) h = (_, [], refl, refl)
  width (AsmOp.push_label name) h = label_width (find_label name labels)

  begins :
      (code : List ℕ) (ops : List AsmOp) (rest : List ℕ) (i : ℕ)
      → drop i code ≡ image_all labels ops ++ rest
      → All IsWhole ops
      → Begins code i (i + total_len ops)
  unfolding image_all total_len
  begins code [] rest i at h =
      let here : i ≡ i + 0 = omega arith in subst (Begins code i) here Begins.at_once
  begins code (o ∷ os) rest i at h =
      let (b, bs, e, w) = width o h.0 in
      let tail : List ℕ = image_all labels os ++ rest in
      let at_o : drop i code ≡ image labels o ++ tail =
        at ∙ append_assoc (image labels o) (image_all labels os) rest in
      let inside : i < length code = omega (
        arith,
        sym (length-drop i code) ∙ ap length at_o,
        length-append (image labels o) tail,
        length-image labels o,
        op_len_pos o,
      ) in
      let head : get_or code i 0 ≡ b =
        get_or-drop code i 0 ∙ ap (λ ds. get_or ds 0 0) (at_o ∙ ap (λ ds. ds ++ tail) e) in
      let step : i + scan_width (get_or code i 0) ≡ i + op_len o =
        ap (λ c. i + c) (ap scan_width head ∙ w) in
      let behind : drop (i + op_len o) code ≡ tail =
        drop-drop i (op_len o) _ code refl
        ∙ ap (drop (op_len o)) at_o
        ∙ drop-append (op_len o) (image labels o) tail (length-image labels o) in
      let far : i + op_len o + total_len os ≡ i + (op_len o + total_len os) = omega arith in
      Begins.later inside (
        subst (λ j. Begins code j (i + (op_len o + total_len os))) (sym step)
          (subst (Begins code (i + op_len o)) far (begins code os rest (i + op_len o) behind h.1)))

-- In a program of fewer than 2 ^ 16 bytes whose operations are whole, the last definition of a label
-- is a place that a jump to the label can go to.
pub assembled-LabelAt :
    (name : String) (program pre post : List AsmOp)
    → program ≡ pre ++ AsmOp.label_def name ∷ post
    → NotDefined name post
    → All IsWhole pre
    → total_len program < 2 ^ 16
    → let labels = label_offsets [] 0 program in
      LabelAt name (image_all labels program) labels (total_len pre)
unfolding image_all image total_len op_len
assembled-LabelAt name program pre post split last whole small =
    let labels = label_offsets [] 0 program in
    let code = image_all labels program in
    let d = total_len pre in
    let def = AsmOp.label_def name in
    let bytes : drop d code ≡ image_all labels (def ∷ post) =
      ap (λ os. drop d (image_all labels os)) split ∙ drop_at labels pre (def ∷ post) in
    let below : d < 2 ^ 16 =
      omega (arith, small, ap total_len split, total_len-append pre (def ∷ post)) in
    let inside : d < length code = omega (arith, sym (length-drop d code) ∙ ap length bytes) in
    let start : drop 0 code ≡ image_all labels pre ++ image_all labels (def ∷ post) =
      ap (image_all labels) split ∙ image_all-append labels pre (def ∷ post) in
    let from_zero : 0 + d ≡ d = omega arith in
    record {
      found =
          ap (λ os. find_label name (label_offsets [] 0 os)) split
          ∙ find_label-defined name [] 0 pre post last (omega (arith, below))
          ∙ ap some from_zero;
      small = omega (arith, below);
      marked = (compute_jumpdests_iff code d).1 (
        subst (Begins code 0) from_zero (begins labels code pre _ 0 start whole),
        inside,
        get_or-drop code d 0 ∙ ap (λ ds. get_or ds 0 0) bytes,
      );
    }
