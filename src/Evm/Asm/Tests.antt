-- ===== src/Evm/Asm/Tests.antt =====
-- Instances of the laws of crates/covenant-evm-backend/src/asm.rs at a short loop.
use covenant_language.Base.{
  ℕ, ◌+◌, ◌/◌, ◌%◌, ◌^◌, ◌<◌, ◌≡◌, refl, some, String, List, [], ◌∷◌, arith, length, get_elem?, All,
}
use covenant_language.Evm.Asm.{
  AsmOp, assemble, label_offsets, emit_all, emit_op, push_n, find_label, op_len, op_jumpdest,
}
use covenant_language.Evm.Asm.Image.{Fits, image_all, missing_all, total_len, assemble-image}
use covenant_language.Evm.Asm.Jumps.{NotDefined, assemble-jumps}

abbrev after_label : List AsmOp
after_label = AsmOp.push_bytes (7 ∷ []) ∷ AsmOp.push_label "loop" ∷ AsmOp.op 0x56 ∷ []

abbrev before_jump : List AsmOp
before_jump = AsmOp.push0 ∷ AsmOp.label_def "loop" ∷ AsmOp.push_bytes (7 ∷ []) ∷ []

-- `PUSH0; loop: JUMPDEST; PUSH1 7; PUSH2 loop; JUMP`.
abbrev program : List AsmOp
program = AsmOp.push0 ∷ AsmOp.label_def "loop" ∷ after_label

assemble-program : assemble program ≡ some (0x5f ∷ 0x5b ∷ 0x60 ∷ 7 ∷ 0x61 ∷ 0 ∷ 1 ∷ 0x56 ∷ [], [])
unfolding assemble label_offsets emit_all emit_op push_n find_label
assemble-program = refl

program-Fits : All Fits program
program-Fits = (tt, (tt, (omega arith, (tt, (tt, tt)))))

assemble-image_example :
    let labels = label_offsets [] 0 program in
    (assemble program ≡ some (image_all labels program, missing_all labels program))
    × (length (image_all labels program) ≡ total_len program)
assemble-image_example = assemble-image program program-Fits

after-NotDefined : NotDefined "loop" after_label
after-NotDefined = tt

program_small : total_len program < 2 ^ 16
unfolding total_len op_len
program_small = omega arith

assemble-jumps_example :
    (code : List ℕ) × (unresolved : List String) × (assemble program ≡ some (code, unresolved))
    × (get_elem? code (total_len before_jump) ≡ some 0x61)
    × (get_elem? code (total_len before_jump + 1) ≡ some (total_len (AsmOp.push0 ∷ []) / 256))
    × (get_elem? code (total_len before_jump + 2) ≡ some (total_len (AsmOp.push0 ∷ []) % 256))
    × (get_elem? code (total_len (AsmOp.push0 ∷ [])) ≡ some op_jumpdest)
assemble-jumps_example =
    assemble-jumps program before_jump (AsmOp.op 0x56 ∷ []) (AsmOp.push0 ∷ []) after_label "loop"
      refl refl after-NotDefined program-Fits program_small

abbrev sent : ℕ
sent = 0x1234
