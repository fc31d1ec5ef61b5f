-- ===== src/Evm/Codegen/Bytecode/Plain.antt =====
-- The unguarded operators of crates/covenant-evm-backend/src/codegen.rs from the instruction to the bytes:
-- the code is laid out in whole, and the loop of crates/covenant-evm-runtime/src/evm.rs runs it.
use covenant_language.Base.{
  ℕ, zero, suc, ◌+◌, ◌/◌, ◌%◌, ◌≤◌, ◌<◌, ◌≡◌, ◌≢◌, refl, ap, sym, ◌∙◌, subst, Option, none, some,
  String, List, [], ◌∷◌, ◌++◌, arith, length, length-append, All, All-append, Option-cases,
  Bool-cases, inl, inr, ltb, map, drop,
}
use covenant_language.Ir.Ident.{Value, Span}
use covenant_language.Ir.Opcode.{Opcode}
use covenant_language.Ir.Function.{IrConstant, Instr, IrFunction}
use covenant_language.Ir.Module.{IrModule}
use covenant_language.Runtime.U256.{U256}
use covenant_language.Runtime.Evm.{CallEnv, Machine, Next}
use covenant_language.Runtime.Evm.Step.{run}
use covenant_language.Evm.Asm.{
  AsmOp, Labels, assemble, label_offsets, skip_zeros, trimmed_bytes, max_push_bytes,
}
use covenant_language.Evm.Asm.Image.{
  Fits, image_all, missing_all, total_len, assemble-image, image_all-append,
}
use covenant_language.Evm.Asm.Push.{trimmed_bytes_lem}
use covenant_language.Evm.Codegen.{
  Code, Emission, unreported, or_zero_byte, be_digits, big_endian_u128, const_op, const_value,
  load_operand, mstore_result, value_memory_offset,
}
use covenant_language.Evm.Codegen.Arith.{
  binop, binop_shift, negated_binop, unary_op, signed_neg_code,
}
use covenant_language.Evm.Codegen.Opcodes.{Backend, emit_opcode, emit_instr}
use covenant_language.Evm.Codegen.Exec.Values.{HasSlot, operand, offset_bound}
use covenant_language.Evm.Codegen.Exec.Plain.{
  Assigns, binary_meaning, unary_meaning, apply_one, apply_two, plain_meaning, emit_instr-plain,
}
use covenant_language.Evm.Codegen.Exec.{exec}
use covenant_language.Evm.Codegen.Bytecode.{drop_at}
use covenant_language.Evm.Codegen.Bytecode.Pc.{at_pc}
use covenant_language.Evm.Codegen.Bytecode.Runs.{IsPlain, run-exec}

-- A hash or an address of at most 32 bytes, as the source's arrays are.
abbrev pub ConstFits : Option IrConstant → Type 0
ConstFits (some (IrConstant.hash b)) = length b ≤ 32
ConstFits (some (IrConstant.address b)) = length b ≤ 32
ConstFits _ = Unit

skip_zeros-length : (bs : List ℕ) → length (skip_zeros bs) ≤ length bs
unfolding skip_zeros
skip_zeros-length [] = omega arith
skip_zeros-length (b ∷ bs) = ground (arith, skip_zeros-length bs)

length-be_digits : (k n : ℕ) → length (be_digits k n) ≡ k
unfolding be_digits
length-be_digits zero n = refl
length-be_digits (suc k) n =
    omega
      (arith, length-append (be_digits k (n / 256)) (n % 256 ∷ []), length-be_digits k (n / 256))

length-or_zero : (bs : List ℕ) → length bs ≤ 16 → length (or_zero_byte bs) ≤ 32
length-or_zero [] h = omega arith
length-or_zero (b ∷ bs) h = omega (arith, h)

length-big_endian : (n : ℕ) → length (big_endian_u128 n) ≤ 32
unfolding big_endian_u128
length-big_endian n =
    length-or_zero (skip_zeros (be_digits 16 n))
      (omega (arith, skip_zeros-length (be_digits 16 n), length-be_digits 16 n))

module _ (keccak : List ℕ → List ℕ) (env : CallEnv) (code : List ℕ) (labels : Labels) where
  abbrev Laid : Code → Type 0
  Laid = All (IsPlain keccak env code labels)

  const_laid : (c : IrConstant) → ConstFits (some c) → IsPlain keccak env code labels (const_op c)
  unfolding const_op
  const_laid (IrConstant.integer n) h = (length-big_endian n, tt, tt)
  const_laid (IrConstant.bool b) h = (omega arith, tt, tt)
  const_laid (IrConstant.hash b) h = (h, tt, tt)
  const_laid (IrConstant.address b) h = (h, tt, tt)
  const_laid IrConstant.zero_address h = (tt, tt, tt)
  const_laid (IrConstant.duration n u) h = (length-big_endian n, tt, tt)
  const_laid (IrConstant.text t) h = (tt, tt, tt)
  const_laid (IrConstant.hex b) h = elim (Bool-cases (ltb max_push_bytes (length b))) [
    | inl e ↦ rw e (tt, tt, tt)
    | inr e ↦ rw e (ground (arith, e), tt, tt)
  ]

  offset_laid : (v : Value) → length (trimmed_bytes (value_memory_offset v)) ≤ 32
  offset_laid v = omega (arith, (trimmed_bytes_lem (value_memory_offset v) (offset_bound v)).2)

  load-Laid : (f : IrFunction) (v : Value) → ConstFits (const_value f v) → Laid (load_operand f v)
  unfolding load_operand
  load-Laid f v h = elim (Option-cases (const_value f v)) [
    | inl e ↦ rw (e, load_operand) ((offset_laid v, tt, tt), ((refl, tt, refl), tt))
    | inr (c, e) ↦ rw (e, load_operand) (const_laid c (subst ConstFits e h), tt)
  ]

  store-Laid : (r : Value) → Laid (mstore_result (some r))
  unfolding mstore_result
  store-Laid r = ((offset_laid r, tt, tt), ((refl, tt, refl), tt))

  join : (xs ys : Code) → Laid xs → Laid ys → Laid (xs ++ ys)
  join xs ys h g = All-append (IsPlain keccak env code labels) xs ys h g

  -- An operator's byte is an instruction of its own that the loop can run anywhere.
  abbrev IsOp : ℕ → Type 0
  IsOp b = IsPlain keccak env code labels (AsmOp.op b)

  module _ (backend : Backend) (im : IrModule) (f : IrFunction) (span : Span) (r : Value) where
    abbrev Loads : Value → Type 0
    Loads v = ConstFits (const_value f v)

    binop-Laid : (b : ℕ) (x y : Value) → IsOp b → Loads x → Loads y → Laid (binop f b x y (some r))
    unfolding binop
    binop-Laid b x y o hx hy =
        join _ _ (load-Laid f y hy) (join _ _ (load-Laid f x hx) (o, store-Laid r))

    shift-Laid :
        (b : ℕ) (x y : Value) → IsOp b → Loads x → Loads y → Laid (binop_shift f b x y (some r))
    unfolding binop_shift
    shift-Laid b x y o hx hy =
        join _ _ (load-Laid f x hx) (join _ _ (load-Laid f y hy) (o, store-Laid r))

    negated-Laid :
        (b : ℕ) (x y : Value) → IsOp b → Loads x → Loads y → Laid (negated_binop f b x y (some r))
    unfolding negated_binop
    negated-Laid b x y o hx hy =
        join _ _ (load-Laid f y hy)
          (join _ _ (load-Laid f x hx) (o, ((refl, tt, refl), store-Laid r)))

    unary-Laid : (b : ℕ) (x : Value) → IsOp b → Loads x → Laid (unary_op f b x (some r))
    unfolding unary_op
    unary-Laid b x o hx = join _ _ (load-Laid f x hx) (o, store-Laid r)

    neg-Laid : (x : Value) → Loads x → Laid (signed_neg_code f x (some r))
    unfolding signed_neg_code
    neg-Laid x hx = join _ _ (load-Laid f x hx) ((tt, tt, tt), ((refl, tt, refl), store-Laid r))

    abbrev EmitsLaid : Opcode → List Value → Type 0
    EmitsLaid o vs =
        (ops : Code) × (emit_opcode backend im f span vs (some r) o ≡ some (unreported ops))
        × Laid ops

    binary_laid :
        (o : Opcode) (x y : Value) (g : U256 → U256 → U256)
        → binary_meaning o ≡ some g
        → Loads x
        → Loads y
        → EmitsLaid o (x ∷ y ∷ [])
    unfolding emit_opcode
    binary_laid Opcode.add x y g e hx hy = (_, refl, binop-Laid _ x y (refl, tt, refl) hx hy)
    binary_laid Opcode.sub x y g e hx hy = (_, refl, binop-Laid _ x y (refl, tt, refl) hx hy)
    binary_laid Opcode.mul x y g e hx hy = (_, refl, binop-Laid _ x y (refl, tt, refl) hx hy)
    binary_laid Opcode.bit_and x y g e hx hy = (_, refl, binop-Laid _ x y (refl, tt, refl) hx hy)
    binary_laid Opcode.logical_and x y g e hx hy =
        (_, refl, binop-Laid _ x y (refl, tt, refl) hx hy)
    binary_laid Opcode.bit_or x y g e hx hy = (_, refl, binop-Laid _ x y (refl, tt, refl) hx hy)
    binary_laid Opcode.logical_or x y g e hx hy = (_, refl, binop-Laid _ x y (refl, tt, refl) hx hy)
    binary_laid Opcode.bit_xor x y g e hx hy = (_, refl, binop-Laid _ x y (refl, tt, refl) hx hy)
    binary_laid Opcode.eq x y g e hx hy = (_, refl, binop-Laid _ x y (refl, tt, refl) hx hy)
    binary_laid Opcode.lt x y g e hx hy = (_, refl, binop-Laid _ x y (refl, tt, refl) hx hy)
    binary_laid Opcode.gt x y g e hx hy = (_, refl, binop-Laid _ x y (refl, tt, refl) hx hy)
    binary_laid Opcode.shift_left x y g e hx hy = (_, refl, shift-Laid _ x y (refl, tt, refl) hx hy)
    binary_laid Opcode.shift_right x y g e hx hy =
        (_, refl, shift-Laid _ x y (refl, tt, refl) hx hy)
    binary_laid Opcode.ne x y g e hx hy = (_, refl, negated-Laid _ x y (refl, tt, refl) hx hy)
    binary_laid Opcode.le x y g e hx hy = (_, refl, negated-Laid _ x y (refl, tt, refl) hx hy)
    binary_laid Opcode.ge x y g e hx hy = (_, refl, negated-Laid _ x y (refl, tt, refl) hx hy)
    binary_laid _ x y g e hx hy = cc

    one_laid :
        (o : Opcode) (x : Value) (g : U256 → U256)
        → unary_meaning o ≡ some g
        → Loads x
        → EmitsLaid o (x ∷ [])
    unfolding emit_opcode
    one_laid Opcode.logical_not x g e hx = (_, refl, unary-Laid _ x (refl, tt, refl) hx)
    one_laid Opcode.bit_not x g e hx = (_, refl, unary-Laid _ x (refl, tt, refl) hx)
    one_laid Opcode.signed_neg x g e hx = (_, refl, neg-Laid x hx)
    one_laid _ x g e hx = cc

    plain_laid :
        (o : Opcode) (vs : List Value) (mem : List ℕ) (w : U256)
        → plain_meaning o (map (λ x. operand f x mem) vs) ≡ some w
        → All Loads vs
        → EmitsLaid o vs
    plain_laid o (x ∷ y ∷ []) mem w e h =
        let a = operand f x mem in
        let b = operand f y mem in
        elim (Option-cases (binary_meaning o)) [
          | inl gone ↦ let bad : none ≡ some w = sym (ap (λ q. apply_two q a b) gone) ∙ e in cc
          | inr (g, here) ↦ binary_laid o x y g here h.0 h.1.0
        ]
    plain_laid o (x ∷ []) mem w e h =
        let a = operand f x mem in
        elim (Option-cases (unary_meaning o)) [
          | inl gone ↦ let bad : none ≡ some w = sym (ap (λ q. apply_one q a) gone) ∙ e in cc
          | inr (g, here) ↦ one_laid o x g here h.0
        ]
    plain_laid o [] mem w e h = cc
    plain_laid o (x ∷ y ∷ z ∷ vs) mem w e h = cc

abbrev ops_of : Option Emission → Code
ops_of (some e) = e.0
ops_of none = []

module _ (keccak : List ℕ → List ℕ) (env : CallEnv) (backend : Backend) (im : IrModule)
    (f : IrFunction) (i : Instr) (w : U256) (r v : Value) (m : Machine) where
  -- An instruction whose opcode is an unguarded operator, in a program that the assembler accepts: from
  -- the first byte of its code the loop comes, whatever the rounds left, to the byte behind its code,
  -- with the operator's word at the result's place in memory and the place of every other value, the
  -- stack and the host as they were.
  pub run-plain :
      (program pre ops post : Code) (left : ℕ)
      → emit_instr backend im f i ≡ some (unreported ops)
      → program ≡ pre ++ (ops ++ post)
      → All Fits program
      → m.pc ≡ total_len pre
      → plain_meaning i.opcode (map (λ x. operand f x m.memory) i.operands) ≡ some w
      → All (λ x. ConstFits (const_value f x)) i.operands
      → i.result ≡ some r
      → HasSlot r
      → HasSlot v
      → v ≢ r
      → length m.stack < 1020
      → (code : List ℕ) × (missing : List String) × (n : Machine) × (k : ℕ) × (assemble program
          ≡ some (code, missing))
        × (k ≤ length ops)
        × (run keccak env code (k + left) m
            ≡ run keccak env code left (at_pc (total_len pre + total_len ops) n))
        × Assigns r w v m n
  unfolding emit_instr
  run-plain program pre ops post left emitted split fits here means consts res hr hv ne room =
      let labels = label_offsets [] 0 program in
      let code = image_all labels program in
      let (ops1, e1, yielded) =
        emit_instr-plain keccak env code labels backend im f r v m hr hv ne room i w means res in
      let (n, runs, assigns) = yielded in
      let (ops2, e2, laid) =
        plain_laid keccak env code labels backend im f i.span r i.opcode i.operands m.memory w means
          consts in
      let same1 : ops1 ≡ ops = ap ops_of (sym e1 ∙ emitted) in
      let same2 : ops2 ≡ ops = ap ops_of (
        sym e2
        ∙ ap (λ q. emit_opcode backend im f i.span i.operands q i.opcode) (sym res)
        ∙ emitted) in
      let bytes : drop m.pc code ≡ image_all labels ops ++ image_all labels post =
        ap (λ p. drop p code) here
        ∙ ap (λ os. drop (total_len pre) (image_all labels os)) split
        ∙ drop_at labels pre (ops ++ post)
        ∙ image_all-append labels ops post in
      let (k, few, ran) =
        run-exec keccak env code labels ops (image_all labels post) m n Next.fall left bytes
          (subst (Laid keccak env code labels) same2 laid)
          (ap (λ os. exec keccak env code labels os m) (sym same1) ∙ runs) in
      (
        code,
        missing_all labels program,
        n,
        k,
        (assemble-image program fits).0,
        few,
        ran ∙ ap (λ p. run keccak env code left (at_pc (p + total_len ops) n)) here,
        assigns,
      )
