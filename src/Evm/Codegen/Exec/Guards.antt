-- ===== src/Evm/Codegen/Exec/Guards.antt =====
-- The instructions that crates/covenant-evm-backend/src/codegen.rs emits with a check: sums, differences
-- and quotients that exist are stored, and the others revert.
use covenant_language.Base.{
  ℕ, ◌<◌, ◌≡◌, ◌≢◌, ◌⊎◌, refl, ap, Bool, true, false, Option, none, some, List, [], ◌∷◌, length,
  subst,
}
use covenant_language.Ir.Ident.{Value}
use covenant_language.Ir.Opcode.{Opcode}
use covenant_language.Ir.Function.{Instr, IrFunction}
use covenant_language.Ir.Module.{IrModule}
use covenant_language.Runtime.U256.{U256, is_zero}
use covenant_language.Runtime.U256.Div.{div, rem}
use covenant_language.Runtime.Evm.{CallEnv, Machine}
use covenant_language.Runtime.Evm.Step.{instruction}
use covenant_language.Evm.Asm.{Labels}
use covenant_language.Evm.Codegen.{Code, unreported, const_value}
use covenant_language.Evm.Codegen.Arith.{binop_div_guarded}
use covenant_language.Evm.Codegen.Opcodes.{Backend, emit_opcode, emit_instr}
use covenant_language.Evm.Codegen.Exec.Values.{HasSlot, operand}
use covenant_language.Evm.Codegen.Exec.Plain.{Yields}
use covenant_language.Evm.Codegen.Exec.Checked.{
  RevertsAt, GoesTo, add_checked, sub_checked, div_checked,
}

abbrev pub is_checked_sum : Opcode → Bool
is_checked_sum Opcode.add_checked = true
is_checked_sum Opcode.time_add = true
is_checked_sum Opcode.duration_add = true
is_checked_sum _ = false

abbrev pub is_checked_difference : Opcode → Bool
is_checked_difference Opcode.sub_checked = true
is_checked_difference Opcode.time_sub = true
is_checked_difference Opcode.duration_sub = true
is_checked_difference _ = false

abbrev pub quotient : Opcode → Option (U256 → U256 → U256)
quotient Opcode.div = some div
quotient Opcode.modulo = some rem
quotient _ = none

module _ (keccak : List ℕ → List ℕ) (env : CallEnv) (code : List ℕ) (labels : Labels) (d : ℕ)
    (at : RevertsAt code labels d) (backend : Backend) (im : IrModule) (f : IrFunction) (i : Instr)
    (x y r v : Value) (m : Machine) (two : i.operands ≡ x ∷ y ∷ []) (here : i.result ≡ some r)
    (hr : HasSlot r) (hv : HasSlot v) (ne : v ≢ r) (room : length m.stack < 1020) where
  -- The words of the two operands.
  abbrev a : U256
  a = operand f x m.memory

  abbrev b : U256
  b = operand f y m.memory

  -- What the instruction emits, and that running it is one of two things.
  abbrev pub Runs : (Code → Type 0) → (Code → Type 0) → Type 0
  Runs P Q = (ops : Code) × (emit_instr backend im f i ≡ some (unreported ops)) × (P ops ⊎ Q ops)

  abbrev Quotient : Opcode → (U256 → U256 → U256) → Type 0
  Quotient o g =
      (ops : Code) × (emit_opcode backend im f i.span (x ∷ y ∷ []) (some r) o
        ≡ some (unreported ops))
      × (((is_zero b ≡ false) × Yields keccak env code labels ops r (g a b) v m)
          ⊎ ((is_zero b ≡ true) × GoesTo keccak env code labels d ops m))

  abbrev or_div : Option (U256 → U256 → U256) → U256 → U256 → U256
  or_div (some g) = g
  or_div none = div

  quotient_opcode :
      (o : Opcode) (g : U256 → U256 → U256)
      → const_value f y ≡ none
      → quotient o ≡ some g
      → Quotient o g
  unfolding emit_opcode instruction
  quotient_opcode Opcode.div g unknown e =
      let q = binop_div_guarded f 0x04 "division" i.span x y (some r) in
      let k =
        div_checked keccak env code labels d at f x y r v m hr hv ne room 0x04 div "division" i.span
          unknown refl in
      subst (λ h. Quotient Opcode.div (or_div h)) e (q.0, ap (λ ds. some (q.0, ds)) k.0, k.1)
  quotient_opcode Opcode.modulo g unknown e =
      let q = binop_div_guarded f 0x06 "remainder" i.span x y (some r) in
      let k =
        div_checked keccak env code labels d at f x y r v m hr hv ne room 0x06 rem "remainder"
          i.span unknown refl in
      subst (λ h. Quotient Opcode.modulo (or_div h)) e (q.0, ap (λ ds. some (q.0, ds)) k.0, k.1)
  quotient_opcode _ g unknown e = cc

  -- A quotient or a remainder by an operand that is not a constant: on a zero divisor the code goes to
  -- the label of reverts and leaves the host as it was, and on any other it stores the quotient or the
  -- remainder at the result's place and falls through.
  pub emit_instr-quotient :
      (g : U256 → U256 → U256)
      → const_value f y ≡ none
      → quotient i.opcode ≡ some g
      → Runs
          (λ ops. (is_zero b ≡ false) × Yields keccak env code labels ops r (g a b) v m)
          (λ ops. (is_zero b ≡ true) × GoesTo keccak env code labels d ops m)
  unfolding emit_instr
  emit_instr-quotient g unknown e =
      let (ops, emitted, runs) = quotient_opcode i.opcode g unknown e in
      (ops, rw (two, here) emitted, runs)
