-- ===== src/Ir/Validate.antt =====
-- crates/covenant-ir/src/validate.rs: the structural validator. A list of diagnostics is `some`; the
-- panic of `f.blocks[target.0 as usize]` out of bounds is `none`. `debug` is the derived `Debug` text
-- of an opcode, which an arity diagnostic quotes.
pub mod Valid
pub mod Tests
use covenant_language.Base.{
  ℕ, Bool, true, false, ◌&&◌, Option, none, some, String, List, [], ◌∷◌, ◌++◌, leb, ◌==◌, contains,
  length, get_elem?, if◌then◌else◌,
}
use covenant_language.Ir.Ident.{Span, BlockId}
use covenant_language.Ir.Opcode.{Opcode}
use covenant_language.Ir.Opcode.Arity.{Bounds, operand_count}
use covenant_language.Ir.Function.{Instr, Terminator, IrBlock, IrFunction}
use covenant_language.Ir.Module.{IrModule}

-- The diagnostics of crates/covenant-ir/src/diag.rs that the validator pushes.
pub data Diagnostic : Type 0 where
  block_no_terminator : Span → Diagnostic
  block_arg_mismatch : Span → ℕ → ℕ → Diagnostic
  opcode_arity : Span → String → ℕ → ℕ → Diagnostic
  fhe_branch_no_merge : Span → Diagnostic

abbrev pub Diagnostics : Type 0
Diagnostics = Option (List Diagnostic)

-- Two parts of the validator in turn, on one output vector.
infixr 5 ◌then_check◌
abbrev pub ◌then_check◌ : Diagnostics → Diagnostics → Diagnostics
none then_check s = none
some ds then_check none = none
some ds then_check some es = some (ds ++ es)

abbrev pub no_diagnostic : Diagnostics
no_diagnostic = some []

abbrev pub report : Diagnostic → Diagnostics
report d = some (d ∷ [])

unfoldable pub block_ids : List IrBlock → List BlockId
block_ids [] = []
block_ids (b ∷ bs) = b.id ∷ block_ids bs

-- `n >= lo && hi.is_none_or(|h| n <= h)`.
abbrev pub in_bounds : ℕ → Option ℕ → ℕ → Bool
in_bounds lo none n = leb lo n
in_bounds lo (some hi) n = leb lo n && leb n hi

unfoldable pub validate_target : List IrBlock → BlockId → ℕ → Span → Diagnostics
unfolding block_ids
validate_target blocks target arg_count span =
    if contains target (block_ids blocks)
    then elim (get_elem? blocks target) [
      | none ↦ none
      | some b ↦
          if length b.params == arg_count
          then no_diagnostic
          else report (Diagnostic.block_arg_mismatch span (length b.params) arg_count)
    ]
    else report (Diagnostic.block_arg_mismatch span 0 arg_count)

unfoldable pub validate_merge : List IrBlock → BlockId → Span → Diagnostics
unfolding block_ids
validate_merge blocks merge span =
    if contains merge (block_ids blocks)
    then no_diagnostic
    else report (Diagnostic.fhe_branch_no_merge span)

unfoldable pub validate_terminator : List IrBlock → Terminator → Span → Diagnostics
unfolding validate_target validate_merge
validate_terminator blocks (Terminator.jump t args) span =
    validate_target blocks t (length args) span
validate_terminator blocks (Terminator.branch _ t ts e es) span =
    validate_target blocks t (length ts) span then_check validate_target blocks e (length es) span
validate_terminator blocks (Terminator.fhe_branch _ t ts e es merge) span =
    validate_target blocks t (length ts) span
    then_check validate_target blocks e (length es) span
    then_check validate_merge blocks merge span
validate_terminator blocks (Terminator.return _) span = no_diagnostic
validate_terminator blocks Terminator.unreachable span = no_diagnostic
validate_terminator blocks (Terminator.revert _ _) span = no_diagnostic

unfoldable pub validate_entry : IrFunction → Diagnostics
unfolding block_ids
validate_entry f =
    if contains f.entry (block_ids f.blocks)
    then no_diagnostic
    else report (Diagnostic.block_no_terminator f.span)

module _ (debug : Opcode → String) where
  abbrev pub check_bounds : Bounds → Instr → Diagnostics
  check_bounds none i = no_diagnostic
  check_bounds (some (lo, hi)) i =
      if in_bounds lo hi (length i.operands)
      then no_diagnostic
      else report (Diagnostic.opcode_arity i.span (debug i.opcode) lo (length i.operands))

  unfoldable pub validate_instrs : List Instr → Diagnostics
  unfolding operand_count
  validate_instrs [] = no_diagnostic
  validate_instrs (i ∷ is) = check_bounds (operand_count i.opcode) i then_check validate_instrs is

  -- The loop over the blocks; `all` are the blocks of the function.
  unfoldable pub validate_blocks : List IrBlock → List IrBlock → Diagnostics
  validate_blocks all [] = no_diagnostic
  validate_blocks all (b ∷ bs) =
      (validate_instrs b.instructions then_check validate_terminator all b.terminator b.span)
      then_check validate_blocks all bs

  unfoldable pub validate_function : IrFunction → Diagnostics
  validate_function f = validate_entry f then_check validate_blocks f.blocks f.blocks

  unfoldable pub validate_functions : List IrFunction → Diagnostics
  validate_functions [] = no_diagnostic
  validate_functions (f ∷ fs) = validate_function f then_check validate_functions fs

  unfoldable pub validate : IrModule → Diagnostics
  validate m = validate_functions m.functions
