-- ===== src/Ir/Validate/Tests.antt =====
-- Instances of the laws of crates/covenant-ir/src/validate.rs, and what the validator does after a
-- pass has removed a block.
use covenant_language.Base.{ℕ, ◌≡◌, ◌↔◌, refl, false, none, some, String, List, [], ◌∷◌, All}
use covenant_language.Ir.Ident.{Span}
use covenant_language.Ir.Opcode.{Opcode}
use covenant_language.Ir.Opcode.Arity.{operand_count}
use covenant_language.Ir.Function.{Instr, Terminator, IrBlock}
use covenant_language.Ir.Module.{IrModule}
use covenant_language.Ir.Validate.{
  Diagnostic, block_ids, validate_target, validate_terminator, validate_entry, validate_instrs,
  validate_blocks, validate_function, validate_functions, validate,
}
use covenant_language.Ir.Validate.Valid.{ValidFunction, validate-Decides}

abbrev no_span : Span
no_span = record { source = 0; start = 0; end = 0 }

abbrev block : ℕ → List Instr → Terminator → IrBlock
block id is t = record { id = id; params = []; instructions = is; terminator = t; span = no_span }

abbrev with_blocks : List IrBlock → IrModule
with_blocks bs = record {
  source_id = 0;
  name = record { name = "Token"; span = no_span };
  fields = [];
  structs = [];
  functions =
      record {
        name = record { name = "mint"; span = no_span };
        params = [];
        returns = none;
        precomputes = [];
        blocks = bs;
        entry = 0;
        values = [];
        value_types = [];
        value_privacy = [];
        value_spans = [];
        span = no_span;
      }
      ∷ [];
}

abbrev short_add : Instr
short_add = record {
  result = some 1;
  opcode = Opcode.add;
  operands = 0 ∷ [];
  from_lift = false;
  span = no_span;
}

abbrev two_blocks : IrModule
two_blocks =
    with_blocks
      (block 0 (short_add ∷ []) (Terminator.jump 1 []) ∷ block 1 [] (Terminator.return none) ∷ [])

abbrev debug : Opcode → String
debug op = "Add"

-- An addition of one operand is reported.
validate-two_blocks :
    validate debug two_blocks ≡ some (Diagnostic.opcode_arity no_span "Add" 2 1 ∷ [])
unfolding validate validate_functions validate_function validate_entry validate_blocks
    validate_instrs validate_terminator validate_target block_ids operand_count
validate-two_blocks = refl

-- Once block 1 of three is removed, the jump to block 2 indexes past the end.
validate-removed :
    validate debug
      (with_blocks (block 0 [] (Terminator.jump 2 []) ∷ block 2 [] (Terminator.return none) ∷ []))
    ≡ none
unfolding validate validate_functions validate_function validate_entry validate_blocks
    validate_instrs validate_terminator validate_target block_ids
validate-removed = refl

validate-Decides_example :
    (ds : List Diagnostic) × (validate debug two_blocks ≡ some ds)
    × ((ds ≡ []) ↔ All ValidFunction two_blocks.functions)
validate-Decides_example = validate-Decides debug two_blocks ((refl, (refl, tt)), tt)
