-- ===== src/Opt/Cse/Tests.antt =====
-- Instances of the laws of crates/covenant-opt/src/cse.rs at two additions of the same operands.
use covenant_language.Base.{
  ℕ, zero, suc, ◌+◌, Option, All, ap, ◌≡◌, refl, sym, ◌∙◌, false, none, some, String, List, [], ◌∷◌,
}
use covenant_language.Ir.Ident.{Span, Value}
use covenant_language.Ir.Opcode.{Opcode, has_randomness_or_state}
use covenant_language.Ir.Function.{Instr, IrBlock, IrFunction, Terminator}
use covenant_language.Opt.Rewrite.{
  or_keep, apply_replacements, replace_block, replace_instr, replace_terminator, replace,
}
use covenant_language.Opt.Rewrite.View.{view}
use covenant_language.Opt.Cse.{
  is_cse_eligible, find_available, plan_step, plan_block, plan_blocks, run_function,
}
use covenant_language.Opt.Cse.Sound.{view-run_function}
use covenant_language.Opt.Rewrite.Order.{EarlierInBlock}

abbrev no_span : Span
no_span = record { source = 0; start = 0; end = 0 }

abbrev sum_into : Value → Instr
sum_into r = record {
  result = some r;
  opcode = Opcode.add;
  operands = 0 ∷ 1 ∷ [];
  from_lift = false;
  span = no_span;
}

abbrev twice : Instr
twice = record {
  result = none;
  opcode = Opcode.sstore 0;
  operands = 3 ∷ [];
  from_lift = false;
  span = no_span;
}

-- An access to field 1 of the struct at value 0.
abbrev field_of : (ℕ → Opcode) → Option Value → List Value → Instr
field_of op r vs = record {
  result = r;
  opcode = op 1;
  operands = vs;
  from_lift = false;
  span = no_span;
}

abbrev pub block_of : List Instr → IrBlock
block_of is = record {
  id = 0;
  params = [];
  instructions = is;
  terminator = Terminator.return (some 3);
  span = no_span;
}

abbrev pub function_of : List Instr → IrFunction
function_of is = record {
  name = record { name = "sums"; span = no_span };
  params = [];
  returns = none;
  precomputes = [];
  blocks = block_of is ∷ [];
  entry = 0;
  values = [];
  value_types = [];
  value_privacy = [];
  value_spans = [];
  span = no_span;
}

abbrev sums : IrFunction
sums = function_of (sum_into 2 ∷ sum_into 3 ∷ twice ∷ [])

abbrev debug : Opcode → String
debug Opcode.add = "Add"
debug op = "other"

-- The second sum's uses become uses of the first.
run_function-sums :
    (run_function debug sums).0.blocks
    ≡ record (block_of (sum_into 2 ∷ sum_into 3 ∷ record twice { operands = 2 ∷ [] } ∷ [])) {
      terminator = Terminator.return (some 2);
    }
      ∷ []
unfolding run_function plan_blocks plan_block plan_step find_available is_cse_eligible
    has_randomness_or_state apply_replacements replace_block replace_instr replace_terminator
    replace
run_function-sums = refl

-- The first two values are 2 and 3, and the others their sum; a sum is the sum of its operands.
abbrev sum_meaning : Value → ℕ
sum_meaning zero = 2
sum_meaning (suc zero) = 3
sum_meaning _ = 5

abbrev sum_op : Opcode → List ℕ → ℕ
sum_op op (a ∷ b ∷ []) = a + b
sum_op op _ = 0

abbrev IsAdd : Opcode → Type 0
IsAdd op = op ≡ Opcode.add

view-run_function_example :
    (view sum_meaning (run_function debug sums).0 ≡ view sum_meaning sums)
    × All
        (λ (e : Value × Value). EarlierInBlock e.1 e.0 sums.blocks)
        (plan_blocks debug sums.blocks [])
view-run_function_example =
    view-run_function IsAdd debug (λ o p e f h. e ∙ sym f) sum_op sum_meaning sums
      (
        (
          (refl, λ e. (refl, λ r q. ap (λ o. sum_meaning (or_keep 2 o)) (sym q))),
          (
            (refl, λ e. (refl, λ r q. ap (λ o. sum_meaning (or_keep 3 o)) (sym q))),
            ((refl, λ e. cc), tt),
          ),
        ),
        tt,
      )

-- A read of a struct field after a write to it is merged with the read of it before the write.
plan_block-struct_set :
    plan_block debug
      (field_of Opcode.struct_get (some 2) (0 ∷ [])
        ∷ field_of Opcode.struct_set none (0 ∷ 7 ∷ [])
        ∷ field_of Opcode.struct_get (some 3) (0 ∷ [])
        ∷ [])
      []
      []
    ≡ (3, 2) ∷ []
unfolding plan_block plan_step find_available is_cse_eligible has_randomness_or_state
plan_block-struct_set = refl
