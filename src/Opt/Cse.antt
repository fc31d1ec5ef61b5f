-- ===== src/Opt/Cse.antt =====
-- crates/covenant-opt/src/cse.rs: block-local elimination of common subexpressions. `debug` is the
-- derived `Debug` text of an opcode. A plan is an association list with the newest entry first.
pub mod Order
pub mod Sound
pub mod Eligible
pub mod Tests
use covenant_language.Base.{
  Bool, true, false, not, ◌&&◌, Option, none, some, String, List, [], ◌∷◌, ◌++◌, ◌==◌, str_eq,
  if◌then◌else◌,
}
use covenant_language.Ir.Ident.{Value}
use covenant_language.Ir.Opcode.{Opcode, has_randomness_or_state}
use covenant_language.Ir.Function.{Instr, IrBlock, IrFunction}
use covenant_language.Opt.Dce.{Key, values_eq}
use covenant_language.Opt.Rewrite.{Replacements, apply_replacements}

-- The opcodes of the list in `is_cse_eligible`.
abbrev pub is_listed : Opcode → Bool
is_listed (Opcode.sload _) = true
is_listed (Opcode.sstore _) = true
is_listed Opcode.mload = true
is_listed Opcode.mstore = true
is_listed Opcode.map_set = true
is_listed Opcode.map_delete = true
is_listed Opcode.list_append = true
is_listed Opcode.list_set = true
is_listed (Opcode.emit _) = true
is_listed Opcode.transfer = true
is_listed Opcode.assert = true
is_listed Opcode.assert_encrypted = true
is_listed Opcode.load_caller = true
is_listed Opcode.load_now = true
is_listed Opcode.load_block_number = true
is_listed Opcode.load_block_timestamp = true
is_listed Opcode.load_msg_value = true
is_listed Opcode.load_msg_sender = true
is_listed Opcode.load_deployer = true
is_listed Opcode.load_this = true
is_listed Opcode.load_chain_id = true
is_listed Opcode.load_zero_address = true
is_listed Opcode.reveal_decrypt = true
is_listed Opcode.fhe_add = true
is_listed Opcode.fhe_sub = true
is_listed Opcode.fhe_mul = true
is_listed Opcode.fhe_and = true
is_listed Opcode.fhe_or = true
is_listed Opcode.fhe_not = true
is_listed Opcode.fhe_cmp_eq = true
is_listed Opcode.fhe_cmp_ne = true
is_listed Opcode.fhe_cmp_lt = true
is_listed Opcode.fhe_cmp_le = true
is_listed Opcode.fhe_cmp_gt = true
is_listed Opcode.fhe_cmp_ge = true
is_listed Opcode.fhe_select = true
is_listed _ = false

unfoldable pub is_cse_eligible : Opcode → Bool
unfolding has_randomness_or_state
is_cse_eligible op = if has_randomness_or_state op then false else not (is_listed op)

abbrev pub Available : Type 0
Available = List (Key × Value)

abbrev pub same_key : Key → Key → Bool
same_key j k = str_eq j.0 k.0 && values_eq j.1 k.1

unfoldable pub find_available : Key → Available → Option Value
find_available k [] = none
find_available k ((j, v) ∷ m) = if same_key j k then some v else find_available k m

-- The match on `available.get(&key)`: the keys seen and the plan after one eligible result.
abbrev pub merge : Key → Value → Option Value → Available → Replacements → Available × Replacements
merge key result (some existing) available plan =
    (available, if existing == result then plan else (result, existing) ∷ plan)
merge key result none available plan = ((key, result) ∷ available, plan)

module _ (debug : Opcode → String) where
  abbrev pub merge_result :
      Instr → Option Value → Available → Replacements → Available × Replacements
  merge_result i none available plan = (available, plan)
  merge_result i (some result) available plan =
      let key : Key = (debug i.opcode, i.operands) in
      merge key result (find_available key available) available plan

  unfoldable pub plan_step : Instr → Available → Replacements → Available × Replacements
  plan_step i available plan =
      if not (is_cse_eligible i.opcode)
      then (available, plan)
      else if i.from_lift
      then (available, plan)
      else merge_result i i.result available plan

  unfoldable pub plan_block : List Instr → Available → Replacements → Replacements
  plan_block [] available plan = plan
  plan_block (i ∷ is) available plan =
      let next = plan_step i available plan in plan_block is next.0 next.1

  -- A later plan's entries hide those of an earlier one.
  unfoldable pub plan_blocks : List IrBlock → Replacements → Replacements
  plan_blocks [] replacements = replacements
  plan_blocks (b ∷ bs) replacements =
      plan_blocks bs (plan_block b.instructions [] [] ++ replacements)

  unfoldable pub run_function : IrFunction → IrFunction × Bool
  run_function func = apply_replacements func (plan_blocks func.blocks [])
