-- ===== src/Opt/Dce/Tests.antt =====
-- Runs and instances of the elimination (crates/covenant-opt/src/dce.rs) at a small function.
use covenant_language.Base.{
  ◌≡◌, ◌↔◌, refl, true, false, Option, none, some, String, List, [], ◌∷◌, arith, contains, All,
  All-Memᴰ,
}
use mathlib.Core.List.{Memᴰ}
use covenant_language.Ir.Ident.{Ident, Span, Value}
use covenant_language.Ir.Opcode.{Opcode}
use covenant_language.Ir.Opcode.Names.{stable_name}
use covenant_language.Ir.Function.{Instr, IrBlock, IrFunction, Terminator, find_block}
use covenant_language.Types.Ty.{Ty}
use covenant_language.Opt.Effect.{effect_of}
use covenant_language.Opt.Effects.{
  trap_can_fire, trap_depends_only_on_operands, integer_constants, collect_integers,
}
use covenant_language.Opt.Dce.{
  all_instructions, block_params, param_values, remove_unreachable, reachable_blocks, walk,
  walk_fuel, run_function, uses, sweep, decide_block, successors, successors_of, eliminate_pure,
  decide_must_keep, keep_step, has_key, compute_live_set, live_walk, propagate, definer_operands,
  seeds, kept_operands, sweep_blocks, retained, any_shorter, operand_total,
}
use covenant_language.Opt.Dce.Paths.{Reach}
use covenant_language.Opt.Dce.Reachable.{
  reachable_blocks_iff, remove_unreachable_lem, reachable_blocks-ends,
}
use covenant_language.Opt.Dce.Live.{live_walk-ends}
use covenant_language.Opt.Dce.Closed.{WellFormed, run_function-closed, parameters}
use covenant_language.Opt.Dce.Keep.{is_state_or_critical}

abbrev no_span : Span
no_span = record { source = 0; start = 0; end = 0 }

abbrev ident : String → Ident
ident s = record { name = s; span = no_span }

abbrev instr : Opcode → List Value → Option Value → Instr
instr op vs r = record { result = r; opcode = op; operands = vs; from_lift = false; span = no_span }

-- `bal - amt` with an unused result, a dead addition, and a repeat of the subtraction.
abbrev pub body : List Instr
body =
    instr (Opcode.sload 0) [] (some 0)
    ∷ instr Opcode.sub_checked (0 ∷ 1 ∷ []) (some 2)
    ∷ instr Opcode.add (0 ∷ 1 ∷ []) (some 3)
    ∷ instr Opcode.sub_checked (0 ∷ 1 ∷ []) (some 4)
    ∷ instr (Opcode.sstore 0) (0 ∷ []) none
    ∷ []

abbrev first_block : IrBlock
first_block = record {
  id = 0;
  params = [];
  instructions = body;
  terminator = Terminator.jump 1 [];
  span = no_span;
}

abbrev last_block : IrBlock
last_block = record {
  id = 1;
  params = [];
  instructions = [];
  terminator = Terminator.return none;
  span = no_span;
}

abbrev orphan : IrBlock
orphan = record {
  id = 2;
  params = [];
  instructions = [];
  terminator = Terminator.jump 1 [];
  span = no_span;
}

abbrev sample : IrFunction
sample = record {
  name = ident "withdraw";
  params = record { name = ident "amt"; ty = Ty.amount; value = 1 } ∷ [];
  returns = none;
  precomputes = [];
  blocks = first_block ∷ last_block ∷ orphan ∷ [];
  entry = 0;
  values = [];
  value_types = [];
  value_privacy = [];
  value_spans = [];
  span = no_span;
}

-- The orphan goes, and so do the addition and the repeated subtraction.
run_function-sample :
    (run_function stable_name sample).0.blocks
    ≡ record first_block {
      instructions =
          instr (Opcode.sload 0) [] (some 0)
          ∷ instr Opcode.sub_checked (0 ∷ 1 ∷ []) (some 2)
          ∷ instr (Opcode.sstore 0) (0 ∷ []) none
          ∷ [];
    }
      ∷ last_block
      ∷ []
unfolding run_function remove_unreachable reachable_blocks walk successors_of find_block successors
    eliminate_pure decide_must_keep decide_block keep_step effect_of trap_can_fire
    trap_depends_only_on_operands has_key stable_name compute_live_set live_walk propagate
    definer_operands seeds kept_operands uses operand_total all_instructions sweep_blocks sweep
    retained block_params param_values integer_constants collect_integers any_shorter
run_function-sample = refl

reachable_blocks_iff_example : (contains 1 (reachable_blocks sample) ≡ true) ↔ Reach sample 1
reachable_blocks_iff_example = reachable_blocks_iff sample 1

reachable_blocks-ends_example :
    (walk (walk_fuel sample.blocks) sample.blocks [] (sample.entry ∷ [])).1 ≡ []
reachable_blocks-ends_example = reachable_blocks-ends sample

remove_unreachable_lem_example :
    let removed = remove_unreachable sample in
    (Memᴰ orphan sample.blocks → Reach sample orphan.id → Memᴰ orphan removed.0.blocks)
    × (removed.1 ≡ true
        → Memᴰ orphan removed.0.blocks
        → Memᴰ orphan sample.blocks × Reach sample orphan.id)
    × (removed.1 ≡ false → removed.0 ≡ sample)
remove_unreachable_lem_example = remove_unreachable_lem sample orphan

void_ok :
    All
      (λ (i : Instr). i.result ≡ none → is_state_or_critical (effect_of i.opcode) ≡ true)
      (all_instructions sample.blocks)
unfolding effect_of all_instructions
void_ok = (λ e. cc, (λ e. cc, (λ e. cc, (λ e. cc, (λ e. refl, tt)))))

apart_ok :
    All
      (λ (i : Instr).
        (r : Value)
        → i.result ≡ some r
        → contains r (parameters sample.blocks sample.params) ≡ false)
      (all_instructions sample.blocks)
unfolding all_instructions block_params param_values
apart_ok = (
  λ r e. ground arith,
  (λ r e. ground arith, (λ r e. ground arith, (λ r e. ground arith, (λ r e. cc, tt)))),
)

sample-WellFormed : WellFormed sample.blocks sample.params
sample-WellFormed = record {
  void = λ i m. All-Memᴰ _ i (all_instructions sample.blocks) void_ok m;
  apart = λ i r m. All-Memᴰ _ i (all_instructions sample.blocks) apart_ok m r;
}

load_there :
    Memᴰ
      (instr (Opcode.sload 0) [] (some 0))
      (all_instructions (remove_unreachable sample).0.blocks)
unfolding remove_unreachable reachable_blocks walk successors_of find_block successors
    all_instructions
load_there = Memᴰ.head refl

run_function-closed_example :
    let load = instr (Opcode.sload 0) [] (some 0) in
    let out = (run_function stable_name sample).0.blocks in
    ((i : Instr)
      → Memᴰ i (all_instructions out)
      → contains 0 i.operands ≡ true
      → Memᴰ load (all_instructions out))
    × ((b : IrBlock)
        → Memᴰ b out
        → contains 0 (uses b.terminator) ≡ true
        → Memᴰ load (all_instructions out))
run_function-closed_example =
    run_function-closed stable_name sample sample-WellFormed (instr (Opcode.sload 0) [] (some 0)) 0
      load_there refl

live_walk-ends_example : (live_walk sample ((true ∷ []) ∷ [])).1 ≡ []
live_walk-ends_example = live_walk-ends sample ((true ∷ []) ∷ [])
