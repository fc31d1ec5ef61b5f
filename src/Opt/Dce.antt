-- ===== src/Opt/Dce.antt =====
-- crates/covenant-opt/src/dce.rs: dead code elimination. The `HashSet`s are lists of numbers; the
-- queue of the block walk has its front at the head, and the frontier of the liveness walk has
-- its top at the head. `debug` is the derived `Debug` text of an opcode (`format!("{:?}", op)`).
pub mod Paths
pub mod Reachable
pub mod Live
pub mod Keep
pub mod Closed
pub mod Tests
pub mod Observe
use covenant_language.Base.{
  ℕ, zero, suc, ◌+◌, ◌*◌, Bool, true, false, not, ◌&&◌, ◌||◌, Option, none, some, String, List, [],
  ◌∷◌, ◌++◌, ◌==◌, str_eq, contains, keep_if, length, if◌then◌else◌,
}
use covenant_language.Ir.Ident.{Value, BlockId}
use covenant_language.Ir.Opcode.{Opcode}
use covenant_language.Ir.Function.{Instr, Terminator, IrBlock, IrParam, IrFunction, find_block}
use covenant_language.Opt.Effect.{Effect, effect_of}
use covenant_language.Opt.Effects.{
  Consts, integer_constants, trap_can_fire, trap_depends_only_on_operands,
}
use mathlib.Core.List.{reverse}

-- The targets that a terminator enqueues.
unfoldable pub successors : Terminator → List BlockId
successors (Terminator.jump t _) = t ∷ []
successors (Terminator.branch _ t _ e _) = t ∷ e ∷ []
successors (Terminator.fhe_branch _ t _ e _ m) = t ∷ e ∷ m ∷ []
successors (Terminator.return _) = []
successors (Terminator.revert _ _) = []
successors Terminator.unreachable = []

unfoldable pub successors_of : List IrBlock → BlockId → List BlockId
successors_of blocks bid = elim (find_block bid blocks) [
  | none ↦ []
  | some b ↦ successors b.terminator
]

-- The `while let` of `reachable_blocks`: the set reached and the queue left. A round pops one id.
unfoldable pub walk : ℕ → List IrBlock → List BlockId → List BlockId → List BlockId × List BlockId
walk zero blocks reached queue = (reached, queue)
walk (suc fuel) blocks reached [] = (reached, [])
walk (suc fuel) blocks reached (bid ∷ queue) =
    let seen = contains bid reached in
    walk fuel blocks (if seen then reached else bid ∷ reached)
      (if seen then queue else queue ++ successors_of blocks bid)

-- Each block enqueues at most three ids, once.
abbrev pub walk_fuel : List IrBlock → ℕ
walk_fuel blocks = 2 + 3 * length blocks

unfoldable pub reachable_blocks : IrFunction → List BlockId
reachable_blocks func = (walk (walk_fuel func.blocks) func.blocks [] (func.entry ∷ [])).0

abbrev pub values_eq : List Value → List Value → Bool
values_eq [] [] = true
values_eq (v ∷ vs) (w ∷ ws) = v == w && values_eq vs ws
values_eq _ _ = false

abbrev pub Key : Type 0
Key = String × List Value

unfoldable pub has_key : Key → List Key → Bool
has_key k [] = false
has_key k (j ∷ js) = (str_eq j.0 k.0 && values_eq j.1 k.1) || has_key k js

-- What a terminator reads.
unfoldable pub uses : Terminator → List Value
uses (Terminator.jump _ args) = args
uses (Terminator.branch c _ ts _ es) = c ∷ (ts ++ es)
uses (Terminator.fhe_branch c _ ts _ es _) = c ∷ (ts ++ es)
uses (Terminator.return (some v)) = v ∷ []
uses (Terminator.return none) = []
uses (Terminator.revert _ args) = args
uses Terminator.unreachable = []

-- `instr.result == Some(v)`.
abbrev pub defines : Value → Option Value → Bool
defines v (some r) = r == v
defines v none = false

unfoldable pub definer_operands : Value → List Instr → List Value
definer_operands v [] = []
definer_operands v (i ∷ is) =
    if defines v i.result then i.operands ++ definer_operands v is else definer_operands v is

unfoldable pub all_instructions : List IrBlock → List Instr
all_instructions [] = []
all_instructions (b ∷ bs) = b.instructions ++ all_instructions bs

-- The second loop of `compute_live_set`: the live set and the frontier left. Pushing a list puts
-- its last element on top.
unfoldable pub propagate : ℕ → List Instr → List Value → List Value → List Value × List Value
propagate zero is live frontier = (live, frontier)
propagate (suc fuel) is live [] = (live, [])
propagate (suc fuel) is live (v ∷ frontier) =
    let seen = contains v live in
    propagate fuel is (if seen then live else v ∷ live)
      (if seen then frontier else reverse (definer_operands v is) ++ frontier)

unfoldable pub kept_operands : List Bool → List Instr → List Value
kept_operands (true ∷ ks) (i ∷ is) = i.operands ++ kept_operands ks is
kept_operands (false ∷ ks) (i ∷ is) = kept_operands ks is
kept_operands _ _ = []

unfoldable pub seeds : List (List Bool) → List IrBlock → List Value
seeds (ks ∷ kss) (b ∷ bs) = (kept_operands ks b.instructions ++ uses b.terminator) ++ seeds kss bs
seeds _ _ = []

unfoldable pub operand_total : List Instr → ℕ
operand_total [] = 0
operand_total (i ∷ is) = length i.operands + operand_total is

unfoldable pub param_values : List IrParam → List Value
param_values [] = []
param_values (p ∷ ps) = p.value ∷ param_values ps

unfoldable pub block_params : List IrBlock → List Value
block_params [] = []
block_params (b ∷ bs) = b.params ++ block_params bs

-- The loop of `compute_live_set` alone: a value pushes the operands of its definers once.
unfoldable pub live_walk : IrFunction → List (List Bool) → List Value × List Value
live_walk func must_keep =
    let is = all_instructions func.blocks in
    let frontier = reverse (seeds must_keep func.blocks) in
    propagate (1 + length frontier + operand_total is) is [] frontier

unfoldable pub compute_live_set : IrFunction → List (List Bool) → List Value
compute_live_set func must_keep =
    block_params func.blocks ++ (param_values func.params ++ (live_walk func must_keep).0)

unfoldable pub retained : List Value → Option Value → Bool
retained live (some v) = contains v live
retained live none = true

unfoldable pub sweep : List Value → List Bool → List Instr → List Instr
sweep live (k ∷ ks) (i ∷ is) =
    let rest = sweep live ks is in if k || retained live i.result then i ∷ rest else rest
sweep live _ _ = []

unfoldable pub sweep_blocks : List Value → List (List Bool) → List IrBlock → List IrBlock
sweep_blocks live (ks ∷ kss) (b ∷ bs) =
    record b { instructions = sweep live ks b.instructions } ∷ sweep_blocks live kss bs
sweep_blocks live _ _ = []

-- `block.instructions.len() != before` for some block.
unfoldable pub any_shorter : List IrBlock → List IrBlock → Bool
any_shorter (a ∷ as') (b ∷ bs) =
    not (length a.instructions == length b.instructions) || any_shorter as' bs
any_shorter _ _ = false

-- The block removal, done only where the counts differ.
unfoldable pub remove_unreachable : IrFunction → IrFunction × Bool
remove_unreachable func =
    let reachable = reachable_blocks func in
    if length reachable == length func.blocks
    then (func, false)
    else (record func { blocks = keep_if (λ b. contains b.id reachable) func.blocks }, true)

module _ (debug : Opcode → String) where
  -- The answer for one instruction and the keys of the traps taken so far.
  unfoldable pub keep_step : Consts → List Key → Instr → Bool × List Key
  keep_step consts trapped i = elim (effect_of i.opcode) [
    | Effect.pure ↦ (false, trapped)
    | Effect.state ↦ (true, trapped)
    | Effect.critical ↦ (true, trapped)
    | Effect.trap ↦
        if not (trap_can_fire i consts)
        then (false, trapped)
        else if trap_depends_only_on_operands i.opcode
        then (
          not (has_key (debug i.opcode, i.operands) trapped),
          (debug i.opcode, i.operands) ∷ trapped,
        )
        else (true, trapped)
  ]

  unfoldable pub decide_block : Consts → List Key → List Instr → List Bool
  decide_block consts trapped [] = []
  decide_block consts trapped (i ∷ is) =
      let step = keep_step consts trapped i in step.0 ∷ decide_block consts step.1 is

  unfoldable pub decide_must_keep : Consts → List IrBlock → List (List Bool)
  decide_must_keep consts [] = []
  decide_must_keep consts (b ∷ bs) =
      decide_block consts [] b.instructions ∷ decide_must_keep consts bs

  unfoldable pub eliminate_pure : IrFunction → IrFunction × Bool
  eliminate_pure func =
      let must_keep = decide_must_keep (integer_constants func) func.blocks in
      let live = compute_live_set func must_keep in
      let swept = sweep_blocks live must_keep func.blocks in
      (record func { blocks = swept }, any_shorter swept func.blocks)

  -- The pass: the new function, and whether it changed.
  unfoldable pub run_function : IrFunction → IrFunction × Bool
  run_function func =
      let removed = remove_unreachable func in
      let swept = eliminate_pure removed.0 in (swept.0, removed.1 || swept.1)
