-- ===== src/Opt/Coalesce.antt =====
-- crates/covenant-opt/src/sload_coalesce.rs: loads of one field with no write between them share the
-- first load. The cache is an association list, which `remove` takes every entry of a field from.
pub mod Sound
pub mod Tests
use covenant_language.Base.{
  Bool, not, Option, none, some, List, [], ◌∷◌, ◌==◌, lookup, keep_if, if◌then◌else◌,
}
use covenant_language.Ir.Ident.{Value, GlobalId}
use covenant_language.Ir.Opcode.{Opcode}
use covenant_language.Ir.Function.{Instr, IrBlock, IrFunction}
use covenant_language.Opt.Rewrite.{Replacements, apply_replacements}

abbrev pub Cache : Type 0
Cache = List (GlobalId × Value)

abbrev pub remove : GlobalId → Cache → Cache
remove id cache = keep_if (λ (e : GlobalId × Value). not (e.0 == id)) cache

-- A load of a field, by its cached value and its result.
abbrev pub load_step :
    GlobalId → Option Value → Option Value → Cache → Replacements → Cache × Replacements
load_step id (some existing) (some result) cache m =
    (cache, if result == existing then m else (result, existing) ∷ m)
load_step id (some existing) none cache m = (cache, m)
load_step id none (some result) cache m = ((id, result) ∷ cache, m)
load_step id none none cache m = (cache, m)

abbrev pub opcode_step : Opcode → Option Value → Cache → Replacements → Cache × Replacements
opcode_step (Opcode.sload id) result cache m = load_step id (lookup id cache) result cache m
opcode_step (Opcode.sstore id) result cache m = (remove id cache, m)
opcode_step Opcode.map_set result cache m = ([], m)
opcode_step Opcode.map_delete result cache m = ([], m)
opcode_step Opcode.list_append result cache m = ([], m)
opcode_step Opcode.list_set result cache m = ([], m)
opcode_step _ result cache m = (cache, m)

unfoldable pub scan_block : List Instr → Cache → Replacements → Replacements
scan_block [] cache m = m
scan_block (i ∷ is) cache m =
    let next = opcode_step i.opcode i.result cache m in scan_block is next.0 next.1

unfoldable pub scan_blocks : List IrBlock → Replacements → Replacements
unfolding scan_block
scan_blocks [] m = m
scan_blocks (b ∷ bs) m = scan_blocks bs (scan_block b.instructions [] m)

unfoldable pub run_function : IrFunction → IrFunction × Bool
unfolding scan_blocks
run_function func = apply_replacements func (scan_blocks func.blocks [])
