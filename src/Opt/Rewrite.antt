-- ===== src/Opt/Rewrite.antt =====
-- `apply_replacements` of crates/covenant-opt/src/helpers.rs: every use of a replaced value, in an
-- instruction or a terminator, becomes a use of the other one. A replacement map is an association
-- list with the newest entry first.
pub mod View
pub mod Order
pub mod Reads
use covenant_language.Base.{Bool, true, false, ◌||◌, Option, none, some, List, [], ◌∷◌, map, lookup}
use covenant_language.Ir.Ident.{Value}
use covenant_language.Opt.Effects.{is_some}
use covenant_language.Ir.Function.{Instr, Terminator, IrBlock, IrFunction}

abbrev pub Replacements : Type 0
Replacements = List (Value × Value)

-- `if let Some(&new) = map.get(v) { *v = new }`.
abbrev pub or_keep : Value → Option Value → Value
or_keep v (some new) = new
or_keep v none = v

unfoldable pub replace : Replacements → Value → Value
replace m v = or_keep v (lookup v m)

unfoldable pub any_replaced : Replacements → List Value → Bool
any_replaced m [] = false
any_replaced m (v ∷ vs) = is_some (lookup v m) || any_replaced m vs

unfoldable pub replace_terminator : Replacements → Terminator → Terminator
unfolding replace
replace_terminator m (Terminator.jump t args) = Terminator.jump t (map (replace m) args)
replace_terminator m (Terminator.branch c t ts e es) =
    Terminator.branch (replace m c) t (map (replace m) ts) e (map (replace m) es)
replace_terminator m (Terminator.fhe_branch c t ts e es merge) =
    Terminator.fhe_branch (replace m c) t (map (replace m) ts) e (map (replace m) es) merge
replace_terminator m (Terminator.return (some v)) = Terminator.return (some (replace m v))
replace_terminator m (Terminator.return none) = Terminator.return none
replace_terminator m (Terminator.revert error args) = Terminator.revert error (map (replace m) args)
replace_terminator m Terminator.unreachable = Terminator.unreachable

unfoldable pub terminator_replaced : Replacements → Terminator → Bool
unfolding any_replaced
terminator_replaced m (Terminator.jump _ args) = any_replaced m args
terminator_replaced m (Terminator.branch c _ ts _ es) =
    any_replaced m (c ∷ []) || (any_replaced m ts || any_replaced m es)
terminator_replaced m (Terminator.fhe_branch c _ ts _ es _) =
    any_replaced m (c ∷ []) || (any_replaced m ts || any_replaced m es)
terminator_replaced m (Terminator.return (some v)) = any_replaced m (v ∷ [])
terminator_replaced m (Terminator.return none) = false
terminator_replaced m (Terminator.revert _ args) = any_replaced m args
terminator_replaced m Terminator.unreachable = false

unfoldable pub replace_instr : Replacements → Instr → Instr
unfolding replace
replace_instr m i = record i { operands = map (replace m) i.operands }

unfoldable pub any_instr_replaced : Replacements → List Instr → Bool
unfolding any_replaced
any_instr_replaced m [] = false
any_instr_replaced m (i ∷ is) = any_replaced m i.operands || any_instr_replaced m is

unfoldable pub replace_block : Replacements → IrBlock → IrBlock
unfolding replace_instr replace_terminator
replace_block m b = record b {
  instructions = map (replace_instr m) b.instructions;
  terminator = replace_terminator m b.terminator;
}

unfoldable pub any_block_replaced : Replacements → List IrBlock → Bool
unfolding any_instr_replaced terminator_replaced
any_block_replaced m [] = false
any_block_replaced m (b ∷ bs) =
    (any_instr_replaced m b.instructions || terminator_replaced m b.terminator)
    || any_block_replaced m bs

-- The new function, and whether any use was replaced. The map may name a value for itself.
unfoldable pub apply_replacements : IrFunction → Replacements → IrFunction × Bool
unfolding replace_block any_block_replaced
apply_replacements func [] = (func, false)
apply_replacements func (e ∷ m) = (
  record func { blocks = map (replace_block (e ∷ m)) func.blocks },
  any_block_replaced (e ∷ m) func.blocks,
)
