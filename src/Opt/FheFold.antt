-- ===== src/Opt/FheFold.antt =====
-- crates/covenant-opt/src/fhe_fold.rs: trivial encryptions of one constant share the first of them.
-- The texts in a key are the derived `Debug` ones, of a constant, a type and a privacy domain.
pub mod Order
pub mod Sound
mod Tests
use covenant_language.Base.{
  Bool, true, false, not, ◌&&◌, ◌||◌, Option, none, some, String, List, [], ◌∷◌, ◌==◌, str_eq,
  lookup, if◌then◌else◌,
}
use covenant_language.Types.Ty.{Ty}
use covenant_language.Privacy.{PrivacyDomain}
use covenant_language.Ir.Ident.{Value}
use covenant_language.Ir.Opcode.{Opcode}
use covenant_language.Ir.Function.{IrConstant, Instr, IrBlock, IrFunction}
use covenant_language.Opt.Fold.{as_const}
use covenant_language.Opt.Rewrite.{Replacements, apply_replacements}

-- The constant, the lift mark, the type and the privacy domain of a trivial encryption.
pub record Key : Type 0 where
  pub constant : String
  pub from_lift : Bool
  pub ty : String
  pub privacy : String

abbrev pub same_bool : Bool → Bool → Bool
same_bool true b = b
same_bool false b = not b

abbrev pub same_key : Key → Key → Bool
same_key j k =
    str_eq j.constant k.constant
    && (same_bool j.from_lift k.from_lift && (str_eq j.ty k.ty && str_eq j.privacy k.privacy))

abbrev pub Firsts : Type 0
Firsts = List (Key × Value)

unfoldable pub find_first : Key → Firsts → Option Value
find_first k [] = none
find_first k ((j, v) ∷ m) = if same_key j k then some v else find_first k m

abbrev pub is_trivial_encryption : Opcode → Bool
is_trivial_encryption Opcode.fhe_encrypt_trivial = true
is_trivial_encryption _ = false

abbrev pub first : List Value → Option Value
first [] = none
first (v ∷ vs) = some v

abbrev pub merge : Key → Value → Option Value → Firsts → Replacements → Firsts × Replacements
merge key result (some existing) firsts m =
    (firsts, if existing == result then m else (result, existing) ∷ m)
merge key result none firsts m = ((key, result) ∷ firsts, m)

module _ (debug_constant : IrConstant → String) (debug_ty : Ty → String)
    (debug_privacy : PrivacyDomain → String) where
  abbrev pub ty_text : Option Ty → String
  ty_text (some t) = debug_ty t
  ty_text none = "<no-ty>"

  abbrev pub privacy_text : Option PrivacyDomain → String
  privacy_text (some p) = debug_privacy p
  privacy_text none = "<no-priv>"

  abbrev pub key_of : IrFunction → Instr → Value → IrConstant → Key
  key_of func i result c = record {
    constant = debug_constant c;
    from_lift = i.from_lift;
    ty = ty_text (lookup result func.value_types);
    privacy = privacy_text (lookup result func.value_privacy);
  }

  abbrev pub const_step :
      IrFunction → Instr → Value → Option IrConstant → Firsts → Replacements → Firsts × Replacements
  const_step func i result none firsts m = (firsts, m)
  const_step func i result (some c) firsts m =
      let key = key_of func i result c in merge key result (find_first key firsts) firsts m

  abbrev pub operand_step :
      IrFunction
      → Instr
      → Option Value
      → Option Value
      → Firsts
      → Replacements
      → Firsts × Replacements
  operand_step func i (some result) (some operand) firsts m =
      const_step func i result (as_const func operand) firsts m
  operand_step func i _ _ firsts m = (firsts, m)

  unfoldable pub fold_step : IrFunction → Instr → Firsts → Replacements → Firsts × Replacements
  fold_step func i firsts m =
      if not (is_trivial_encryption i.opcode)
      then (firsts, m)
      else operand_step func i i.result (first i.operands) firsts m

  -- One table serves all the blocks.
  unfoldable pub fold_instrs :
      IrFunction → List Instr → Firsts → Replacements → Firsts × Replacements
  fold_instrs func [] firsts m = (firsts, m)
  fold_instrs func (i ∷ is) firsts m =
      let next = fold_step func i firsts m in fold_instrs func is next.0 next.1

  unfoldable pub fold_blocks : IrFunction → List IrBlock → Firsts → Replacements → Replacements
  fold_blocks func [] firsts m = m
  fold_blocks func (b ∷ bs) firsts m =
      let next = fold_instrs func b.instructions firsts m in fold_blocks func bs next.0 next.1

  unfoldable pub run_function : IrFunction → IrFunction × Bool
  run_function func = apply_replacements func (fold_blocks func func.blocks [] [])
