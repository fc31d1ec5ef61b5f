-- ===== src/Opt/Fold/Pass.antt =====
-- The pass of crates/covenant-opt/src/constant_fold.rs, with `fresh_const` of helpers.rs: the folded
-- values are gathered first, then each gets a fresh constant, and its uses are redirected to that.
pub mod Registry
pub mod Sound
use covenant_language.Base.{
  ℕ, suc, ◌+◌, ◌%◌, ◌^◌, max, Bool, true, false, Option, none, some, List, [], ◌∷◌, ◌++◌, lookup,
  if◌then◌else◌,
}
use covenant_language.Types.Ty.{Ty}
use covenant_language.Privacy.{PrivacyDomain}
use covenant_language.Ir.Ident.{Span, Value}
use covenant_language.Ir.Function.{IrConstant, ValueInfo, Instr, IrBlock, IrFunction}
use covenant_language.Opt.Fold.{try_fold}
use covenant_language.Opt.Rewrite.{Replacements, apply_replacements}

abbrev pub get_or_else {ℓ} : {A : Type ℓ} → A → Option A → A
get_or_else d (some a) = a
get_or_else d none = d

abbrev pub nowhere : Span
nowhere = record { source = 0; start = 0; end = 0 }

unfoldable pub max_value : List (Value × ValueInfo) → ℕ
max_value [] = 0
max_value ((v, _) ∷ values) = max v (max_value values)

-- The id of the next constant, a `u32`.
unfoldable pub fresh_value : IrFunction → Value
unfolding max_value
fresh_value func = (max_value func.values + 1) % 2 ^ 32

unfoldable pub fresh_const :
    IrFunction → IrConstant → Ty → PrivacyDomain → Span → IrFunction × Value
unfolding fresh_value
fresh_const func c ty privacy span =
    let v = fresh_value func in
    (
      record func {
        values = func.values ++ (v, ValueInfo.const c) ∷ [];
        value_types = (v, ty) ∷ func.value_types;
        value_privacy = (v, privacy) ∷ func.value_privacy;
        value_spans = (v, span) ∷ func.value_spans;
      },
      v,
    )

-- A result, what it folds to, and what is recorded of it.
pub record Folded : Type 0 where
  pub result : Value
  pub constant : IrConstant
  pub ty : Ty
  pub privacy : PrivacyDomain
  pub span : Span

abbrev pub folded_at : IrFunction → Value → IrConstant → Folded
folded_at func r c = record {
  result = r;
  constant = c;
  ty = get_or_else Ty.unknown (lookup r func.value_types);
  privacy = get_or_else PrivacyDomain.plaintext (lookup r func.value_privacy);
  span = get_or_else nowhere (lookup r func.value_spans);
}

-- The fold of an instruction, if it has a result, is no lift, and folds.
abbrev pub fold_of : IrFunction → Option Value → Bool → Option IrConstant → List Folded
fold_of func none lift c = []
fold_of func (some r) true c = []
fold_of func (some r) false none = []
fold_of func (some r) false (some c) = folded_at func r c ∷ []

unfoldable pub folds_in : IrFunction → List Instr → List Folded
folds_in func [] = []
folds_in func (i ∷ is) =
    fold_of func i.result i.from_lift (try_fold func i.opcode i.operands) ++ folds_in func is

unfoldable pub folds : IrFunction → List IrBlock → List Folded
folds func [] = []
folds func (b ∷ bs) = folds_in func b.instructions ++ folds func bs

-- The second loop.
unfoldable pub allocate : List Folded → IrFunction → Replacements → IrFunction × Replacements
allocate [] func m = (func, m)
allocate (f ∷ fs) func m =
    let next = fresh_const func f.constant f.ty f.privacy f.span in
    allocate fs next.0 ((f.result, next.1) ∷ m)

unfoldable pub run_function : IrFunction → IrFunction × Bool
run_function func =
    let allocated = allocate (folds func func.blocks) func [] in
    apply_replacements allocated.0 allocated.1
