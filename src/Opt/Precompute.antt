-- ===== src/Opt/Precompute.antt =====
-- crates/covenant-opt/src/precompute.rs: the evaluation of `@precompute` annotations. Of the
-- annotations a function keeps the values of its `Precompute`s; a diagnostic W405 is its span.
pub mod Warns
use covenant_language.Base.{
  Bool, true, false, Option, none, some, List, [], ◌∷◌, lookup, if◌then◌else◌,
}
use covenant_language.Ir.Ident.{Span, Value}
use covenant_language.Ir.Function.{ValueInfo, IrFunction}
use covenant_language.Opt.Rewrite.{apply_replacements}
use covenant_language.Opt.Fold.Pass as FoldPass
use covenant_language.Opt.Fold.Pass.{get_or_else, nowhere}

-- `matches!(info, Some(ValueInfo::Const(_)))`.
abbrev pub is_const : Option ValueInfo → Bool
is_const (some (ValueInfo.const c)) = true
is_const _ = false

unfoldable pub warnings : IrFunction → List Value → List Span
warnings func [] = []
warnings func (t ∷ ts) =
    let rest = warnings func ts in
    if is_const (lookup t func.values)
    then rest
    else get_or_else nowhere (lookup t func.value_spans) ∷ rest

-- The pass, on the values of the annotations: the function, whether it is said to have changed, and
-- the warnings.
unfoldable pub run_targets : IrFunction → List Value → IrFunction × Bool × List Span
run_targets func [] = (func, false, [])
run_targets func (t ∷ ts) =
    let folded = (FoldPass.run_function func).0 in
    let replaced = apply_replacements folded [] in
    (replaced.0, replaced.1, warnings folded (t ∷ ts))

unfoldable pub run_function : IrFunction → IrFunction × Bool × List Span
unfolding run_targets
run_function func = run_targets func func.precomputes
