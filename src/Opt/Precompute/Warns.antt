-- ===== src/Opt/Precompute/Warns.antt =====
-- What crates/covenant-opt/src/precompute.rs warns of: folding makes no difference to it.
use covenant_language.Base.{
  ◌≡◌, refl, ap, inl, inr, false, some, List, [], ◌∷◌, length, lookup, keep_if, not, All,
  Bool-cases, suc,
}
use covenant_language.Ir.Ident.{Value}
use covenant_language.Ir.Function.{ValueInfo, IrFunction}
use covenant_language.Opt.Rewrite.{apply_replacements}
use covenant_language.Opt.Fold.Pass as FoldPass
use covenant_language.Opt.Fold.Pass.{Folded, fresh_value, fresh_const, folds, allocate}
use covenant_language.Opt.Fold.Pass.Registry.{
  IsRegistered, lookup-allocate, apply_replacements-values,
}
use covenant_language.Opt.Precompute.{is_const, warnings, run_targets, run_function}

-- The values that the registry does not have as constants.
abbrev pub not_constant : IrFunction → List Value → List Value
not_constant func ts = keep_if (λ t. not (is_const (lookup t func.values))) ts

lookup-run_function :
    (func : IrFunction) (t : Value) (info : ValueInfo)
    → lookup t func.values ≡ some info
    → lookup t (FoldPass.run_function func).0.values ≡ some info
unfolding FoldPass.run_function
lookup-run_function func t info h =
    let made = allocate (folds func func.blocks) func [] in
    rw (apply_replacements-values made.0 made.1)
      (lookup-allocate t info (folds func func.blocks) func [] h)

length-warnings :
    (func folded : IrFunction) (ts : List Value)
    → All (λ t. lookup t folded.values ≡ lookup t func.values) ts
    → length (warnings folded ts) ≡ length (not_constant func ts)
unfolding warnings
length-warnings func folded [] h = refl
length-warnings func folded (t ∷ ts) h = elim (Bool-cases (is_const (lookup t func.values))) [
  | inl c ↦ rw (h.0, c) (length-warnings func folded ts h.1)
  | inr n ↦ rw (h.0, n) (ap suc (length-warnings func folded ts h.1))
]

same_lookups :
    (func : IrFunction) (ts : List Value)
    → All (IsRegistered func) ts
    → All (λ t. lookup t (FoldPass.run_function func).0.values ≡ lookup t func.values) ts
same_lookups func [] h = tt
same_lookups func (t ∷ ts) ((info, e), h) =
    (rw e (lookup-run_function func t info e), same_lookups func ts h)

-- Where the annotated values are registered, the pass reports no change, and warns once for each of
-- them that was not a constant before the pass folded anything.
pub run_function-warns :
    (func : IrFunction)
    → All (IsRegistered func) func.precomputes
    → ((run_function func).1 ≡ false)
      × (length (run_function func).2 ≡ length (not_constant func func.precomputes))
unfolding run_function run_targets apply_replacements
run_function-warns func h = go func.precomputes h
  where
    go :
        (ts : List Value)
        → All (IsRegistered func) ts
        → ((run_targets func ts).1 ≡ false)
          × (length (run_targets func ts).2 ≡ length (not_constant func ts))
    go [] k = (refl, refl)
    go (t ∷ ts) k = (
      refl,
      length-warnings func (FoldPass.run_function func).0 (t ∷ ts) (same_lookups func (t ∷ ts) k),
    )
