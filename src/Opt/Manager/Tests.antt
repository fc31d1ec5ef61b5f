-- ===== src/Opt/Manager/Tests.antt =====
-- Runs and instances of the pass manager (crates/covenant-opt/src/manager.rs).
use covenant_language.Base.{
  zero, suc, ◌≡◌, refl, ap, false, Option, none, some, String, List, [], ◌∷◌, All, arith, length,
  ◌+◌, ◌<◌, ◌^◌,
}
use mathlib.Core.Path.{subst}
use mathlib.Core.Option.{some-injective}
use covenant_language.Types.Ty.{Ty}
use covenant_language.Privacy.{PrivacyDomain}
use covenant_language.Ir.Ident.{Span, Value}
use covenant_language.Ir.Opcode.{Opcode}
use covenant_language.Ir.Opcode.Names.{stable_name}
use covenant_language.Ir.Function.{IrConstant, ValueInfo, Instr, IrBlock, IrFunction, Terminator}
use covenant_language.Ir.Module.{IrModule}
use covenant_language.Opt.Fold.{const_of, try_fold, all_consts, as_const, fold_constants, int2}
use covenant_language.Opt.Effects.{checked_mul}
use covenant_language.Opt.Rewrite.{apply_replacements}
use covenant_language.Opt.Rewrite.View.{view}
use covenant_language.Opt.Fold.Pass as FoldPass
use covenant_language.Opt.Fold.Pass.{max_value, folds, folds_in}
use covenant_language.Opt.Fold.Pass.Registry.{IsRegistered, lookup-above}
use covenant_language.Opt.Fold.Values.{value_of, Fits, reverts}
use covenant_language.Opt.Fold.Words.{word_op}
use covenant_language.Opt.Rewrite.Reads.{AllRead}
use covenant_language.Opt.Dce.{uses}
use covenant_language.Opt.Fold.Pass.Sound.{
  with_constants, Registers, Computes, view-run_function_fold,
}
use covenant_language.Opt.Precompute as Precompute
use covenant_language.Opt.Manager.{OptimizerConfig, OptDiagnostic, optimize}

abbrev pub no_span : Span
no_span = record { source = 0; start = 0; end = 0 }

abbrev pub instr : Opcode → List Value → Value → Instr
instr op vs r = record {
  result = some r;
  opcode = op;
  operands = vs;
  from_lift = false;
  span = no_span;
}

-- `6 * 7`, annotated and returned.
abbrev pub product : IrFunction
product = record {
  name = record { name = "product"; span = no_span };
  params = [];
  returns = none;
  precomputes = 2 ∷ [];
  blocks =
      record {
        id = 0;
        params = [];
        instructions = instr Opcode.mul (0 ∷ 1 ∷ []) 2 ∷ [];
        terminator = Terminator.return (some 2);
        span = no_span;
      }
      ∷ [];
  entry = 0;
  values =
      (0, ValueInfo.const (IrConstant.integer 6))
      ∷ (1, ValueInfo.const (IrConstant.integer 7))
      ∷ (2, ValueInfo.instr_result 0 0)
      ∷ [];
  value_types = [];
  value_privacy = [];
  value_spans = [];
  span = no_span;
}

abbrev with_functions : List IrFunction → IrModule
with_functions fs = record {
  source_id = 0;
  name = record { name = "Token"; span = no_span };
  fields = [];
  structs = [];
  functions = fs;
}

abbrev pub text_of_constant : IrConstant → String
text_of_constant c = "c"

abbrev text_of_ty : Ty → String
text_of_ty t = "t"

abbrev pub text_of_privacy : PrivacyDomain → String
text_of_privacy p = "p"

abbrev debug_run : OptimizerConfig → IrModule → Option (IrModule × List OptDiagnostic)
debug_run config m = optimize stable_name text_of_constant text_of_ty text_of_privacy config m

-- The product folds, so its annotation is met; the warning comes all the same.
precompute-warns_anyway : (Precompute.run_function product).2 ≡ no_span ∷ []
unfolding Precompute.run_function Precompute.run_targets Precompute.warnings FoldPass.run_function
    FoldPass.allocate FoldPass.folds FoldPass.folds_in FoldPass.fresh_const FoldPass.fresh_value
    FoldPass.max_value try_fold all_consts as_const fold_constants int2 checked_mul
    apply_replacements
precompute-warns_anyway = refl

-- What the values of the product are.
abbrev product_value : Value → IrConstant
product_value zero = IrConstant.integer 6
product_value (suc zero) = IrConstant.integer 7
product_value _ = IrConstant.integer 42

abbrev itself : IrConstant → IrConstant
itself c = c

product-Registers : Registers itself product_value product
unfolding as_const
product-Registers zero c e = some-injective (IrConstant.integer 6) c e
product-Registers (suc zero) c e = some-injective (IrConstant.integer 7) c e
product-Registers (suc (suc zero)) c e = cc
product-Registers (suc (suc (suc v))) c e = cc (
    ap const_of (lookup-above (suc (suc (suc v))) product.values (unfold max_value in omega arith)))

abbrev factors : List IrConstant
factors = IrConstant.integer 6 ∷ IrConstant.integer 7 ∷ []

-- What is asked of the product's result.
abbrev Yields : Value → List IrConstant → Type 0
Yields r cs =
    IsRegistered product r
    × Fits Opcode.mul cs
    × ((c : IrConstant) → value_of Opcode.mul cs ≡ some c → product_value r ≡ c)

product_yields : Yields 2 factors
unfolding word_op reverts
product_yields = (
  (ValueInfo.instr_result 0 0, refl),
  (omega arith, omega arith, tt),
  λ c e. some-injective (IrConstant.integer 42) c e,
)

product-Computes :
    All (λ (b : IrBlock). All (Computes itself product_value product) b.instructions) product.blocks
unfolding as_const all_consts
product-Computes = (
  (
    λ r cs e known.
        subst (λ x. Yields x cs) (some-injective 2 r e)
          (subst (Yields 2) (some-injective factors cs known) product_yields),
    tt,
  ),
  tt,
)

product_reads : All (AllRead (IsRegistered product)) product.blocks
unfolding uses
product_reads = (((((_, refl), ((_, refl), tt)), tt), ((_, refl), tt)), tt)

product_room : max_value product.values + length (folds product product.blocks) < 2 ^ 32
unfolding max_value folds folds_in try_fold all_consts as_const fold_constants int2 checked_mul
product_room = omega arith

view-run_function_fold_example :
    view
      (with_constants itself (FoldPass.run_function product).0 product_value)
      (FoldPass.run_function product).0
    ≡ view product_value product
view-run_function_fold_example =
    view-run_function_fold itself product_value product product-Registers product-Computes
      product_reads product_room
