-- ===== src/Opt/Manager.antt =====
-- The pass manager: crates/covenant-opt/src/manager.rs, config.rs and lib.rs. `none` is the panic of
-- the validator. The texts are the derived `Debug` ones that the passes use.
pub mod Outcome
pub mod Tests
use covenant_language.Base.{
  ℕ, zero, suc, Bool, true, false, ◌||◌, Option, none, some, String, List, [], ◌∷◌, ◌++◌, map,
  if◌then◌else◌,
}
use covenant_language.Types.Ty.{Ty}
use covenant_language.Privacy.{PrivacyDomain}
use covenant_language.Ir.Ident.{Span}
use covenant_language.Ir.Opcode.{Opcode}
use covenant_language.Ir.Function.{IrConstant, IrFunction}
use covenant_language.Ir.Module.{IrModule}
use covenant_language.Ir.Validate.{Diagnostic, validate}
use covenant_language.Opt.Precompute as Precompute
use covenant_language.Opt.Fold.Pass as FoldPass
use covenant_language.Opt.FheFold as FheFold
use covenant_language.Opt.Coalesce as Coalesce
use covenant_language.Opt.Cse as Cse
use covenant_language.Opt.Dce as Dce

pub record OptimizerConfig : Type 0 where
  pub enable_precompute : Bool
  pub enable_constant_folding : Bool
  pub enable_dce : Bool
  pub enable_cse : Bool
  pub enable_sload_coalescing : Bool
  pub enable_trivial_fhe_folding : Bool
  pub max_iterations : ℕ
  pub validate_after_each_pass : Bool

-- `Default`; the flag is `cfg!(debug_assertions)`.
abbrev pub default_config : Bool → OptimizerConfig
default_config debug_assertions = record {
  enable_precompute = true;
  enable_constant_folding = true;
  enable_dce = true;
  enable_cse = true;
  enable_sload_coalescing = true;
  enable_trivial_fhe_folding = true;
  max_iterations = 10;
  validate_after_each_pass = debug_assertions;
}

abbrev pub no_passes : OptimizerConfig
no_passes = record {
  enable_precompute = false;
  enable_constant_folding = false;
  enable_dce = false;
  enable_cse = false;
  enable_sload_coalescing = false;
  enable_trivial_fhe_folding = false;
  max_iterations = 10;
  validate_after_each_pass = false;
}

-- The diagnostics of crates/covenant-opt/src/diag.rs that the manager and the passes push.
pub data OptDiagnostic : Type 0 where
  fixpoint_not_converged : Span → ℕ → OptDiagnostic
  invariant_broken : String → Diagnostic → OptDiagnostic
  precompute_runtime : Span → OptDiagnostic

-- The module, whether a pass changed it so far in this round, and the diagnostics.
abbrev pub Round : Type 0
Round = IrModule × Bool × List OptDiagnostic

-- A pass over one function, with its warnings.
abbrev pub Pass : Type 0
Pass = IrFunction → IrFunction × Bool × List Span

abbrev pub quiet : (IrFunction → IrFunction × Bool) → Pass
quiet run f = let r = run f in (r.0, r.1, [])

-- `for f in &mut module.functions { changed |= pass(f) }`.
unfoldable pub each_function : Pass → List IrFunction → List IrFunction × Bool × List OptDiagnostic
each_function pass [] = ([], false, [])
each_function pass (f ∷ fs) =
    let r = pass f in
    let rest = each_function pass fs in
    (r.0 ∷ rest.0, r.1 || rest.1, map OptDiagnostic.precompute_runtime r.2 ++ rest.2)

infixl 5 ◌>>=◌
abbrev pub ◌>>=◌ {ℓ κ} : {A : Type ℓ} {B : Type κ} → Option A → (A → Option B) → Option B
none >>= k = none
some a >>= k = k a

unfoldable pub module_span : IrModule → Span
module_span m = elim m.functions [
  | [] ↦ record { source = m.source_id; start = 0; end = 0 }
  | f ∷ fs ↦ f.span
]

module _ (debug : Opcode → String) (debug_constant : IrConstant → String) (debug_ty : Ty → String)
    (debug_privacy : PrivacyDomain → String) (config : OptimizerConfig) where
  unfoldable pub maybe_validate : String → Round → Option Round
  maybe_validate pass r =
      if config.validate_after_each_pass
      then (do
        issues ← validate debug r.0
        some (r.0, r.1, r.2 ++ map (OptDiagnostic.invariant_broken pass) issues))
      else some r

  -- One enabled pass over the module, and the validation after it.
  unfoldable pub run_pass : Bool → String → Pass → Round → Option Round
  unfolding each_function
  run_pass enabled name pass r =
      if enabled
      then (let done = each_function pass r.0.functions in
          maybe_validate name (record (r.0) { functions = done.0 }, r.1 || done.1, r.2 ++ done.2))
      else some r

  -- The passes in their order.
  unfoldable pub run_round : IrModule → List OptDiagnostic → Option Round
  run_round m ds = do
    r1 ← run_pass config.enable_precompute "precompute" Precompute.run_function (m, false, ds)
    r2 ← run_pass config.enable_constant_folding "constant_fold" (quiet FoldPass.run_function) r1
    r3 ←
        run_pass config.enable_trivial_fhe_folding "fhe_fold"
          (quiet (FheFold.run_function debug_constant debug_ty debug_privacy)) r2
    r4 ← run_pass config.enable_sload_coalescing "sload_coalesce" (quiet Coalesce.run_function) r3
    r5 ← run_pass config.enable_cse "cse" (quiet (Cse.run_function debug)) r4
    run_pass config.enable_dce "dce" (quiet (Dce.run_function debug)) r5

  -- The loop, with the iterations left.
  unfoldable pub run_loop :
      ℕ → IrModule → List OptDiagnostic → Option (IrModule × List OptDiagnostic)
  run_loop zero m ds =
      some
        (m, ds ++ OptDiagnostic.fixpoint_not_converged (module_span m) config.max_iterations ∷ [])
  run_loop (suc left) m ds = do
    r ← run_round m ds
    elim r.1 [ true ↦ run_loop left r.0 r.2 | false ↦ some (r.0, r.2) ]

  unfoldable pub optimize : IrModule → Option (IrModule × List OptDiagnostic)
  unfolding run_loop
  optimize m = run_loop config.max_iterations m []
