-- ===== src/Opt/Manager/Outcome.antt =====
-- How a run of the pass manager (crates/covenant-opt/src/manager.rs) ends.
use covenant_language.Base.{ℕ, ◌≡◌, false, Option, some, String, List, [], ◌∷◌, ◌++◌}
use covenant_language.Types.Ty.{Ty}
use covenant_language.Privacy.{PrivacyDomain}
use covenant_language.Ir.Opcode.{Opcode}
use covenant_language.Ir.Function.{IrConstant}
use covenant_language.Ir.Module.{IrModule}
use covenant_language.Opt.Manager.{
  OptimizerConfig, OptDiagnostic, Round, module_span, run_round, run_loop,
}

module _ (debug : Opcode → String) (debug_constant : IrConstant → String) (debug_ty : Ty → String)
    (debug_privacy : PrivacyDomain → String) (config : OptimizerConfig) where
  abbrev round : IrModule → List OptDiagnostic → Option Round
  round = run_round debug debug_constant debug_ty debug_privacy config

  abbrev loop : ℕ → IrModule → List OptDiagnostic → Option (IrModule × List OptDiagnostic)
  loop = run_loop debug debug_constant debug_ty debug_privacy config

  -- A last round in which no pass reported a change gave the module and the diagnostics.
  abbrev pub Converged : IrModule × List OptDiagnostic → Type 0
  Converged (m, ds) =
      (start : IrModule) × (before_round : List OptDiagnostic) × (round start before_round
        ≡ some (m, false, ds))

  -- The iterations ran out, and the last diagnostic says so.
  abbrev pub GaveUp : IrModule × List OptDiagnostic → Type 0
  GaveUp (m, ds) =
      (before_loop : List OptDiagnostic) × (ds
        ≡ before_loop
          ++ OptDiagnostic.fixpoint_not_converged (module_span m) config.max_iterations ∷ [])
