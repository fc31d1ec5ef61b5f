-- ===== src/Runtime/Evm/Keeps/Run.antt =====
-- The match, the rounds and the loop of crates/covenant-evm-runtime/src/evm.rs keep what the primitive
-- operations keep.
use covenant_language.Base.{
  ℕ, zero, suc, Bool, true, false, List, [], ◌∷◌, ◌++◌, All, All-append, Bool-cases, inl, inr,
  lookup, ◌==◌, ltb, length, get_or, if◌then◌else◌,
}
use covenant_language.Runtime.Evm.{Reason, CallResult, CallEnv, Machine, Flow, bind_flow}
use covenant_language.Runtime.Evm.Arms.{Arm, arithmetic_arms}
use covenant_language.Runtime.Evm.Step.{
  environment_arms, memory_arms, flow_arms, call_arms, arms, arm_or_ranged, instruction, step, run,
  set_pc,
}
use covenant_language.Runtime.Evm.Keeps.{Lands, Keeps}
use covenant_language.Runtime.Evm.Keeps.Arms.{
  IsKept, on_bind_flow, on_arithmetic, on_environment, on_memory, on_flow, on_calls, on_ranged,
}

module _ (keccak : List ℕ → List ℕ) (env : CallEnv) (code : List ℕ) (R : Machine → Machine → Type 0)
    (k : IsKept keccak env code R) where
  on_lookup :
      (op : ℕ) (table : List (ℕ × Arm))
      → All (λ (e : ℕ × Arm). Keeps R e.1) table
      → Keeps R (arm_or_ranged keccak env code op (lookup op table))
  on_lookup op [] h = (on_ranged keccak env code R k) op
  on_lookup op ((j, arm) ∷ table) h = elim (Bool-cases (j == op)) [
    | inl e ↦ rw e h.0
    | inr e ↦ rw e (on_lookup op table h.1)
  ]

  on_instruction : (op : ℕ) → Keeps R (instruction keccak env code op)
  unfolding instruction
  on_instruction op =
      let P : ℕ × Arm → Type 0 = λ e. Keeps R e.1 in
      let calls = call_arms keccak env code in
      let flow = flow_arms keccak env code in
      let memory = memory_arms keccak env code in
      let environment = environment_arms keccak env code in
      on_lookup op (arms keccak env code) (
        All-append P arithmetic_arms (environment ++ (memory ++ (flow ++ calls)))
          (on_arithmetic keccak env code R k)
          (All-append P environment (memory ++ (flow ++ calls)) (on_environment keccak env code R k)
            (All-append P memory (flow ++ calls) (on_memory keccak env code R k) (
              All-append P flow calls (on_flow keccak env code R k)
                (on_calls keccak env code R k)))))

  pub step_kept : Keeps R (step keccak env code)
  unfolding step
  step_kept = record {
    lands = λ m.
        (on_bind_flow keccak env code R k) m (instruction keccak env code (get_or code m.pc 0) m)
          (set_pc keccak env code) ((on_instruction (get_or code m.pc 0)).lands m)
          (λ next. k.on_pc next);
  }

  lands_if :
      (m : Machine) (b : Bool) (f g : Flow Unit)
      → Lands (R m) f
      → Lands (R m) g
      → Lands (R m) (if b then f else g)
  lands_if m true f g h l = h
  lands_if m false f g h l = l

  lands_elim :
      (m : Machine) (b : Bool) (f g : Flow Unit)
      → Lands (R m) f
      → Lands (R m) g
      → Lands (R m) (elim b [ true ↦ f | false ↦ g ])
  lands_elim m true f g h l = h
  lands_elim m false f g h l = l

  pub run_lands : (left : ℕ) (m : Machine) → Lands (R m) (run keccak env code left m)
  unfolding run
  run_lands zero m =
      lands_if m (ltb m.pc (length code)) (Flow.halt (CallResult.abort Reason.step_limit) m)
        (Flow.halt (CallResult.ok []) m) (k.chain.here m) (k.chain.here m)
  run_lands (suc left) m =
      lands_elim m (ltb m.pc (length code))
        (bind_flow (step keccak env code m) (λ _. run keccak env code left))
        (Flow.halt (CallResult.ok []) m)
        ((on_bind_flow keccak env code R k) m (step keccak env code m)
          (λ _. run keccak env code left) (step_kept.lands m)
          (λ u. record { lands = run_lands left }))
        (k.chain.here m)
