-- ===== src/Runtime/Evm/Control/Reach.antt =====
-- The machines that a call of crates/covenant-evm-runtime/src/evm.rs goes through.
use covenant_language.Base.{
  ℕ, ◌+◌, ◌-◌, ◌≤◌, ◌<◌, ◌≡◌, ◌⊎◌, refl, sym, ap, subst, ◌∙◌, true, false, Bool-cases, inl, inr,
  List, [], ◌∷◌, ◌++◌, ◌==◌, ==_iff, All, All-append, leb, ltb, contains, lookup, length, get_or,
  arith,
}
use covenant_language.Runtime.Evm.{
  CallEnv, HostState, Machine, Flow, Next, push, bind_flow, pure, gets, ◌>>=◌,
}
use covenant_language.Runtime.Precompiles.{MockPrecompileState}
use covenant_language.Runtime.Evm.Arms.{Arm, arithmetic_arms, dup_arm, swap_arm, push_arm}
use covenant_language.Runtime.Evm.Step.{
  environment_arms, memory_arms, flow_arms, call_arms, arms, ranged, arm_or_ranged, instruction,
  log_arm, push_log, unsupported_arm, next_pc, set_pc, step, start,
}
use covenant_language.Runtime.Evm.Jumpdests.{
  is_push, scan_width, compute_jumpdests, Begins, Begins-trans, compute_jumpdests_iff,
}
use covenant_language.Runtime.Evm.Keeps.{Lands, pop_topics-Keeps}
use covenant_language.Runtime.Evm.Keeps.Run.{step_kept}
use covenant_language.Runtime.Evm.Stack.{StackKept, stack_kept}
use covenant_language.Runtime.Evm.Control.{
  SamePc, pc_chain, pc_pop, pc_usize, pc_expand, pc_read, IsOrdinary, Goes, IsOrderly, before,
  halts, either, pushes,
}
use covenant_language.Runtime.Evm.Control.Tables.{
  IsEntry, arithmetic_entries, environment_entries, memory_entries, flow_entries, call_entries,
}

module _ (keccak : List ℕ → List ℕ) (env : CallEnv) (code : List ℕ) where
  -- From an instruction `op`, control goes to the one after it, or to a destination of the set.
  abbrev IsSoundNext : ℕ → ℕ → Next → Type 0
  IsSoundNext op pc next =
      (next_pc keccak env code pc next ≡ pc + scan_width op)
      ⊎ (contains (next_pc keccak env code pc next) (compute_jumpdests code) ≡ true)

  record IsSound (op : ℕ) (arm : Arm) : Type 0 where
    pub goes : (m : Machine) → Goes keccak env code (IsSoundNext op m.pc) m.pc (arm m)

  next_sound :
      (op pc : ℕ) (next : Next)
      → is_push op ≡ false
      → IsOrdinary keccak env code pc next
      → IsSoundNext op pc next
  unfolding scan_width
  next_sound op pc Next.fall e o = inl (rw e refl)
  next_sound op pc (Next.goto d) e (inl s) = inl (rw e s)
  next_sound op pc (Next.goto d) e (inr c) = inr c

  flow_sound :
      (op pc : ℕ) (f : Flow Next)
      → is_push op ≡ false
      → Goes keccak env code (IsOrdinary keccak env code pc) pc f
      → Goes keccak env code (IsSoundNext op pc) pc f
  flow_sound op pc (Flow.go next m) e g = (next_sound op pc next e g.0, g.1)
  flow_sound op pc (Flow.halt r m) e g = tt
  flow_sound op pc Flow.panic e g = tt

  orderly-IsSound :
      (op : ℕ) (arm : Arm) → is_push op ≡ false → IsOrderly keccak env code arm → IsSound op arm
  orderly-IsSound op arm e o = record { goes = λ m. flow_sound op m.pc (arm m) e (o.goes m) }

  push-IsSound : (op : ℕ) → is_push op ≡ true → IsSound op (push_arm code (op - 0x60 + 1))
  unfolding push pure gets ◌>>=◌ scan_width
  push-IsSound op e = record {
    goes = λ m. elim (Bool-cases (leb 1024 (length m.stack))) [
      | inl full ↦ rw (full, Goes) tt
      | inr room ↦ rw (room, e, Goes) (inl refl, refl)
    ];
  }

  dup_orderly : (n : ℕ) → IsOrderly keccak env code (dup_arm n)
  unfolding dup_arm
  dup_orderly n = record {
    goes = λ m. elim (Bool-cases (ltb (length m.stack) n)) [
      | inl e ↦ rw (e, Goes) tt
      | inr e ↦ rw (e, Goes) ((pushes keccak env code _).goes m)
    ];
  }

  swap_orderly : (n : ℕ) → IsOrderly keccak env code (swap_arm n)
  unfolding swap_arm
  swap_orderly n = record {
    goes = λ m. elim (Bool-cases (ltb (length m.stack) (n + 1))) [
      | inl e ↦ rw (e, Goes) tt
      | inr e ↦ rw (e, Goes) (tt, refl)
    ];
  }

  log_orderly : (n : ℕ) → IsOrderly keccak env code (log_arm keccak env code n)
  unfolding log_arm push_log
  log_orderly n = either keccak env code env.is_static (halts keccak env code _) (
      before keccak env code pc_usize (λ offset. before keccak env code pc_usize (λ len.
        before keccak env code (pop_topics-Keeps SamePc pc_chain pc_pop n) (λ ts.
          before keccak env code (pc_expand offset len) (λ u.
            before keccak env code (pc_read offset len)
              (λ bs. record { goes = λ m. (tt, refl) }))))))

  unsupported_orderly : (op : ℕ) → IsOrderly keccak env code (unsupported_arm keccak env code op)
  unfolding unsupported_arm
  unsupported_orderly op = record { goes = λ m. tt }

  ranged-IsSound : (op : ℕ) → IsSound op (ranged keccak env code op)
  ranged-IsSound op = elim (Bool-cases (is_push op)) [
    | inl e ↦ rw e (push-IsSound op e)
    | inr e ↦ rw e (
        orderly-IsSound op _ e (
          either keccak env code _ (dup_orderly _) (
            either keccak env code _ (swap_orderly _)
              (either keccak env code _ (log_orderly _) (unsupported_orderly op)))))
  ]

  lookup-IsSound :
      (op : ℕ) (table : List (ℕ × Arm))
      → All (IsEntry keccak env code) table
      → IsSound op (arm_or_ranged keccak env code op (lookup op table))
  lookup-IsSound op [] h = ranged-IsSound op
  lookup-IsSound op ((j, arm) ∷ table) h = elim (Bool-cases (j == op)) [
    | inl e ↦ rw e (orderly-IsSound op arm (ap is_push (sym ((==_iff j op).0 e)) ∙ h.0.0) h.0.1)
    | inr e ↦ rw e (lookup-IsSound op table h.1)
  ]

  instruction-IsSound : (op : ℕ) → IsSound op (instruction keccak env code op)
  unfolding instruction
  instruction-IsSound op =
      let P : ℕ × Arm → Type 0 = IsEntry keccak env code in
      let calls = call_arms keccak env code in
      let flow = flow_arms keccak env code in
      let memory = memory_arms keccak env code in
      let environment = environment_arms keccak env code in
      lookup-IsSound op (arms keccak env code) (
        All-append P arithmetic_arms (environment ++ (memory ++ (flow ++ calls)))
          (arithmetic_entries keccak env code)
          (All-append P environment (memory ++ (flow ++ calls))
            (environment_entries keccak env code)
            (All-append P memory (flow ++ calls) (memory_entries keccak env code) (
              All-append P flow calls (flow_entries keccak env code)
                (call_entries keccak env code)))))

  -- A machine at whose `pc` an instruction begins.
  abbrev IsAligned : Machine → Type 0
  IsAligned m = Begins code 0 m.pc

  pc_aligned :
      (m : Machine) (next : Next)
      → IsAligned m
      → m.pc < length code
      → IsSoundNext (get_or code m.pc 0) m.pc next
      → Begins code 0 (next_pc keccak env code m.pc next)
  pc_aligned m next b l (inl s) =
      subst (Begins code 0) (sym s) (Begins-trans code 0 m.pc _ b (Begins.later l Begins.at_once))
  pc_aligned m next b l (inr c) = ((compute_jumpdests_iff code _).0 c).0

  abbrev pc_of : Flow Unit → ℕ → ℕ
  pc_of (Flow.go a m) d = m.pc
  pc_of (Flow.halt r m) d = d
  pc_of Flow.panic d = d

  flow-IsAligned :
      (m n : Machine) (f : Flow Next)
      → IsAligned m
      → m.pc < length code
      → Goes keccak env code (IsSoundNext (get_or code m.pc 0) m.pc) m.pc f
      → bind_flow f (set_pc keccak env code) ≡ Flow.go tt n
      → IsAligned n
  flow-IsAligned m n (Flow.go next k) b l g e =
      let moved = ap (λ pc. next_pc keccak env code pc next) (sym g.1) ∙ ap (λ f. pc_of f 0) e in
      subst (Begins code 0) moved (pc_aligned m next b l g.0)
  flow-IsAligned m n (Flow.halt r k) b l g e = cc
  flow-IsAligned m n Flow.panic b l g e = cc

  -- The machines at the head of the loop, from the first one on.
  pub data Reaches (first : Machine) : Machine → Type 0 where
    begin : Reaches first first
    round :
        {m n : Machine}
        → Reaches first m
        → m.pc < length code
        → step keccak env code m ≡ Flow.go tt n
        → Reaches first n

  step-IsAligned :
      (m n : Machine)
      → IsAligned m
      → m.pc < length code
      → step keccak env code m ≡ Flow.go tt n
      → IsAligned n
  unfolding step
  step-IsAligned m n b l e =
      flow-IsAligned m n (instruction keccak env code (get_or code m.pc 0) m) b l
        ((instruction-IsSound (get_or code m.pc 0)).goes m) e

-- At the head of the loop the `pc` always stands where an instruction begins when the code is read
-- from its start: the data of a push is never executed.
pub Reaches-Begins :
    (keccak : List ℕ → List ℕ) (env : CallEnv) (code : List ℕ) (h : HostState)
    (p : MockPrecompileState) (m : Machine)
    → Reaches keccak env code (start keccak env code h p) m
    → Begins code 0 m.pc
Reaches-Begins keccak env code h p m Reaches.begin = Begins.at_once
Reaches-Begins keccak env code h p n (Reaches.round {m = m} r l e) =
    step-IsAligned keccak env code m n (Reaches-Begins keccak env code h p m r) l e

stack_after :
    (m n : Machine) (f : Flow Unit)
    → Lands (StackKept m) f
    → f ≡ Flow.go tt n
    → length m.stack ≤ 1024
    → length n.stack ≤ 1024
unfolding StackKept
stack_after m n (Flow.go a k) l e b =
    let depth : Flow Unit → ℕ = λ f. elim f [ Flow.go _ x ↦ length x.stack | _ ↦ 0 ] in
    omega (arith, l b, ap depth e)
stack_after m n (Flow.halt r k) l e b = cc
stack_after m n Flow.panic l e b = cc

-- At the head of the loop the stack never holds more than 1024 words.
pub Reaches-stack :
    (keccak : List ℕ → List ℕ) (env : CallEnv) (code : List ℕ) (h : HostState)
    (p : MockPrecompileState) (m : Machine)
    → Reaches keccak env code (start keccak env code h p) m
    → length m.stack ≤ 1024
Reaches-stack keccak env code h p m Reaches.begin = omega arith
Reaches-stack keccak env code h p n (Reaches.round {m = m} r l e) =
    stack_after m n (step keccak env code m)
      ((step_kept keccak env code StackKept (stack_kept keccak env code)).lands m) e
      (Reaches-stack keccak env code h p m r)
