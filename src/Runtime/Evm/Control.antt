-- ===== src/Runtime/Evm/Control.antt =====
-- Where control goes in crates/covenant-evm-runtime/src/evm.rs: no arm moves the `pc` itself, and each
-- says to fall through, to skip its immediate, or to jump to a destination of the set.
pub mod Tables
pub mod Reach
use covenant_language.Base.{
  ℕ, zero, suc, ◌+◌, ◌-◌, ◌≡◌, ◌⊎◌, refl, sym, ap, subst, ◌∙◌, Bool, true, false, not, Bool-cases,
  inl, inr, Option, some, none, List, [], ◌∷◌, ◌++◌, ◌==◌, All, All-append, leb, ltb, contains,
  lookup, length, get_or, if◌then◌else◌,
}
use covenant_language.Runtime.U256.{U256, is_zero}
use covenant_language.Runtime.Evm.{
  Reason, CallResult, CallEnv, Machine, Flow, Op, Next, pure, ◌>>=◌, bind_flow, stop, gets, pop,
  push, pop_usize, expand, read_memory, write_memory, set_returned,
}
use covenant_language.Runtime.Evm.Arms.{
  Arm, binary, unary, arithmetic_arms, dup_arm, swap_arm, push_arm, pop_topics, transfer, immediate,
}
use covenant_language.Runtime.Evm.Step.{
  environment_arms, memory_arms, flow_arms, call_arms, arms, ranged, arm_or_ranged, instruction,
  sstore_arm, store_slot, log_arm, push_log, run_precompile, unsupported_arm, call_memory,
  precompile_call, transfer_call, inert_call, jump_to,
}
use covenant_language.Runtime.Evm.Jumpdests.{is_push, scan_width, compute_jumpdests}
use covenant_language.Runtime.Evm.Keeps.{
  Lands, Keeps, IsChain, bind-Keeps, pure-Keeps, gets-Keeps, pop_usize-Keeps, pop_topics-Keeps,
  read-Keeps, lands_pop, lands_push, lands_dup, lands_swap, lands_expand, lands_transfer,
}

unfoldable pub SamePc : Machine → Machine → Type 0
SamePc m n = n.pc ≡ m.pc

pub pc_chain : IsChain SamePc
unfolding SamePc
pc_chain = record { here = λ m. refl; onward = λ l m n h g. g ∙ h }

pub pc_pop : Keeps SamePc pop
unfolding SamePc
pc_pop = record { lands = λ m. lands_pop (SamePc m) m refl (λ v vs e. refl) }

pub pc_push : (v : U256) → Keeps SamePc (push v)
unfolding SamePc
pc_push v = record { lands = λ m. lands_push (SamePc m) m v refl (λ e. refl) }

pub pc_expand : (offset len : ℕ) → Keeps SamePc (expand offset len)
unfolding SamePc
pc_expand offset len = record { lands = λ m. lands_expand (SamePc m) m offset len (λ mem e. refl) }

pub pc_write : (offset : ℕ) (bs : List ℕ) → Keeps SamePc (write_memory offset bs)
unfolding SamePc write_memory
pc_write offset bs = record { lands = λ m. refl }

pub pc_returned : (n : ℕ) → Keeps SamePc (set_returned n)
unfolding SamePc set_returned
pc_returned n = record { lands = λ m. refl }

pub pc_usize : Keeps SamePc pop_usize
pc_usize = pop_usize-Keeps SamePc pc_chain pc_pop

pub pc_read : (offset len : ℕ) → Keeps SamePc (read_memory offset len)
pc_read = read-Keeps SamePc pc_chain

module _ (keccak : List ℕ → List ℕ) (env : CallEnv) (code : List ℕ) where
  -- Where an arm may send control from `pc`.
  abbrev pub IsOrdinary : ℕ → Next → Type 0
  IsOrdinary pc Next.fall = Unit
  IsOrdinary pc (Next.goto d) = (d ≡ pc + 1) ⊎ (contains d (compute_jumpdests code) ≡ true)

  abbrev pub Goes : (Next → Type 0) → ℕ → Flow Next → Type 0
  Goes P pc (Flow.go next m) = P next × (m.pc ≡ pc)
  Goes P pc (Flow.halt r m) = Unit
  Goes P pc Flow.panic = Unit

  pub record IsOrderly (arm : Arm) : Type 0 where
    pub goes : (m : Machine) → Goes (IsOrdinary m.pc) m.pc (arm m)

  go_on :
      {A : Type 0} (m : Machine) (f : Flow A) (op : A → Arm)
      → Lands (SamePc m) f
      → ((a : A) → IsOrderly (op a))
      → Goes (IsOrdinary m.pc) m.pc (bind_flow f op)
  unfolding SamePc
  go_on m (Flow.go a n) op h g = subst (λ pc. Goes (IsOrdinary pc) pc (op a n)) h ((g a).goes n)
  go_on m (Flow.halt r n) op h g = tt
  go_on m Flow.panic op h g = tt

  pub before :
      {A : Type 0} {op : Op A} {next : A → Arm}
      → Keeps SamePc op
      → ((a : A) → IsOrderly (next a))
      → IsOrderly (op >>= next)
  unfolding ◌>>=◌
  before {op = op} {next = next} h g = record { goes = λ m. go_on m (op m) next (h.lands m) g }

  pub falls : IsOrderly (pure Next.fall)
  unfolding pure
  falls = record { goes = λ m. (tt, refl) }

  pub halts : (r : CallResult) → IsOrderly (stop r)
  unfolding stop
  halts r = record { goes = λ m. tt }

  pub either : (b : Bool) {x y : Arm} → IsOrderly x → IsOrderly y → IsOrderly (if b then x else y)
  either true h g = h
  either false h g = g

  pub pushes : (v : U256) → IsOrderly (push v)
  unfolding push
  pushes v = record {
    goes = λ m. elim (Bool-cases (leb 1024 (length m.stack))) [
      | inl e ↦ rw (e, Goes) tt
      | inr e ↦ rw (e, Goes) (tt, refl)
    ];
  }

  pub pushes_usual : (f : U256 → U256 → U256) → IsOrderly (binary f)
  pushes_usual f = before pc_pop (λ a. before pc_pop (λ b. pushes _))

  pub pushes_one : (f : U256 → U256) → IsOrderly (unary f)
  pushes_one f = before pc_pop (λ a. pushes _)

  pub jumps : (reason : ℕ → Reason) (d : ℕ) → IsOrderly (jump_to keccak env code reason d)
  unfolding pure stop
  jumps reason d = record {
    goes = λ m. elim (Bool-cases (contains d (compute_jumpdests code))) [
      | inl e ↦ rw (e, Goes) (inr e, refl)
      | inr e ↦ rw (e, Goes) tt
    ];
  }

  pub sliced :
      {next : List ℕ → Arm} (offset len : ℕ)
      → ((bs : List ℕ) → IsOrderly (next bs))
      → IsOrderly (expand offset len >>= λ _. read_memory offset len >>= next)
  sliced offset len h = before (pc_expand offset len) (λ u. before (pc_read offset len) h)
