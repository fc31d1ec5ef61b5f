-- ===== src/Runtime/Evm/Keeps.antt =====
-- What every instruction of crates/covenant-evm-runtime/src/evm.rs keeps of the machine: a relation of
-- the machine before and after that the primitive operations keep is kept by each arm, by a round of
-- the loop, and by the loop, whether it halts or goes on.
pub mod Arms
pub mod Run
pub mod Guarded
use covenant_language.Base.{
  ℕ, zero, suc, ◌-◌, ◌≡◌, Bool, true, false, Option, some, none, List, [], ◌∷◌, ◌++◌, All,
  All-append, Bool-cases, Option-cases, List-cases, leb, ◌+◌, inl, inr, lookup, ◌==◌, ltb, length,
  get_or, get_elem?, if◌then◌else◌,
}
use covenant_language.Runtime.Bytes.{slice}
use covenant_language.Runtime.U256.{U256, is_zero, zero_word}
use covenant_language.Runtime.U256.Bits.{less}
use covenant_language.Runtime.Evm.{
  or_default, find_address, Reason, AddressMap, memory_expand, CallResult, CallEnv, Machine, Flow,
  Op, Next, pure, ◌>>=◌, bind_flow, stop, gets, pop, push, pop_usize, expand, read_memory,
  write_memory, set_returned, or_panic,
}
use covenant_language.Runtime.Evm.Arms.{
  Arm, binary, unary, arithmetic_arms, dup_arm, swap, swap_arm, push_arm, pop_topics, transfer,
}
use covenant_language.Runtime.Evm.Step.{
  environment_arms, memory_arms, flow_arms, call_arms, arms, ranged, arm_or_ranged, instruction,
  step, run, sstore_arm, log_arm, codecopy_arm, mstore_arm, run_precompile, set_pc, unsupported_arm,
  call_memory, precompile_call, transfer_call, inert_call, jump_to,
}

abbrev pub Lands : {A : Type 0} → (Machine → Type 0) → Flow A → Type 0
Lands P (Flow.go a m) = P m
Lands P (Flow.halt r m) = P m
Lands P Flow.panic = Unit

pub record Keeps {A : Type 0} (R : Machine → Machine → Type 0) (op : Op A) : Type 0 where
  pub lands : (m : Machine) → Lands (R m) (op m)

-- A relation that can be chained along the steps of an operation.
pub record IsChain (R : Machine → Machine → Type 0) : Type 0 where
  pub here : (m : Machine) → R m m
  pub onward : (l m n : Machine) → R l m → R m n → R l n

module _ (R : Machine → Machine → Type 0) (k : IsChain R) where
  after : {A : Type 0} (l m : Machine) (f : Flow A) → R l m → Lands (R m) f → Lands (R l) f
  after l m (Flow.go a n) h g = k.onward l m n h g
  after l m (Flow.halt r n) h g = k.onward l m n h g
  after l m Flow.panic h g = tt

  pub bind_flow_keeps :
      {A B : Type 0} (m : Machine) (f : Flow A) (op : A → Op B)
      → Lands (R m) f
      → ((a : A) → Keeps R (op a))
      → Lands (R m) (bind_flow f op)
  bind_flow_keeps m (Flow.go a n) op h g = after m n (op a n) h ((g a).lands n)
  bind_flow_keeps m (Flow.halt r n) op h g = h
  bind_flow_keeps m Flow.panic op h g = tt

  pub bind-Keeps :
      {A B : Type 0} {op : Op A} {next : A → Op B}
      → Keeps R op
      → ((a : A) → Keeps R (next a))
      → Keeps R (op >>= next)
  unfolding ◌>>=◌
  bind-Keeps {op = op} {next = next} h g = record {
    lands = λ m. bind_flow_keeps m (op m) next (h.lands m) g;
  }

  pub pure-Keeps : {A : Type 0} (a : A) → Keeps R (pure a)
  unfolding pure
  pure-Keeps a = record { lands = λ m. k.here m }

  pub gets-Keeps : {A : Type 0} (f : Machine → A) → Keeps R (gets f)
  unfolding gets
  gets-Keeps f = record { lands = λ m. k.here m }

  pub stop-Keeps : {A : Type 0} (r : CallResult) → Keeps R (stop {A = A} r)
  unfolding stop
  stop-Keeps r = record { lands = λ m. k.here m }

  pub if-Keeps :
      {A : Type 0} (b : Bool) {x y : Op A} → Keeps R x → Keeps R y → Keeps R (if b then x else y)
  if-Keeps true h g = h
  if-Keeps false h g = g

  pub read-Keeps : (offset len : ℕ) → Keeps R (read_memory offset len)
  unfolding read_memory
  read-Keeps offset len = record {
    lands = λ m. elim (Option-cases (slice m.memory offset len)) [
      | inl e ↦ rw (e, Lands) tt
      | inr e ↦ rw (e.1, Lands) (k.here m)
    ];
  }

  module _ (popped : Keeps R pop) where
    pub pop_usize-Keeps : Keeps R pop_usize
    pop_usize-Keeps = bind-Keeps popped (λ w. pure-Keeps _)

    pub pop_topics-Keeps : (n : ℕ) → Keeps R (pop_topics n)
    pop_topics-Keeps zero = pure-Keeps _
    pop_topics-Keeps (suc n) =
        bind-Keeps popped (λ w. bind-Keeps (pop_topics-Keeps n) (λ ts. pure-Keeps _))

-- Where a primitive operation lands.
module _ (P : Machine → Type 0) where
  pub lands_pop :
      (m : Machine)
      → P m
      → ((v : U256) (vs : List U256) → m.stack ≡ v ∷ vs → P (record m { stack = vs }))
      → Lands P (pop m)
  unfolding pop
  lands_pop m h g = elim (List-cases m.stack) [
    | inl e ↦ rw (e, Lands) h
    | inr (v, vs, e) ↦ rw (e, Lands) (g v vs e)
  ]

  pub lands_push :
      (m : Machine) (v : U256)
      → P m
      → (leb 1024 (length m.stack) ≡ false → P (record m { stack = v ∷ m.stack }))
      → Lands P (push v m)
  unfolding push
  lands_push m v h g = elim (Bool-cases (leb 1024 (length m.stack))) [
    | inl e ↦ rw (e, Lands) h
    | inr e ↦ rw (e, Lands) (g e)
  ]

  pub lands_dup :
      (m : Machine) (n : ℕ)
      → P m
      → ((v : U256) → leb 1024 (length m.stack) ≡ false → P (record m { stack = v ∷ m.stack }))
      → Lands P (dup_arm n m)
  unfolding dup_arm
  lands_dup m n h g = elim (Bool-cases (ltb (length m.stack) n)) [
    | inl e ↦ rw (e, Lands) h
    | inr e ↦ rw (e, Lands) (lands_push m _ h (g _))
  ]

  pub lands_swap :
      (m : Machine) (n : ℕ) → P m → P (record m { stack = swap n m.stack }) → Lands P (swap_arm n m)
  unfolding swap_arm
  lands_swap m n h g = elim (Bool-cases (ltb (length m.stack) (n + 1))) [
    | inl e ↦ rw (e, Lands) h
    | inr e ↦ rw (e, Lands) g
  ]

  pub lands_expand :
      (m : Machine) (offset len : ℕ)
      → ((mem : List ℕ)
          → memory_expand m.memory offset len ≡ some mem
          → P (record m { memory = mem }))
      → Lands P (expand offset len m)
  unfolding expand
  lands_expand m offset len g = elim (Option-cases (memory_expand m.memory offset len)) [
    | inl e ↦ rw (e, Lands) tt
    | inr (mem, e) ↦ rw (e, Lands) (g mem e)
  ]

  pub lands_transfer :
      (env : CallEnv) (m : Machine) (a v : U256)
      → P m
      → ((b : AddressMap U256) → P (record m { host = record (m.host) { balances = b } }))
      → Lands P (transfer env a v m)
  unfolding transfer
  lands_transfer env m a v h g =
      let cur = or_default (find_address env.address m.host.balances) zero_word in
      elim (Bool-cases (is_zero v)) [
        | inl z ↦ rw (z, Lands) h
        | inr z ↦ elim (Bool-cases (less cur v)) [
          | inl l ↦ rw (z, l, Lands) h
          | inr l ↦ rw (z, l, Lands) (g _)
        ]
      ]
