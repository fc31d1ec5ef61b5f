-- ===== src/Runtime/Evm/Keeps/Arms.antt =====
-- The arms of crates/covenant-evm-runtime/src/evm.rs keep what the primitive operations keep.
use covenant_language.Base.{ℕ, Bool, List, All, if◌then◌else◌}
use covenant_language.Runtime.U256.{U256}
use covenant_language.Runtime.Evm.{
  Reason, CallResult, CallEnv, Machine, Flow, Op, Next, pure, ◌>>=◌, bind_flow, stop, gets, pop,
  push, pop_usize, expand, read_memory, write_memory, set_returned,
}
use covenant_language.Runtime.Evm.Arms.{
  Arm, binary, unary, arithmetic_arms, dup_arm, swap_arm, push_arm, transfer,
}
use covenant_language.Runtime.Evm.Step.{
  environment_arms, memory_arms, flow_arms, call_arms, ranged, sstore_arm, log_arm, codecopy_arm,
  mstore_arm, run_precompile, set_pc, unsupported_arm, call_memory, precompile_call, transfer_call,
  inert_call, jump_to,
}
use covenant_language.Runtime.Evm.Keeps.{
  Lands, Keeps, IsChain, bind_flow_keeps, bind-Keeps, pure-Keeps, gets-Keeps, stop-Keeps, if-Keeps,
  pop_usize-Keeps, read-Keeps,
}

-- A relation that the primitive operations keep.
pub record IsKept (keccak : List ℕ → List ℕ) (env : CallEnv) (code : List ℕ)
    (R : Machine → Machine → Type 0) : Type 0 where
  pub chain : IsChain R
  pub on_pop : Keeps R pop
  pub on_push : (v : U256) → Keeps R (push v)
  pub on_dup : (n : ℕ) → Keeps R (dup_arm n)
  pub on_swap : (n : ℕ) → Keeps R (swap_arm n)
  pub on_expand : (offset len : ℕ) → Keeps R (expand offset len)
  pub on_write : (offset : ℕ) (bs : List ℕ) → Keeps R (write_memory offset bs)
  pub on_returned : (n : ℕ) → Keeps R (set_returned n)
  pub on_sstore : Keeps R (sstore_arm keccak env code)
  pub on_log : (n : ℕ) → Keeps R (log_arm keccak env code n)
  pub on_transfer : (addr_w value : U256) → Keeps R (transfer env addr_w value)
  pub on_precompile : (a : ℕ) (bs : List ℕ) → Keeps R (run_precompile keccak env code a bs)
  pub on_pc : (next : Next) → Keeps R (set_pc keccak env code next)

module _ (keccak : List ℕ → List ℕ) (env : CallEnv) (code : List ℕ) (R : Machine → Machine → Type 0)
    (k : IsKept keccak env code R) where
  pub on_bind_flow :
      {A B : Type 0} (m : Machine) (f : Flow A) (op : A → Op B)
      → Lands (R m) f
      → ((a : A) → Keeps R (op a))
      → Lands (R m) (bind_flow f op)
  on_bind_flow = bind_flow_keeps R k.chain

  on_bind :
      {A B : Type 0} {op : Op A} {next : A → Op B}
      → Keeps R op
      → ((a : A) → Keeps R (next a))
      → Keeps R (op >>= next)
  on_bind = bind-Keeps R k.chain

  on_pure : {A : Type 0} (a : A) → Keeps R (pure a)
  on_pure = pure-Keeps R k.chain

  on_gets : {A : Type 0} (f : Machine → A) → Keeps R (gets f)
  on_gets = gets-Keeps R k.chain

  on_stop : {A : Type 0} (r : CallResult) → Keeps R (stop {A = A} r)
  on_stop = stop-Keeps R k.chain

  on_if :
      {A : Type 0} (b : Bool) {x y : Op A} → Keeps R x → Keeps R y → Keeps R (if b then x else y)
  on_if = if-Keeps R k.chain

  on_pop_usize : Keeps R pop_usize
  on_pop_usize = pop_usize-Keeps R k.chain k.on_pop

  on_read : (offset len : ℕ) → Keeps R (read_memory offset len)
  on_read = read-Keeps R k.chain

  on_binary : (f : U256 → U256 → U256) → Keeps R (binary f)
  on_binary f = on_bind k.on_pop (λ a. on_bind k.on_pop (λ b. k.on_push _))

  on_unary : (f : U256 → U256) → Keeps R (unary f)
  on_unary f = on_bind k.on_pop (λ a. k.on_push _)

  pub on_arithmetic : All (λ (e : ℕ × Arm). Keeps R e.1) arithmetic_arms
  on_arithmetic = (
    on_binary _,
    (
      on_binary _,
      (
        on_binary _,
        (
          on_binary _,
          (
            on_binary _,
            (
              on_binary _,
              (
                on_binary _,
                (
                  on_binary _,
                  (
                    on_unary _,
                    (
                      on_binary _,
                      (on_binary _, (on_binary _, (on_unary _, (on_binary _, (on_binary _, tt))))),
                    ),
                  ),
                ),
              ),
            ),
          ),
        ),
      ),
    ),
  )

  -- Two offsets, an expansion and a read, as the arms have them.
  on_slice :
      {A : Type 0} {next : List ℕ → Op A}
      → ((bs : List ℕ) → Keeps R (next bs))
      → (offset len : ℕ) → Keeps R (expand offset len >>= λ _. read_memory offset len >>= next)
  on_slice h offset len = on_bind (k.on_expand offset len) (λ u. on_bind (on_read offset len) h)

  on_sliced :
      {A : Type 0} {next : List ℕ → Op A}
      → ((bs : List ℕ) → Keeps R (next bs))
      → Keeps R (
          pop_usize >>= λ offset.
          pop_usize >>= λ len. expand offset len >>= λ _. read_memory offset len >>= next)
  on_sliced h = on_bind on_pop_usize (λ offset. on_bind on_pop_usize (λ len. on_slice h offset len))

  on_codecopy : Keeps R (codecopy_arm keccak env code)
  on_codecopy = on_bind on_pop_usize (λ dest. on_bind on_pop_usize (λ offset.
      on_bind on_pop_usize (λ len.
        on_bind (k.on_expand dest len) (λ u. on_bind (k.on_write dest _) (λ v. (on_pure _))))))

  pub on_environment : All (λ (e : ℕ × Arm). Keeps R e.1) (environment_arms keccak env code)
  on_environment = (
    k.on_push _,
    (
      k.on_push _,
      (
        k.on_push _,
        (
          on_bind on_pop_usize (λ off. k.on_push _),
          (
            k.on_push _,
            (
              on_codecopy,
              (
                on_bind k.on_pop (λ w. on_bind (on_gets _) (λ host. k.on_push _)),
                (k.on_push _, (k.on_push _, (k.on_push _, tt))),
              ),
            ),
          ),
        ),
      ),
    ),
  )

  on_mstore : Keeps R (mstore_arm keccak env code)
  on_mstore = on_bind on_pop_usize (λ offset. on_bind k.on_pop (λ value.
      on_bind (k.on_expand offset 32) (λ u. on_bind (k.on_write offset _) (λ v. (on_pure _)))))

  pub on_memory : All (λ (e : ℕ × Arm). Keeps R e.1) (memory_arms keccak env code)
  on_memory = (
    on_sliced (λ bs. k.on_push _),
    (
      on_bind k.on_pop (λ w. (on_pure _)),
      (
        on_bind on_pop_usize (λ offset. on_slice (λ bs. k.on_push _) offset 32),
        (
          on_mstore,
          (
            on_bind k.on_pop (λ w. on_bind (on_gets _) (λ host. k.on_push _)),
            (k.on_sstore, (k.on_push _, (on_bind (on_gets _) (λ n. k.on_push _), tt))),
          ),
        ),
      ),
    ),
  )

  on_jump_to : (reason : ℕ → Reason) (d : ℕ) → Keeps R (jump_to keccak env code reason d)
  on_jump_to reason d = on_if _ (on_pure _) (on_stop _)

  pub on_flow : All (λ (e : ℕ × Arm). Keeps R e.1) (flow_arms keccak env code)
  on_flow = (
    (on_stop _),
    (
      on_bind on_pop_usize (λ d. on_jump_to Reason.invalid_jump d),
      (
        on_bind on_pop_usize
            (λ d. on_bind k.on_pop (λ c. on_if _ (on_jump_to Reason.invalid_jumpi d) (on_pure _))),
        (
          (on_pure _),
          (on_sliced (λ bs. (on_stop _)), (on_sliced (λ bs. (on_stop _)), ((on_stop _), tt))),
        ),
      ),
    ),
  )

  on_call_memory : Keeps R (call_memory keccak env code)
  on_call_memory = on_bind on_pop_usize (λ args_off. on_bind on_pop_usize (λ args_len.
      on_bind on_pop_usize (λ ret_off. on_bind on_pop_usize (λ ret_len.
        on_bind (k.on_expand args_off args_len) (λ u.
          on_bind (k.on_expand ret_off ret_len)
            (λ v. on_bind (on_read args_off args_len) (λ input. (on_pure _))))))))

  on_precompile_call :
      (a : ℕ) (bs : List ℕ) (off len : ℕ) → Keeps R (precompile_call keccak env code a bs off len)
  on_precompile_call a bs off len =
      on_bind (k.on_precompile a bs)
        (λ out. on_bind (k.on_write off _) (λ u. on_bind (k.on_returned _) (λ v. k.on_push _)))

  on_inert : Keeps R (inert_call keccak env code)
  on_inert = on_bind (k.on_returned 0) (λ u. k.on_push _)

  on_transfer_call : (a v : U256) → Keeps R (transfer_call keccak env code a v)
  on_transfer_call a v = on_bind (k.on_returned 0) (λ u. on_bind (k.on_transfer a v) (λ moved.
      on_bind (on_gets _) (λ pc. on_if _ (k.on_push _) (on_bind (k.on_push _) (λ w. (on_pure _))))))

  pub on_calls : All (λ (e : ℕ × Arm). Keeps R e.1) (call_arms keccak env code)
  on_calls = (
    on_bind k.on_pop (λ gas. on_bind k.on_pop (λ a. on_bind k.on_pop (λ v.
        on_bind on_call_memory
          (λ c. on_if _ (on_precompile_call _ c.0 c.1 c.2) (on_transfer_call a v))))),
    (
      on_bind k.on_pop (λ gas.
          on_bind k.on_pop (λ a.
            on_bind on_call_memory (λ c. on_if _ (on_precompile_call _ c.0 c.1 c.2) on_inert))),
      tt,
    ),
  )

  on_unsupported : (op : ℕ) → Keeps R (unsupported_arm keccak env code op)
  unfolding unsupported_arm
  on_unsupported op = record { lands = λ m. k.chain.here m }

  on_push_arm : (n : ℕ) → Keeps R (push_arm code n)
  on_push_arm n = on_bind (on_gets _) (λ pc. on_bind (k.on_push _) (λ u. (on_pure _)))

  pub on_ranged : (op : ℕ) → Keeps R (ranged keccak env code op)
  on_ranged op =
      on_if _ (on_push_arm _)
        (on_if _ (k.on_dup _) (on_if _ (k.on_swap _) (on_if _ (k.on_log _) (on_unsupported op))))
