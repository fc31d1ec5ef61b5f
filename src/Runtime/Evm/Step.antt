-- ===== src/Runtime/Evm/Step.antt =====
-- The instructions of crates/covenant-evm-runtime/src/evm.rs. Each arm of the match is an operation of
-- the machine; the arms of single opcodes stand in tables, those of ranges in `ranged`. `keccak` is
-- the hash of the sha3 crate.
use covenant_language.Base.{
  ℕ, zero, suc, ◌+◌, ◌-◌, true, false, not, ◌&&◌, Option, none, some, List, [], ◌∷◌, ◌++◌, ltb, leb,
  contains, length, lookup, get_or, if◌then◌else◌,
}
use covenant_language.Runtime.Bytes.{wrapping_window}
use covenant_language.Runtime.Address.{to_u256, from_u256}
use covenant_language.Runtime.U256.{U256, zero_word, one_word, from_u64, is_zero}
use covenant_language.Runtime.U256.Bits.{to_be_bytes, from_be_bytes}
use covenant_language.Runtime.Precompiles.{MockPrecompileState, is_precompile, dispatch}
use covenant_language.Runtime.Evm.{
  Reason, CallResult, LogEvent, CallEnv, HostState, Machine, Flow, Op, Next, find_address,
  or_default, sload, sstore, pure, ◌>>=◌, bind_flow, stop, gets, pop, push, pop_usize, expand,
  read_memory, write_memory, set_returned,
}
use covenant_language.Runtime.Evm.Jumpdests.{is_push, compute_jumpdests}
use covenant_language.Runtime.Evm.Arms.{
  Arm, arithmetic_arms, dup_arm, swap_arm, push_arm, pop_topics, transfer, addr_low_u16,
  write_return,
}

module _ (keccak : List ℕ → List ℕ) (env : CallEnv) (code : List ℕ) where
  abbrev pub keccak_arm : Arm
  keccak_arm = do
    offset ← pop_usize
    len ← pop_usize
    _ ← expand offset len
    bs ← read_memory offset len
    push (from_be_bytes (keccak bs))

  abbrev pub calldataload_arm : Arm
  calldataload_arm = do off ← pop_usize; push (from_be_bytes (wrapping_window 32 off env.input))

  abbrev pub codecopy_arm : Arm
  codecopy_arm = do
    dest ← pop_usize
    offset ← pop_usize
    len ← pop_usize
    _ ← expand dest len
    _ ← write_memory dest (wrapping_window len offset code)
    pure Next.fall

  abbrev pub extcodesize_arm : Arm
  extcodesize_arm = do
    w ← pop
    host ← gets (λ m. m.host)
    push (from_u64 (length (or_default (find_address (from_u256 w) host.code) [])))

  abbrev pub environment_arms : List (ℕ × Arm)
  environment_arms =
      (0x30, push (to_u256 env.address))
      ∷ (0x33, push (to_u256 env.caller))
      ∷ (0x34, push env.value)
      ∷ (0x35, calldataload_arm)
      ∷ (0x36, push (from_u64 (length env.input)))
      ∷ (0x39, codecopy_arm)
      ∷ (0x3b, extcodesize_arm)
      ∷ (0x42, push (from_u64 env.timestamp))
      ∷ (0x43, push (from_u64 env.block_number))
      ∷ (0x46, push (from_u64 env.chain_id))
      ∷ []

  abbrev pub mload_arm : Arm
  mload_arm = do
    offset ← pop_usize
    _ ← expand offset 32
    bs ← read_memory offset 32
    push (from_be_bytes bs)

  abbrev pub mstore_arm : Arm
  mstore_arm = do
    offset ← pop_usize
    value ← pop
    _ ← expand offset 32
    _ ← write_memory offset (to_be_bytes value)
    pure Next.fall

  abbrev pub sload_arm : Arm
  sload_arm = do key ← pop; host ← gets (λ m. m.host); push (sload host env.address key)

  unfoldable pub store_slot : U256 → U256 → Op Next
  store_slot key val m = Flow.go Next.fall (record m { host = sstore m.host env.address key val })

  unfoldable pub sstore_arm : Arm
  sstore_arm =
      if env.is_static
      then stop (CallResult.abort Reason.static_sstore)
      else (do key ← pop; val ← pop; store_slot key val)

  abbrev pub memory_arms : List (ℕ × Arm)
  memory_arms =
      (0x20, keccak_arm)
      ∷ (0x50, (do _ ← pop; pure Next.fall))
      ∷ (0x51, mload_arm)
      ∷ (0x52, mstore_arm)
      ∷ (0x54, sload_arm)
      ∷ (0x55, sstore_arm)
      ∷ (0x5f, push zero_word)
      ∷ (0x3d, (do n ← gets (λ m. m.last_returndatasize); push (from_u64 n)))
      ∷ []

  -- A jump to `d`, where the source looks `d` up in the set that it computed.
  abbrev pub jump_to : (ℕ → Reason) → ℕ → Arm
  jump_to reason d =
      if contains d (compute_jumpdests code)
      then pure (Next.goto d)
      else stop (CallResult.abort (reason d))

  abbrev pub jump_arm : Arm
  jump_arm = do d ← pop_usize; jump_to Reason.invalid_jump d

  abbrev pub jumpi_arm : Arm
  jumpi_arm = do
    d ← pop_usize
    cond ← pop
    if not (is_zero cond) then jump_to Reason.invalid_jumpi d else pure Next.fall

  -- The data of RETURN and REVERT.
  abbrev pub ending_arm : (List ℕ → CallResult) → Arm
  ending_arm result = do
    offset ← pop_usize
    len ← pop_usize
    _ ← expand offset len
    bs ← read_memory offset len
    stop (result bs)

  abbrev pub flow_arms : List (ℕ × Arm)
  flow_arms =
      (0x00, stop (CallResult.ok []))
      ∷ (0x56, jump_arm)
      ∷ (0x57, jumpi_arm)
      ∷ (0x5b, pure Next.fall)
      ∷ (0xf3, ending_arm CallResult.ok)
      ∷ (0xfd, ending_arm CallResult.revert)
      ∷ (0xfe, stop (CallResult.revert []))
      ∷ []

  unfoldable pub push_log : List (List ℕ) → List ℕ → Op Next
  push_log topics bs m =
      let event : LogEvent = record { address = env.address; topics = topics; data_bytes = bs } in
      Flow.go Next.fall (record m { host = record (m.host) { logs = m.host.logs ++ event ∷ [] } })

  unfoldable pub log_arm : ℕ → Arm
  log_arm n = if env.is_static then stop (CallResult.abort Reason.static_log) else (do
    offset ← pop_usize
    len ← pop_usize
    topics ← pop_topics n
    _ ← expand offset len
    bs ← read_memory offset len
    push_log topics bs)

  -- A precompile's output in memory, and one on the stack.
  unfoldable pub run_precompile : ℕ → List ℕ → Op (List ℕ)
  run_precompile addr_low input m =
      let r = dispatch keccak addr_low input m.precompiles in
      Flow.go r.0 (record m { precompiles = r.1 })

  abbrev pub precompile_call : ℕ → List ℕ → ℕ → ℕ → Arm
  precompile_call addr_low input ret_off ret_len = do
    out ← run_precompile addr_low input
    _ ← write_return ret_off ret_len out
    _ ← set_returned (length out)
    push one_word

  -- The offsets and lengths of the input and the output, and the input.
  abbrev pub call_memory : Op (List ℕ × ℕ × ℕ)
  call_memory = do
    args_off ← pop_usize
    args_len ← pop_usize
    ret_off ← pop_usize
    ret_len ← pop_usize
    _ ← expand args_off args_len
    _ ← expand ret_off ret_len
    input ← read_memory args_off args_len
    pure (input, ret_off, ret_len)

  abbrev pub transfer_call : U256 → U256 → Arm
  transfer_call addr_w value = do
    _ ← set_returned 0
    moved ← transfer env addr_w value
    pc ← gets (λ m. m.pc)
    if moved then push one_word else (do _ ← push zero_word; pure (Next.goto (pc + 1)))

  abbrev pub call_arm : Arm
  call_arm = do
    _ ← pop
    addr_w ← pop
    value ← pop
    c ← call_memory
    if is_precompile (addr_low_u16 addr_w)
        then precompile_call (addr_low_u16 addr_w) c.0 c.1 c.2
        else transfer_call addr_w value

  abbrev pub inert_call : Arm
  inert_call = do _ ← set_returned 0; push one_word

  abbrev pub staticcall_arm : Arm
  staticcall_arm = do
    _ ← pop
    addr_w ← pop
    c ← call_memory
    if is_precompile (addr_low_u16 addr_w)
        then precompile_call (addr_low_u16 addr_w) c.0 c.1 c.2
        else inert_call

  abbrev pub call_arms : List (ℕ × Arm)
  call_arms = (0xf1, call_arm) ∷ (0xfa, staticcall_arm) ∷ []

  unfoldable pub unsupported_arm : ℕ → Arm
  unsupported_arm op m = Flow.halt (CallResult.abort (Reason.unsupported op m.pc)) m

  abbrev pub ranged : ℕ → Arm
  ranged op =
      if is_push op
      then push_arm code (op - 0x60 + 1)
      else if leb 0x80 op && leb op 0x8f
      then dup_arm (op - 0x80 + 1)
      else if leb 0x90 op && leb op 0x9f
      then swap_arm (op - 0x90 + 1)
      else if leb 0xa0 op && leb op 0xa4
      then log_arm (op - 0xa0)
      else unsupported_arm op

  abbrev pub arms : List (ℕ × Arm)
  arms = arithmetic_arms ++ (environment_arms ++ (memory_arms ++ (flow_arms ++ call_arms)))

  abbrev pub arm_or_ranged : ℕ → Option Arm → Arm
  arm_or_ranged op none = ranged op
  arm_or_ranged op (some arm) = arm

  unfoldable pub instruction : ℕ → Arm
  instruction op = arm_or_ranged op (lookup op arms)

  -- One round of the loop at a `pc` in the code.
  abbrev pub next_pc : ℕ → Next → ℕ
  next_pc pc Next.fall = pc + 1
  next_pc pc (Next.goto d) = d

  abbrev pub set_pc : Next → Op Unit
  set_pc next m = Flow.go tt (record m { pc = next_pc m.pc next })

  unfoldable pub step : Op Unit
  step m = bind_flow (instruction (get_or code m.pc 0) m) set_pc

  -- The loop, with the rounds left.
  unfoldable pub run : ℕ → Op Unit
  run zero m =
      if ltb m.pc (length code)
      then Flow.halt (CallResult.abort Reason.step_limit) m
      else Flow.halt (CallResult.ok []) m
  run (suc left) m = elim (ltb m.pc (length code)) [
    | true ↦ bind_flow (step m) (λ _. run left)
    | false ↦ Flow.halt (CallResult.ok []) m
  ]

  -- A whole call: its result with the host and the precompiles after it; `none` is a panic.
  abbrev pub outcome : Flow Unit → Option (CallResult × HostState × MockPrecompileState)
  outcome (Flow.go _ m) = none
  outcome (Flow.halt r m) = some (r, m.host, m.precompiles)
  outcome Flow.panic = none

  abbrev pub start : HostState → MockPrecompileState → Machine
  start host precompiles = record {
    stack = [];
    memory = [];
    pc = 0;
    last_returndatasize = 0;
    host = host;
    precompiles = precompiles;
  }

abbrev pub step_limit : ℕ
step_limit = 5000000

unfoldable pub execute :
    (List ℕ → List ℕ)
    → List ℕ
    → CallEnv
    → HostState
    → MockPrecompileState
    → Option (CallResult × HostState × MockPrecompileState)
execute keccak code env host precompiles =
    outcome keccak env code
      (run keccak env code step_limit (start keccak env code host precompiles))
