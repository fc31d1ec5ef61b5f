-- ===== src/Runtime/Evm/Witnesses.antt =====
-- Instances of the laws of crates/covenant-evm-runtime/src/evm.rs.
use covenant_language.Base.{
  ℕ, ◌≤◌, ◌<◌, ◌≡◌, ◌↔◌, refl, true, false, some, List, [], ◌∷◌, contains, length, get_or, arith,
}
use covenant_language.Runtime.Bytes.{window}
use covenant_language.Runtime.Address.{from_low_u64}
use covenant_language.Runtime.U256.{zero_word, one_word, from_u64}
use covenant_language.Runtime.U256.Bits.{from_be_bytes}
use covenant_language.Runtime.Evm.{
  Reason, CallEnv, CallResult, HostState, Machine, default_host, push, pop, sload, sstore, ◌>>=◌,
  pure, stop, gets,
}
use covenant_language.Runtime.Evm.Jumpdests.{Begins, compute_jumpdests, compute_jumpdests_iff}
use covenant_language.Runtime.Evm.Step.{
  execute, run, step, start, instruction, sstore_arm, store_slot,
}
use covenant_language.Runtime.Evm.Host.{execute-static, execute-sload}
use covenant_language.Runtime.Evm.Control.Reach.{Reaches, Reaches-Begins, Reaches-stack}
use covenant_language.Runtime.Precompiles.{default_state}

abbrev no_hash : List ℕ → List ℕ
no_hash bs = window 32 []

abbrev env_at : CallEnv
env_at = record {
  caller = from_low_u64 1;
  address = from_low_u64 2;
  value = zero_word;
  input = 1 ∷ 2 ∷ 3 ∷ [];
  timestamp = 0;
  block_number = 0;
  chain_id = 1;
  is_static = false;
}

abbrev static_env : CallEnv
static_env = record env_at { is_static = true }

-- PUSH1 7, PUSH1 5, SSTORE, STOP: slot five becomes seven.
abbrev store_code : List ℕ
store_code = 0x60 ∷ 7 ∷ 0x60 ∷ 5 ∷ 0x55 ∷ 0x00 ∷ []

abbrev stored_host : HostState
stored_host = sstore default_host (from_low_u64 2) (from_u64 5) (from_u64 7)

store_run :
    execute no_hash store_code env_at default_host default_state
    ≡ some (CallResult.ok [], stored_host, default_state)
unfolding execute run step instruction ◌>>=◌ gets push pure sstore_arm pop store_slot stop from_u64
    from_be_bytes
store_run = refl

execute-sload_example :
    (sload stored_host (from_low_u64 9) one_word ≡ sload default_host (from_low_u64 9) one_word)
    × (stored_host.code ≡ default_host.code)
unfolding from_low_u64
execute-sload_example =
    execute-sload no_hash store_code env_at default_host default_state (CallResult.ok [])
      stored_host default_state (from_low_u64 9) one_word refl store_run

-- The same code in a static context aborts.
static_run :
    execute no_hash store_code static_env default_host default_state
    ≡ some (CallResult.abort Reason.static_sstore, default_host, default_state)
unfolding execute run step instruction ◌>>=◌ gets push pure sstore_arm pop store_slot stop from_u64
    from_be_bytes
static_run = refl

execute-static_example :
    (default_host.storage ≡ default_host.storage)
    × (default_host.code ≡ default_host.code)
    × (default_host.logs ≡ default_host.logs)
execute-static_example =
    execute-static no_hash store_code static_env default_host default_state
      (CallResult.abort Reason.static_sstore) default_host default_state refl static_run

abbrev pushed : Machine
pushed = record (start no_hash env_at store_code default_host default_state) {
  stack = from_u64 7 ∷ [];
  pc = 2;
}

pushed-Reaches :
    Reaches no_hash env_at store_code
      (start no_hash env_at store_code default_host default_state)
      pushed
unfolding execute run step instruction ◌>>=◌ gets push pure sstore_arm pop store_slot stop from_u64
    from_be_bytes
pushed-Reaches = Reaches.round Reaches.begin (omega arith) refl

Reaches-Begins_example : Begins store_code 0 pushed.pc
Reaches-Begins_example =
    Reaches-Begins no_hash env_at store_code default_host default_state pushed pushed-Reaches

Reaches-stack_example : length pushed.stack ≤ 1024
Reaches-stack_example =
    Reaches-stack no_hash env_at store_code default_host default_state pushed pushed-Reaches

-- The second byte is a JUMPDEST by value and the data of a push; the third is a destination.
abbrev jump_code : List ℕ
jump_code = 0x60 ∷ 0x5b ∷ 0x5b ∷ []

compute_jumpdests_iff_example :
    (contains 2 (compute_jumpdests jump_code) ≡ true)
    ↔ (Begins jump_code 0 2 × (2 < length jump_code) × (get_or jump_code 2 0 ≡ 0x5b))
compute_jumpdests_iff_example = compute_jumpdests_iff jump_code 2
