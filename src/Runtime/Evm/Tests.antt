-- ===== src/Runtime/Evm/Tests.antt =====
-- Runs of crates/covenant-evm-runtime/src/evm.rs.
use covenant_language.Base.{ℕ, ◌≡◌, refl, false, none, some, List, [], ◌∷◌, ◌++◌}
use covenant_language.Runtime.Bytes.{window}
use covenant_language.Runtime.Address.{from_low_u64}
use covenant_language.Runtime.U256.{zero_word, wrapping_add}
use covenant_language.Runtime.U256.Bits.{as_usize_saturating, from_be_bytes, to_be_bytes}
use covenant_language.Runtime.Evm.{
  CallEnv, CallResult, default_host, push, pop, expand, memory_expand, write_memory, read_memory,
  ◌>>=◌, gets, pure, stop,
}
use covenant_language.Runtime.Evm.Step.{execute, run, step, instruction}
use covenant_language.Runtime.Precompiles.{default_state}

abbrev call_env : CallEnv
call_env = record {
  caller = from_low_u64 1;
  address = from_low_u64 2;
  value = zero_word;
  input = 1 ∷ 2 ∷ 3 ∷ [];
  timestamp = 0;
  block_number = 0;
  chain_id = 1;
  is_static = false;
}

abbrev no_hash : List ℕ → List ℕ
no_hash bs = window 32 []

-- The unit test `push_add_return` of the source.
abbrev push_add_return : List ℕ
push_add_return = 0x60 ∷ 2 ∷ 0x60 ∷ 3 ∷ 0x01 ∷ 0x60 ∷ 0 ∷ 0x52 ∷ 0x60 ∷ 32 ∷ 0x60 ∷ 0 ∷ 0xf3 ∷ []

push_add_return_run :
    execute no_hash push_add_return call_env default_host default_state
    ≡ some (CallResult.ok (window 31 [] ++ 5 ∷ []), default_host, default_state)
unfolding execute run step instruction push pop expand memory_expand as_usize_saturating
    from_be_bytes write_memory to_be_bytes read_memory wrapping_add ◌>>=◌ gets pure stop
push_add_return_run = refl

-- `return(1, 0)` panics: no memory is expanded for an empty slice that begins past its end.
empty_return_panics :
    execute no_hash (0x60 ∷ 0 ∷ 0x60 ∷ 1 ∷ 0xf3 ∷ []) call_env default_host default_state ≡ none
unfolding execute run step instruction push pop expand memory_expand as_usize_saturating
    from_be_bytes read_memory ◌>>=◌ gets pure
empty_return_panics = refl
