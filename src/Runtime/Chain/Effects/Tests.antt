-- ===== src/Runtime/Chain/Effects/Tests.antt =====
-- A call of crates/covenant-evm-runtime/src/chain.rs that stores, on a chain with one contract.
use covenant_language.Base.{ℕ, ◌≡◌, refl, Option, none, some, String, List, [], ◌∷◌}
use covenant_language.Runtime.Bytes.{window}
use covenant_language.Runtime.Address.{Address, from_low_u64}
use covenant_language.Runtime.U256.{zero_word}
use covenant_language.Runtime.Clock.{timestamp}
use covenant_language.Runtime.Precompiles.{default_state}
use covenant_language.Runtime.Evm.{stop}
use covenant_language.Runtime.Chain.{
  Contract, Chain, TxKind, TxStatus, TxReceipt, fixed_gas_estimate,
}
use covenant_language.Runtime.Chain.Calls.{call, finish_call, finalize_receipt}
use covenant_language.Runtime.Evm.Step.{execute, run, step, instruction}
use covenant_language.Runtime.Chain.Effects.{IsContained, call-IsContained}

abbrev no_hash : List ℕ → List ℕ
no_hash bs = window 32 []

abbrev no_hex : List ℕ → String
no_hex bs = "0x"

abbrev no_utf8 : List ℕ → Option String
no_utf8 bs = none

abbrev no_contract : Address → String
no_contract a = "no contract deployed"

-- STOP.
abbrev stopping : Contract
stopping = record {
  address = from_low_u64 2;
  deployer = from_low_u64 1;
  deploy_bytecode = [];
  runtime_bytecode = 0x00 ∷ [];
  storage = [];
  code_hash = [];
  deployed_at_block = 1;
  deployed_at_timestamp = 0;
  label = none;
}

abbrev one_contract : Chain
one_contract = record {
  contracts = (from_low_u64 2, stopping) ∷ [];
  accounts = [];
  clock = record { seconds_since_epoch = 0 };
  block_number = 1;
  tx_log = [];
  deploy_nonces = [];
  precompiles = default_state;
}

abbrev receipt : TxReceipt
receipt = record {
  hash = "0x";
  block_number = 1;
  timestamp = 0;
  sender = from_low_u64 1;
  recipient = some (from_low_u64 2);
  kind = TxKind.call_tx "0x" "0x";
  gas_used = fixed_gas_estimate;
  status = TxStatus.success;
  return_data = "0x";
  logs = [];
}

abbrev after_call : Chain
after_call = record one_contract {
  contracts = (from_low_u64 2, stopping) ∷ (from_low_u64 2, stopping) ∷ [];
  tx_log = receipt ∷ [];
}

call_run :
    call no_hash no_hex no_utf8 no_contract one_contract
      (from_low_u64 1)
      (from_low_u64 2)
      []
      zero_word
    ≡ some (receipt, after_call)
unfolding call from_low_u64 finish_call execute run step instruction stop finalize_receipt timestamp
call_run = refl

call-IsContained_example : IsContained (from_low_u64 9) one_contract (receipt, after_call)
unfolding from_low_u64
call-IsContained_example =
    call-IsContained no_hash no_hex no_utf8 no_contract (from_low_u64 2) (from_low_u64 9) refl
      one_contract (from_low_u64 1) [] zero_word receipt after_call call_run
