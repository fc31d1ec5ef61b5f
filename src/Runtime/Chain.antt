-- ===== src/Runtime/Chain.antt =====
-- crates/covenant-evm-runtime/src/chain.rs: deployed contracts, accounts, the clock and the log of
-- transactions, with the operations that only read or advance the clock.
pub mod Calls
pub mod Effects
use covenant_language.Base.{
  ℕ, zero, suc, ◌+◌, ◌*◌, ◌-◌, ◌%◌, ◌^◌, Bool, true, false, ◌&&◌, ◌||◌, Option, none, some, String,
  List, [], ◌∷◌, ◌++◌, ltb, leb, length, get_or, drop, if◌then◌else◌, not,
}
use covenant_language.Runtime.Bytes.{bytes_eq, window, take}
use covenant_language.Runtime.Address.{Address}
use covenant_language.Runtime.U256.{U256, low_u64, zero_word}
use covenant_language.Runtime.U256.Bits.{be_bytes, from_be_bytes}
use covenant_language.Runtime.Clock.{Clock, timestamp, saturating_add, advance_clock}
use covenant_language.Runtime.Precompiles.{MockPrecompileState, default_state, clone_state}
use covenant_language.Runtime.Evm.{
  Reason, CallResult, LogEvent, CallEnv, AddressMap, HostState, Slots, find_address, find_slot,
  or_default, default_host,
}
use covenant_language.Runtime.Evm.Step.{execute}

pub record Contract : Type 0 where
  pub address : Address
  pub deployer : Address
  pub deploy_bytecode : List ℕ
  pub runtime_bytecode : List ℕ
  pub storage : Slots
  pub code_hash : List ℕ
  pub deployed_at_block : ℕ
  pub deployed_at_timestamp : ℕ
  pub label : Option String

pub record Account : Type 0 where
  pub address : Address
  pub balance : U256
  pub nonce : ℕ
  pub label : String

pub record ChainLogEvent : Type 0 where
  pub address : Address
  pub topics : List String
  pub data_text : String

pub data TxKind : Type 0 where
  deploy_tx : TxKind
  call_tx static_call_tx : String → String → TxKind

pub data TxStatus : Type 0 where
  success : TxStatus
  reverted : Option String → TxStatus
  aborted : Reason → TxStatus

pub record TxReceipt : Type 0 where
  pub hash : String
  pub block_number : ℕ
  pub timestamp : ℕ
  pub sender : Address
  pub recipient : Option Address
  pub kind : TxKind
  pub gas_used : ℕ
  pub status : TxStatus
  pub return_data : String
  pub logs : List ChainLogEvent

pub record Chain : Type 0 where
  pub contracts : AddressMap Contract
  pub accounts : AddressMap Account
  pub clock : Clock
  pub block_number : ℕ
  pub tx_log : List TxReceipt
  pub deploy_nonces : AddressMap ℕ
  pub precompiles : MockPrecompileState

abbrev pub chain_id : ℕ
chain_id = 31337

abbrev pub fixed_gas_estimate : ℕ
fixed_gas_estimate = 10000

unfoldable pub get_storage : Chain → Address → U256 → U256
get_storage ch a slot = elim (find_address a ch.contracts) [
  | none ↦ zero_word
  | some c ↦ find_slot slot c.storage
]

unfoldable pub get_balance : Chain → Address → U256
get_balance ch a = elim (find_address a ch.accounts) [ none ↦ zero_word | some c ↦ c.balance ]

unfoldable pub advance_time : Chain → ℕ → Chain
advance_time ch seconds = record ch { clock = advance_clock ch.clock seconds }

-- `count` blocks of twelve seconds.
unfoldable pub mine_blocks : ℕ → Chain → Chain
mine_blocks zero ch = ch
mine_blocks (suc count) ch = mine_blocks count (record ch {
  block_number = saturating_add ch.block_number 1;
  clock = advance_clock ch.clock 12;
})

unfoldable pub new_chain : Clock → Chain
new_chain clock = record {
  contracts = [];
  accounts = [];
  clock = clock;
  block_number = 1;
  tx_log = [];
  deploy_nonces = [];
  precompiles = default_state;
}
