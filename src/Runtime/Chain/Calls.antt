-- ===== src/Runtime/Chain/Calls.antt =====
-- Deployments, calls and receipts of crates/covenant-evm-runtime/src/chain.rs, on top of the
-- interpreter. `none` is a panic. Parameters: `keccak` is the hash of the sha3 crate, `hex` the text
-- that `"0x"` and hex::encode make of bytes, `utf8` is String::from_utf8, and `no_contract` the text of
-- a call to an address without a contract.
use covenant_language.Base.{
  ℕ, ◌+◌, ◌-◌, ◌%◌, ◌^◌, Bool, true, false, ◌||◌, Option, none, some, String, List, [], ◌∷◌, ◌++◌,
  ltb, length, drop, if◌then◌else◌, not,
}
use covenant_language.Runtime.Bytes.{bytes_eq, window, take}
use covenant_language.Runtime.Address.{Address}
use covenant_language.Runtime.U256.{U256, low_u64, zero_word}
use covenant_language.Runtime.U256.Bits.{be_bytes, from_be_bytes}
use covenant_language.Runtime.Clock.{timestamp}
use covenant_language.Runtime.Precompiles.{MockPrecompileState, clone_state}
use covenant_language.Runtime.Evm.{
  CallResult, LogEvent, CallEnv, AddressMap, HostState, Slots, find_address, or_default,
  default_host,
}
use covenant_language.Runtime.Evm.Step.{execute}
use covenant_language.Runtime.Chain.{
  Contract, ChainLogEvent, TxKind, TxStatus, TxReceipt, Chain, chain_id, fixed_gas_estimate,
}

module _ (keccak : List ℕ → List ℕ) (hex : List ℕ → String) (utf8 : List ℕ → Option String)
    (no_contract : Address → String) where
  abbrev pub log_of : LogEvent → ChainLogEvent
  log_of l = record { address = l.address; topics = texts l.topics; data_text = hex l.data_bytes }
    where
      texts : List (List ℕ) → List String
      texts [] = []
      texts (t ∷ ts) = hex t ∷ texts ts

  abbrev pub logs_of : List LogEvent → List ChainLogEvent
  logs_of [] = []
  logs_of (l ∷ ls) = log_of l ∷ logs_of ls

  unfoldable pub derive_create_address : Address → ℕ → Address
  derive_create_address deployer nonce = drop 12 (keccak (deployer ++ be_bytes nonce))

  abbrev pub hex_selector : List ℕ → String
  hex_selector calldata = hex (window 4 calldata)

  -- `Error(string)` with its text; the sum wraps, and a slice that ends before it begins panics.
  unfoldable pub decode_revert_reason : List ℕ → Option (Option String)
  decode_revert_reason bs =
      let len = low_u64 (from_be_bytes (take 32 (drop 36 bs))) in
      let str_end = (68 + len) % 2 ^ 64 in
      if ltb (length bs) 68 || not (bytes_eq (take 4 bs) (0x08 ∷ 0xc3 ∷ 0x79 ∷ 0xa0 ∷ []))
      then some none
      else if ltb (length bs) str_end
      then some none
      else if ltb str_end 68
      then none
      else some (utf8 (take (str_end - 68) (drop 68 bs)))

  unfoldable pub finalize_receipt :
      Chain
      → Address
      → Option Address
      → TxKind
      → TxStatus
      → List ℕ
      → List ChainLogEvent
      → TxReceipt × Chain
  finalize_receipt ch sender recipient kind status return_data logs =
      let seed =
        be_bytes ch.block_number
        ++ be_bytes (length ch.tx_log % 2 ^ 64)
        ++ sender
        ++ or_default recipient [] in
      let receipt : TxReceipt = record {
        hash = hex (keccak seed);
        block_number = ch.block_number;
        timestamp = timestamp ch.clock;
        sender = sender;
        recipient = recipient;
        kind = kind;
        gas_used = fixed_gas_estimate;
        status = status;
        return_data = hex return_data;
        logs = logs;
      } in
      (receipt, record ch { tx_log = ch.tx_log ++ receipt ∷ [] })

  -- A revert with its reason; `none` is the panic of the decoder.
  abbrev pub finish_revert :
      Chain
      → Address
      → Option Address
      → TxKind
      → List ℕ
      → Option (Option String)
      → Option (TxReceipt × Chain)
  finish_revert ch sender recipient kind bs none = none
  finish_revert ch sender recipient kind bs (some reason) =
      some (finalize_receipt ch sender recipient kind (TxStatus.reverted reason) bs [])

  abbrev pub env_of : Chain → Address → Address → U256 → List ℕ → Bool → CallEnv
  env_of ch caller address value input is_static = record {
    caller = caller;
    address = address;
    value = value;
    input = input;
    timestamp = timestamp ch.clock;
    block_number = ch.block_number;
    chain_id = chain_id;
    is_static = is_static;
  }

  -- The host of a call: the storage of the called contract, and nothing else.
  abbrev pub seeded : Address → Contract → HostState
  seeded to c = record default_host { storage = (to, c.storage) ∷ [] }

  -- `host.storage.remove(&to)` into the contract.
  abbrev pub commit : Address → Contract → Option Slots → AddressMap Contract → AddressMap Contract
  commit to c none contracts = contracts
  commit to c (some updated) contracts = (to, record c { storage = updated }) ∷ contracts

  -- The end of a call of a contract, by its result.
  unfoldable pub finish_call :
      Chain
      → Address
      → Address
      → TxKind
      → Contract
      → Option (CallResult × HostState × MockPrecompileState)
      → Option (TxReceipt × Chain)
  finish_call ch sender to kind c none = none
  finish_call ch sender to kind c (some (CallResult.ok bs, host, pcs)) =
      let committed : Chain = record ch {
        contracts = commit to c (find_address to host.storage) ch.contracts;
        precompiles = pcs;
      } in
      some
        (finalize_receipt committed sender (some to) kind TxStatus.success bs (logs_of host.logs))
  finish_call ch sender to kind c (some (CallResult.revert bs, host, pcs)) =
      finish_revert (record ch { precompiles = pcs }) sender (some to) kind bs
        (decode_revert_reason bs)
  finish_call ch sender to kind c (some (CallResult.abort reason, host, pcs)) = some (
      finalize_receipt (record ch { precompiles = pcs }) sender (some to) kind
        (TxStatus.aborted reason) [] [])

  abbrev pub call_contract :
      Chain
      → Address
      → Address
      → List ℕ
      → U256
      → TxKind
      → Option Contract
      → Option (TxReceipt × Chain)
  call_contract ch sender to calldata value kind none =
      some (
        finalize_receipt ch sender (some to) kind (TxStatus.reverted (some (no_contract to))) [] [])
  call_contract ch sender to calldata value kind (some c) = finish_call ch sender to kind c (
      execute keccak c.runtime_bytecode (env_of ch sender to value calldata false) (seeded to c)
        ch.precompiles)

  unfoldable pub call : Chain → Address → Address → List ℕ → U256 → Option (TxReceipt × Chain)
  call ch sender to calldata value =
      call_contract ch sender to calldata value
        (TxKind.call_tx (hex_selector calldata) (hex calldata)) (find_address to ch.contracts)

  -- The end of a constructor: what it returns is the code of the contract.
  unfoldable pub finish_deploy :
      Chain
      → Address
      → Address
      → List ℕ
      → Option (CallResult × HostState × MockPrecompileState)
      → Option (TxReceipt × Chain)
  finish_deploy ch deployer new_address deploy_bytecode none = none
  finish_deploy ch deployer new_address deploy_bytecode (some (CallResult.ok bs, host, pcs)) =
      let contract : Contract = record {
        address = new_address;
        deployer = deployer;
        deploy_bytecode = deploy_bytecode;
        runtime_bytecode = bs;
        storage = or_default (find_address new_address host.storage) [];
        code_hash = keccak bs;
        deployed_at_block = ch.block_number;
        deployed_at_timestamp = timestamp ch.clock;
        label = none;
      } in
      let deployed : Chain = record ch {
        contracts = (new_address, contract) ∷ ch.contracts;
        precompiles = pcs;
      } in
      some (
        finalize_receipt deployed deployer (some new_address) TxKind.deploy_tx TxStatus.success []
          (logs_of host.logs))
  finish_deploy ch deployer new_address deploy_bytecode (some (CallResult.revert bs, host, pcs)) =
      finish_revert (record ch { precompiles = pcs }) deployer none TxKind.deploy_tx bs
        (decode_revert_reason bs)
  finish_deploy ch deployer new_address deploy_bytecode (some (CallResult.abort r, host, pcs)) =
      some (
        finalize_receipt (record ch { precompiles = pcs }) deployer none TxKind.deploy_tx
          (TxStatus.aborted r) [] [])

  unfoldable pub deploy : Chain → Address → List ℕ → List ℕ → Option (TxReceipt × Chain)
  deploy ch deployer deploy_bytecode constructor_args =
      let nonce = or_default (find_address deployer ch.deploy_nonces) 0 in
      let new_address = derive_create_address deployer nonce in
      let counted : Chain = record ch {
        deploy_nonces = (deployer, (nonce + 1) % 2 ^ 64) ∷ ch.deploy_nonces;
      } in
      finish_deploy counted deployer new_address deploy_bytecode (
        execute keccak (deploy_bytecode ++ constructor_args)
          (env_of counted deployer new_address zero_word constructor_args false) default_host
          counted.precompiles)

  abbrev pub static_receipt : Chain → Address → Address → TxKind → TxStatus → List ℕ → TxReceipt
  static_receipt ch sender to kind status bs = record {
    hash = hex (window 32 []);
    block_number = ch.block_number;
    timestamp = timestamp ch.clock;
    sender = sender;
    recipient = some to;
    kind = kind;
    gas_used = 0;
    status = status;
    return_data = hex bs;
    logs = [];
  }

  abbrev pub finish_static :
      Chain
      → Address
      → Address
      → TxKind
      → Option (CallResult × HostState × MockPrecompileState)
      → Option TxReceipt
  finish_static ch sender to kind none = none
  finish_static ch sender to kind (some (CallResult.ok bs, host, pcs)) =
      some (static_receipt ch sender to kind TxStatus.success bs)
  finish_static ch sender to kind (some (CallResult.revert bs, host, pcs)) =
      elim (decode_revert_reason bs) [
        | none ↦ none
        | some reason ↦ some (static_receipt ch sender to kind (TxStatus.reverted reason) bs)
      ]
  finish_static ch sender to kind (some (CallResult.abort reason, host, pcs)) =
      some (static_receipt ch sender to kind (TxStatus.aborted reason) [])

  abbrev pub static_call_contract :
      Chain → Address → Address → List ℕ → TxKind → Option Contract → Option TxReceipt
  static_call_contract ch sender to calldata kind none =
      some (static_receipt ch sender to kind (TxStatus.reverted (some (no_contract to))) [])
  static_call_contract ch sender to calldata kind (some c) = finish_static ch sender to kind (
      execute keccak c.runtime_bytecode (env_of ch sender to zero_word calldata true) (seeded to c)
        (clone_state ch.precompiles))

  -- The chain is borrowed, so only the receipt comes back.
  unfoldable pub static_call : Chain → Address → Address → List ℕ → Option TxReceipt
  static_call ch sender to calldata =
      static_call_contract ch sender to calldata
        (TxKind.static_call_tx (hex_selector calldata) (hex calldata))
        (find_address to ch.contracts)
