-- ===== src/Runtime/Chain/Effects.antt =====
-- What a call of crates/covenant-evm-runtime/src/chain.rs changes of the chain.
pub mod Tests
use covenant_language.Base.{
  ℕ, ◌≡◌, ◌⊎◌, inl, inr, refl, sym, subst, Bool, true, false, Option, none, some, String, List, [],
  ◌∷◌, Option-cases,
}
use covenant_language.Runtime.Bytes.{bytes_eq}
use covenant_language.Runtime.Address.{Address}
use covenant_language.Runtime.U256.{U256}
use covenant_language.Runtime.Precompiles.{MockPrecompileState}
use covenant_language.Runtime.Evm.{CallResult, HostState, AddressMap, Slots, find_address}
use covenant_language.Runtime.Evm.Step.{execute}
use covenant_language.Runtime.Chain.{Contract, Chain, TxKind, TxStatus, TxReceipt}
use covenant_language.Runtime.Chain.Calls.{
  finalize_receipt, finish_revert, finish_call, commit, call_contract, call, decode_revert_reason,
  env_of, seeded, hex_selector,
}

-- The accounts and the contract at `other` are as before, and where the call does not succeed every
-- contract is.
abbrev pub IsContained : Address → Chain → TxReceipt × Chain → Type 0
IsContained other ch x =
    (x.1.accounts ≡ ch.accounts)
    × ((find_address other x.1.contracts ≡ find_address other ch.contracts)
        × ((x.0.status ≡ TxStatus.success) ⊎ (x.1.contracts ≡ ch.contracts)))

abbrev Settles : Address → Chain → Option (TxReceipt × Chain) → Type 0
Settles other ch none = Unit
Settles other ch (some x) = IsContained other ch x

module _ (keccak : List ℕ → List ℕ) (hex : List ℕ → String) (utf8 : List ℕ → Option String)
    (no_contract : Address → String) (to other : Address)
    (differs : bytes_eq to other ≡ false) where
  find_address-commit :
      (c : Contract) (o : Option Slots) (contracts : AddressMap Contract)
      → find_address other (commit keccak hex utf8 no_contract to c o contracts)
        ≡ find_address other contracts
  find_address-commit c none contracts = refl
  find_address-commit c (some updated) contracts = rw differs refl

  finish_revert-Settles :
      (ch : Chain) (pcs : MockPrecompileState) (sender : Address) (kind : TxKind) (bs : List ℕ)
      (reason : Option (Option String))
      → Settles other ch (
          finish_revert keccak hex utf8 no_contract
            (record ch { precompiles = pcs })
            sender
            (some to)
            kind
            bs
            reason)
  unfolding finalize_receipt
  finish_revert-Settles ch pcs sender kind bs none = tt
  finish_revert-Settles ch pcs sender kind bs (some r) = (refl, (refl, inr refl))

  finish_call-Settles :
      (ch : Chain) (sender : Address) (kind : TxKind) (c : Contract)
      (o : Option (CallResult × HostState × MockPrecompileState))
      → Settles other ch (finish_call keccak hex utf8 no_contract ch sender to kind c o)
  unfolding finish_call finalize_receipt
  finish_call-Settles ch sender kind c none = tt
  finish_call-Settles ch sender kind c (some (CallResult.ok bs, host, pcs)) =
      (refl, (find_address-commit c (find_address to host.storage) ch.contracts, inl refl))
  finish_call-Settles ch sender kind c (some (CallResult.revert bs, host, pcs)) =
      finish_revert-Settles ch pcs sender kind bs
        (decode_revert_reason keccak hex utf8 no_contract bs)
  finish_call-Settles ch sender kind c (some (CallResult.abort r, host, pcs)) =
      (refl, (refl, inr refl))

  call_contract-Settles :
      (ch : Chain) (sender : Address) (calldata : List ℕ) (value : U256) (kind : TxKind)
      (o : Option Contract)
      → Settles other ch
          (call_contract keccak hex utf8 no_contract ch sender to calldata value kind o)
  unfolding finalize_receipt
  call_contract-Settles ch sender calldata value kind none = (refl, (refl, inr refl))
  call_contract-Settles ch sender calldata value kind (some c) =
      finish_call-Settles ch sender kind c _

  -- A call that returns leaves the accounts and each contract at another address than the called one
  -- as they were, and where its receipt does not say success, every contract.
  pub call-IsContained :
      (ch : Chain) (sender : Address) (calldata : List ℕ) (value : U256) (r : TxReceipt)
      (after : Chain)
      → call keccak hex utf8 no_contract ch sender to calldata value ≡ some (r, after)
      → IsContained other ch (r, after)
  unfolding call
  call-IsContained ch sender calldata value r after e =
      subst (Settles other ch) e
        (call_contract-Settles ch sender calldata value _ (find_address to ch.contracts))
