-- ===== src/Runtime/Address.antt =====
-- crates/covenant-evm-runtime/src/address.rs: an address is the list of its twenty bytes.
use covenant_language.Base.{ℕ, List, [], ◌++◌, drop}
use covenant_language.Runtime.Bytes.{window}
use covenant_language.Runtime.U256.{U256}
use covenant_language.Runtime.U256.Bits.{be_bytes, to_be_bytes, from_be_bytes}

abbrev pub Address : Type 0
Address = List ℕ

unfoldable pub from_low_u64 : ℕ → Address
from_low_u64 v = window 12 [] ++ be_bytes v

unfoldable pub to_u256 : Address → U256
to_u256 a = from_be_bytes (window 12 [] ++ a)

unfoldable pub from_u256 : U256 → Address
from_u256 v = drop 12 (to_be_bytes v)
