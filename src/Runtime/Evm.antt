-- ===== src/Runtime/Evm.antt =====
-- crates/covenant-evm-runtime/src/evm.rs: the host, and the machine as a state monad in which a call
-- may halt or panic. The stack has its top first; a map is an association list, the newest entry first.
pub mod Arms
pub mod Step
pub mod Keeps
pub mod Host
pub mod Stack
pub mod Control
pub mod Tests
pub mod Witnesses
pub mod Jumpdests
use covenant_language.Base.{
  ℕ, zero, suc, ◌+◌, ◌-◌, ◌^◌, Bool, Option, none, some, List, [], ◌∷◌, ◌++◌, ◌==◌, ltb, leb,
  length, if◌then◌else◌,
}
use covenant_language.Runtime.Bytes.{bytes_eq, window, slice, overwrite}
use covenant_language.Runtime.U256.{U256, zero_word}
use covenant_language.Runtime.U256.Bits.{word_eq, usize_max, as_usize_saturating}
use covenant_language.Runtime.Address.{Address}
use covenant_language.Runtime.Precompiles.{MockPrecompileState}

-- The reasons of an abort; the source makes texts of them.
pub data Reason : Type 0 where
  stack_underflow dup_underflow swap_underflow stack_overflow step_limit static_sstore static_log :
      Reason
  invalid_jump invalid_jumpi : ℕ → Reason
  unsupported : ℕ → ℕ → Reason

pub data CallResult : Type 0 where
  ok revert : List ℕ → CallResult
  abort : Reason → CallResult

pub record LogEvent : Type 0 where
  pub address : Address
  pub topics : List (List ℕ)
  pub data_bytes : List ℕ

pub record CallEnv : Type 0 where
  pub caller : Address
  pub address : Address
  pub value : U256
  pub input : List ℕ
  pub timestamp : ℕ
  pub block_number : ℕ
  pub chain_id : ℕ
  pub is_static : Bool

-- A `BTreeMap` keyed by addresses.
abbrev pub AddressMap {ℓ} : Type ℓ → Type ℓ
AddressMap A = List (Address × A)

abbrev pub find_address {ℓ} : {A : Type ℓ} → Address → AddressMap A → Option A
find_address a [] = none
find_address a ((b, v) ∷ m) = if bytes_eq b a then some v else find_address a m

abbrev pub or_default {ℓ} : {A : Type ℓ} → Option A → A → A
or_default none d = d
or_default (some v) d = v

abbrev pub Slots : Type 0
Slots = List (U256 × U256)

abbrev pub find_slot : U256 → Slots → U256
find_slot k [] = zero_word
find_slot k ((j, v) ∷ m) = if word_eq j k then v else find_slot k m

pub record HostState : Type 0 where
  pub storage : AddressMap Slots
  pub code : AddressMap (List ℕ)
  pub balances : AddressMap U256
  pub logs : List LogEvent

abbrev pub default_host : HostState
default_host = record { storage = []; code = []; balances = []; logs = [] }

abbrev pub slots_of : HostState → Address → Slots
slots_of h a = or_default (find_address a h.storage) []

unfoldable pub sload : HostState → Address → U256 → U256
sload h a k = find_slot k (slots_of h a)

unfoldable pub sstore : HostState → Address → U256 → U256 → HostState
sstore h a k v = record h { storage = (a, (k, v) ∷ slots_of h a) ∷ h.storage }

pub record Machine : Type 0 where
  pub stack : List U256
  pub memory : List ℕ
  pub pc : ℕ
  pub last_returndatasize : ℕ
  pub host : HostState
  pub precompiles : MockPrecompileState

pub data Flow (A : Type 0) : Type 0 where
  go : A → Machine → Flow A
  halt : CallResult → Machine → Flow A
  panic : Flow A

abbrev pub Op : Type 0 → Type 0
Op A = Machine → Flow A

-- Where control goes after an arm: to the `pc += 1` at the end of the loop, or on with this `pc`.
pub data Next : Type 0 where
  fall : Next
  goto : ℕ → Next

unfoldable pub pure : {A : Type 0} → A → Op A
pure a m = Flow.go a m

abbrev pub bind_flow : {A B : Type 0} → Flow A → (A → Op B) → Flow B
bind_flow (Flow.go a m) k = k a m
bind_flow (Flow.halt r m) k = Flow.halt r m
bind_flow Flow.panic k = Flow.panic

infixl 5 ◌>>=◌
unfoldable pub ◌>>=◌ : {A B : Type 0} → Op A → (A → Op B) → Op B
◌>>=◌ op k m = bind_flow (op m) k

unfoldable pub stop : {A : Type 0} → CallResult → Op A
stop r m = Flow.halt r m

unfoldable pub gets : {A : Type 0} → (Machine → A) → Op A
gets f m = Flow.go (f m) m

-- The macros `pop!` and `push!`.
unfoldable pub pop : Op U256
pop m = elim m.stack [
  | [] ↦ Flow.halt (CallResult.abort Reason.stack_underflow) m
  | v ∷ vs ↦ Flow.go v (record m { stack = vs })
]

unfoldable pub push : U256 → Op Next
push v m =
    if leb 1024 (length m.stack)
    then Flow.halt (CallResult.abort Reason.stack_overflow) m
    else Flow.go Next.fall (record m { stack = v ∷ m.stack })

abbrev pub pop_usize : Op ℕ
pop_usize = do w ← pop; pure (as_usize_saturating w)

-- `usize::saturating_add`.
abbrev pub usize_add : ℕ → ℕ → ℕ
usize_add a b = if leb (a + b) usize_max then a + b else usize_max

-- `Vec::resize` panics above `isize::MAX` bytes, with `none`.
unfoldable pub memory_expand : List ℕ → ℕ → ℕ → Option (List ℕ)
memory_expand mem offset len =
    let need = usize_add offset len in
    if len == 0
    then some mem
    else if ltb (length mem) need
    then (if leb (2 ^ 63) need then none else some (mem ++ window (need - length mem) []))
    else some mem

abbrev pub with_memory : Machine → Option (List ℕ) → Flow Unit
with_memory m none = Flow.panic
with_memory m (some mem) = Flow.go tt (record m { memory = mem })

unfoldable pub expand : ℕ → ℕ → Op Unit
expand offset len m = with_memory m (memory_expand m.memory offset len)

abbrev pub or_panic : {A : Type 0} → Option A → Op A
or_panic none m = Flow.panic
or_panic (some a) m = Flow.go a m

unfoldable pub read_memory : ℕ → ℕ → Op (List ℕ)
read_memory offset len m = or_panic (slice m.memory offset len) m

-- A write after the memory was expanded for it, hence in bounds.
unfoldable pub write_memory : ℕ → List ℕ → Op Unit
write_memory offset bs m = Flow.go tt (record m { memory = overwrite offset bs m.memory })

unfoldable pub set_returned : ℕ → Op Unit
set_returned n m = Flow.go tt (record m { last_returndatasize = n })
