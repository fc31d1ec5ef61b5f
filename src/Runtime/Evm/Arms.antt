-- ===== src/Runtime/Evm/Arms.antt =====
-- The arms of the match in crates/covenant-evm-runtime/src/evm.rs that need neither the call's
-- environment nor its code: arithmetic, stack operations, and parts of the calls.
use covenant_language.Base.{
  ℕ, zero, suc, ◌+◌, ◌-◌, ◌*◌, Bool, true, false, ◌&&◌, List, [], ◌∷◌, ◌++◌, ltb, length, get_or,
  drop, if◌then◌else◌,
}
use covenant_language.Runtime.Bytes.{take, window}
use covenant_language.Runtime.Address.{from_u256}
use covenant_language.Runtime.U256.{
  U256, zero_word, low_u64, is_zero, fits_u64, wrapping_add, wrapping_sub, bitnot,
}
use covenant_language.Runtime.U256.Mul.{wrapping_mul}
use covenant_language.Runtime.U256.Bits.{
  bitand, bitor, bitxor, shl, shr, less, word_eq, from_bool, to_be_bytes, from_be_bytes,
}
use covenant_language.Runtime.U256.Div.{div, rem}
use covenant_language.Runtime.Evm.{
  Reason, CallResult, CallEnv, Flow, Op, Next, find_address, or_default, pure, ◌>>=◌, gets, pop,
  push, write_memory,
}

abbrev pub Arm : Type 0
Arm = Op Next

abbrev pub binary : (U256 → U256 → U256) → Arm
binary f = do a ← pop; b ← pop; push (f a b)

abbrev pub unary : (U256 → U256) → Arm
unary f = do a ← pop; push (f a)

abbrev pub shift_by : U256 → ℕ
shift_by w = if fits_u64 w && ltb (low_u64 w) 256 then low_u64 w else 256

abbrev pub arithmetic_arms : List (ℕ × Arm)
arithmetic_arms =
    (0x01, binary wrapping_add)
    ∷ (0x03, binary wrapping_sub)
    ∷ (0x02, binary wrapping_mul)
    ∷ (0x04, binary div)
    ∷ (0x06, binary rem)
    ∷ (0x10, binary (λ a b. from_bool (less a b)))
    ∷ (0x11, binary (λ a b. from_bool (less b a)))
    ∷ (0x14, binary (λ a b. from_bool (word_eq a b)))
    ∷ (0x15, unary (λ a. from_bool (is_zero a)))
    ∷ (0x16, binary bitand)
    ∷ (0x17, binary bitor)
    ∷ (0x18, binary bitxor)
    ∷ (0x19, unary bitnot)
    ∷ (0x1b, binary (λ shift value. shl value (shift_by shift)))
    ∷ (0x1c, binary (λ shift value. shr value (shift_by shift)))
    ∷ []

-- DUP and SWAP of the `n`th element.
unfoldable pub dup_arm : ℕ → Arm
dup_arm n m =
    if ltb (length m.stack) n
    then Flow.halt (CallResult.abort Reason.dup_underflow) m
    else push (get_or m.stack (n - 1) zero_word) m

abbrev pub put : List U256 → ℕ → U256 → List U256
put [] i v = []
put (x ∷ xs) zero v = v ∷ xs
put (x ∷ xs) (suc i) v = x ∷ put xs i v

abbrev pub swap : ℕ → List U256 → List U256
swap n [] = []
swap n (top ∷ rest) = get_or rest (n - 1) zero_word ∷ put rest (n - 1) top

unfoldable pub swap_arm : ℕ → Arm
swap_arm n m =
    if ltb (length m.stack) (n + 1)
    then Flow.halt (CallResult.abort Reason.swap_underflow) m
    else Flow.go Next.fall (record m { stack = swap n m.stack })

-- The bytes of an immediate that the code still has, right-aligned.
abbrev pub immediate : List ℕ → ℕ → ℕ → U256
immediate code pc n =
    let bs = take n (drop (pc + 1) code) in from_be_bytes (window (32 - length bs) [] ++ bs)

abbrev pub push_arm : List ℕ → ℕ → Arm
push_arm code n = do
  pc ← gets (λ m. m.pc)
  _ ← push (immediate code pc n)
  pure (Next.goto (pc + (1 + n)))

abbrev pub pop_topics : ℕ → Op (List (List ℕ))
pop_topics zero = pure []
pop_topics (suc n) = do w ← pop; ts ← pop_topics n; pure (to_be_bytes w ∷ ts)

-- The end of CALL to an address without a precompile: ether moves, no code runs.
unfoldable pub transfer : CallEnv → U256 → U256 → Op Bool
transfer env addr_w value m =
    let cur = or_default (find_address env.address m.host.balances) zero_word in
    let taken = (env.address, wrapping_sub cur value) ∷ m.host.balances in
    let dst = or_default (find_address (from_u256 addr_w) taken) zero_word in
    let given = (from_u256 addr_w, wrapping_add dst value) ∷ taken in
    if is_zero value
    then Flow.go true m
    else if less cur value
    then Flow.go false m
    else Flow.go true (record m { host = record (m.host) { balances = given } })

unfoldable pub addr_low_u16 : U256 → ℕ
addr_low_u16 w = get_or (to_be_bytes w) 30 0 * 256 + get_or (to_be_bytes w) 31 0

-- `write_return`, on memory that was expanded for it.
abbrev pub write_return : ℕ → ℕ → List ℕ → Op Unit
write_return ret_off ret_len out = write_memory ret_off (window ret_len out)
