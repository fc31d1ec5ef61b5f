-- ===== src/Runtime/Precompiles.antt =====
-- crates/covenant-evm-runtime/src/precompiles.rs: the mocked precompiles. `keccak` is the hash of the
-- sha3 crate. The handle table is an association list, the newest entry first.
pub mod Homomorphic
pub mod Tests
use covenant_language.Base.{
  ℕ, ◌+◌, ◌%◌, ◌^◌, Bool, true, false, not, ◌&&◌, ◌||◌, Option, none, some, List, [], ◌∷◌, ◌++◌,
  ◌==◌, leb, length, lookup, drop, if◌then◌else◌,
}
use covenant_language.Runtime.Bytes.{bytes_eq, window}
use covenant_language.Runtime.U256.{
  U256, from_u64, is_zero, zero_word, wrapping_add, wrapping_sub, bitnot,
}
use covenant_language.Runtime.U256.Mul.{wrapping_mul}
use covenant_language.Runtime.U256.Bits.{
  bitand, bitor, from_bool, less, word_eq, be_bytes, to_be_bytes, from_be_bytes,
}

abbrev pub Handles : Type 0
Handles = List (List ℕ × U256)

pub record MockPrecompileState : Type 0 where
  pub fhe_nonce : ℕ
  pub fhe_handles : Handles
  pub pq_force_fail : Bool
  pub pq_nonce : ℕ
  pub zk_force_fail : Bool
  pub amnesia_nonce : ℕ

abbrev pub default_state : MockPrecompileState
default_state = record {
  fhe_nonce = 0;
  fhe_handles = [];
  pq_force_fail = false;
  pq_nonce = 0;
  zk_force_fail = false;
  amnesia_nonce = 0;
}

-- The `Clone` of chain.rs.
unfoldable pub clone_state : MockPrecompileState → MockPrecompileState
clone_state st = record {
  fhe_nonce = 0;
  fhe_handles = st.fhe_handles;
  pq_force_fail = st.pq_force_fail;
  pq_nonce = st.pq_nonce;
  zk_force_fail = st.zk_force_fail;
  amnesia_nonce = st.amnesia_nonce;
}

abbrev pub find_handle : List ℕ → Handles → U256
find_handle h [] = zero_word
find_handle h ((k, v) ∷ m) = if bytes_eq k h then v else find_handle h m

unfoldable pub resolve_fhe : MockPrecompileState → List ℕ → U256
resolve_fhe st h = find_handle h st.fhe_handles

-- b"covenant-fhe" and b"covenant-pq-rand".
abbrev pub fhe_tag : List ℕ
fhe_tag = 99 ∷ 111 ∷ 118 ∷ 101 ∷ 110 ∷ 97 ∷ 110 ∷ 116 ∷ 45 ∷ 102 ∷ 104 ∷ 101 ∷ []

abbrev pub pq_tag : List ℕ
pq_tag =
    99 ∷ 111 ∷ 118 ∷ 101 ∷ 110 ∷ 97 ∷ 110 ∷ 116 ∷ 45 ∷ 112 ∷ 113 ∷ 45 ∷ 114 ∷ 97 ∷ 110 ∷ 100 ∷ []

unfoldable pub is_precompile : ℕ → Bool
is_precompile a =
    leb 0x101 a && leb a 0x114
    || leb 0x120 a && leb a 0x123
    || leb 0x130 a && leb a 0x133
    || leb 0x150 a && leb a 0x154

unfoldable pub read_word_bytes : List ℕ → ℕ → List ℕ
read_word_bytes input off = window 32 (drop off input)

unfoldable pub bool_word : Bool → List ℕ
bool_word b = window 31 [] ++ (if b then 1 else 0) ∷ []

-- The operations on two handles, by their addresses, as functions of the plaintexts.
abbrev pub fhe_operations : List (ℕ × (U256 → U256 → U256))
fhe_operations =
    (0x103, wrapping_add)
    ∷ (0x104, wrapping_sub)
    ∷ (0x105, wrapping_mul)
    ∷ (0x109, bitand)
    ∷ (0x10a, bitor)
    ∷ (0x106, λ a b. from_bool (word_eq a b))
    ∷ (0x113, λ a b. from_bool (not (word_eq a b)))
    ∷ (0x107, λ a b. from_bool (less a b))
    ∷ (0x114, λ a b. from_bool (not (less b a)))
    ∷ (0x108, λ a b. from_bool (less b a))
    ∷ (0x112, λ a b. from_bool (not (less a b)))
    ∷ []

abbrev pub first_word : List ℕ → List ℕ
first_word input = read_word_bytes input 0

-- `&input[4..]` where it is there.
abbrev pub strip_selector : List ℕ → List ℕ
strip_selector input = if leb 4 (length input) then drop 4 input else input

module _ (keccak : List ℕ → List ℕ) where
  -- A precompile: the output, and the state after it.
  abbrev pub Precompile : Type 0
  Precompile = List ℕ → MockPrecompileState → List ℕ × MockPrecompileState

  unfoldable pub mint_fhe : U256 → MockPrecompileState → List ℕ × MockPrecompileState
  mint_fhe plaintext st =
      let nonce = (st.fhe_nonce + 1) % 2 ^ 64 in
      let handle = keccak (fhe_tag ++ be_bytes nonce) in
      (handle, record st { fhe_nonce = nonce; fhe_handles = (handle, plaintext) ∷ st.fhe_handles })

  unfoldable pub fhe_binary : (U256 → U256 → U256) → Precompile
  fhe_binary f input st =
      mint_fhe
        (f (resolve_fhe st (read_word_bytes input 0)) (resolve_fhe st (read_word_bytes input 32)))
        st

  abbrev pub select_arm : Precompile
  select_arm input st =
      let c = resolve_fhe st (read_word_bytes input 0) in
      let t = resolve_fhe st (read_word_bytes input 32) in
      let e = resolve_fhe st (read_word_bytes input 64) in
      mint_fhe (if not (is_zero c) then t else e) st

  abbrev pub rand_arm : Precompile
  rand_arm input st =
      let nonce = (st.pq_nonce + 1) % 2 ^ 64 in
      (keccak (pq_tag ++ be_bytes nonce), record st { pq_nonce = nonce })

  abbrev pub begin_arm : Precompile
  begin_arm input st =
      let nonce = (st.amnesia_nonce + 1) % 2 ^ 64 in
      (to_be_bytes (from_u64 nonce), record st { amnesia_nonce = nonce })

  unfoldable pub reveal_arm : Precompile
  reveal_arm input st = (to_be_bytes (resolve_fhe st (first_word input)), st)

  abbrev pub encrypt_arm : Precompile
  encrypt_arm input st = mint_fhe (from_be_bytes (first_word input)) st

  abbrev pub decrypt_bool_arm : Precompile
  decrypt_bool_arm input st =
      ((if not (is_zero (resolve_fhe st (first_word input))) then 1 else 0) ∷ [], st)

  -- The arms other than the operations on two handles.
  abbrev pub other_arms : List (ℕ × Precompile)
  other_arms =
      (0x101, encrypt_arm)
      ∷ (0x102, encrypt_arm)
      ∷ (0x10b, λ input st. mint_fhe (bitnot (resolve_fhe st (first_word input))) st)
      ∷ (0x10c, select_arm)
      ∷ (0x10d, λ input st. (keccak (first_word input), st))
      ∷ (0x10e, reveal_arm)
      ∷ (0x10f, λ input st. (first_word input, st))
      ∷ (0x110, decrypt_bool_arm)
      ∷ (0x111, reveal_arm)
      ∷ (0x150, λ input st. (bool_word (not st.pq_force_fail), st))
      ∷ (0x151, λ input st. (bool_word (not st.pq_force_fail), st))
      ∷ (0x152, rand_arm)
      ∷ (0x153, λ input st. (keccak input, st))
      ∷ (0x154, λ input st. (input, st))
      ∷ (0x130, λ input st. (bool_word (not st.zk_force_fail), st))
      ∷ (0x131, λ input st. (keccak input, st))
      ∷ (0x132, λ input st. (first_word input, st))
      ∷ (0x133, λ input st. (bool_word (not st.zk_force_fail), st))
      ∷ (0x120, begin_arm)
      ∷ (0x121, λ input st. (bool_word true, st))
      ∷ (0x122, λ input st. (bool_word true, st))
      ∷ (0x123, λ input st. (bool_word true, st))
      ∷ []

  abbrev pub other_arm : Option Precompile → Precompile
  other_arm none input st = ([], st)
  other_arm (some arm) input st = arm input st

  abbrev pub dispatch_arm : ℕ → Option (U256 → U256 → U256) → Precompile
  dispatch_arm addr_low (some f) = fhe_binary f
  dispatch_arm addr_low none = other_arm (lookup addr_low other_arms)

  unfoldable pub dispatch : ℕ → Precompile
  dispatch addr_low input st =
      dispatch_arm addr_low (lookup addr_low fhe_operations) (strip_selector input) st
