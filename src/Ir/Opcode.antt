-- ===== src/Ir/Opcode.antt =====
-- crates/covenant-ir/src/opcode.rs: the opcode catalogue, constructor by constructor, in the order
-- of the source. `Mod` is `modulo` and the storage opcodes are `sload`, `sstore`, `mload`, `mstore`.
pub mod Arity
pub mod Names
use covenant_language.Base.{ℕ, Bool, true, false, String, List}
use covenant_language.Types.Ty.{Ty}
use covenant_language.Ir.Ident.{Ident, BuiltinPredicate, GlobalId, StructTypeId}

pub data Opcode : Type 0 where
  -- Plaintext arithmetic
  add sub mul div modulo signed_neg bit_and bit_or bit_xor shift_left shift_right bit_not : Opcode
  -- Comparison (plaintext)
  eq ne lt le gt ge : Opcode
  -- Logical (plaintext)
  logical_and logical_or logical_not : Opcode
  -- Checked-arithmetic variants: revert on overflow for `amount` types
  add_checked sub_checked mul_checked : Opcode
  -- Time and duration
  time_add time_sub duration_add duration_sub duration_scale : Opcode
  -- Storage
  sload : GlobalId → Opcode
  sstore : GlobalId → Opcode
  mload mstore : Opcode
  -- Map
  map_get map_set map_delete map_has map_length map_keys map_values : Opcode
  -- List
  list_append list_get list_set list_length list_slice list_first list_last list_arg_max : Opcode
  list_arg_min : Opcode
  -- Priority queue
  pq_insert pq_pop pq_top_key pq_top_value pq_length : Opcode
  -- Struct
  struct_new : StructTypeId → Opcode
  struct_get : ℕ → Opcode
  struct_set : ℕ → Opcode
  -- Choice
  choice_match : List String → Opcode
  -- Concatenation
  text_concat bytes_concat list_concat : Opcode
  -- String / bytes
  bytes_length text_length text_equals : Opcode
  -- Hashing
  keccak blake2 hmac : Opcode
  -- Encoding
  abi_encode abi_decode abi_pack : Opcode
  -- FHE (Styx-FHE / ERC-8227)
  fhe_encrypt_trivial fhe_encrypt_fresh fhe_add fhe_sub fhe_mul fhe_cmp_eq fhe_cmp_ne : Opcode
  fhe_cmp_lt fhe_cmp_le fhe_cmp_gt fhe_cmp_ge fhe_and fhe_or fhe_not fhe_select : Opcode
  fhe_bootstrap fhe_ciphertext_hash : Opcode
  -- ZK (Styx-ZK / ERC-8229)
  zk_verify zk_nullifier zk_proof_payload vdf_eval vdf_verify : Opcode
  -- PQ (Styx-PQ / ERC-8231)
  pq_verify_dilithium pq_hybrid_verify pq_rand kyber_encrypt kyber_decrypt : Opcode
  -- Amnesia (Styx-Amnesia / ERC-8228)
  amnesia_begin amnesia_submit_share amnesia_finalize shamir_split shamir_reconstruct : Opcode
  vdf_lock vdf_unlock destruction_commitment : Opcode
  -- Events and transfers
  emit : Ident → Opcode
  transfer : Opcode
  -- Authorization
  is_caller_sender caller_matches_principal : Opcode
  builtin_predicate_call : BuiltinPredicate → Opcode
  -- Language-provided values
  load_caller load_now load_block_number load_block_timestamp load_msg_value : Opcode
  load_msg_sender load_deployer load_this load_chain_id load_zero_address : Opcode
  -- Reveal
  reveal_decrypt : Opcode
  -- Assertion
  assert assert_encrypted : Opcode
  -- Type coercion (IR-level no-op; annotation only)
  coerce : Ty → Opcode
  -- Solidity interop
  external_call : String → Bool → ℕ → Opcode

-- Opcodes whose results that must not be merged across repeated invocations.
unfoldable pub has_randomness_or_state : Opcode → Bool
has_randomness_or_state fhe_encrypt_fresh = true
has_randomness_or_state pq_rand = true
has_randomness_or_state shamir_split = true
has_randomness_or_state vdf_eval = true
has_randomness_or_state fhe_bootstrap = true
has_randomness_or_state amnesia_begin = true
has_randomness_or_state amnesia_submit_share = true
has_randomness_or_state amnesia_finalize = true
has_randomness_or_state vdf_lock = true
has_randomness_or_state vdf_unlock = true
has_randomness_or_state destruction_commitment = true
has_randomness_or_state _ = false

-- Opcodes that are kept even when the SSA result is unused.
unfoldable pub is_verify_or_noise_critical : Opcode → Bool
is_verify_or_noise_critical fhe_bootstrap = true
is_verify_or_noise_critical zk_verify = true
is_verify_or_noise_critical vdf_verify = true
is_verify_or_noise_critical pq_verify_dilithium = true
is_verify_or_noise_critical pq_hybrid_verify = true
is_verify_or_noise_critical _ = false
