-- ===== src/Ir/Opcode/Arity.antt =====
-- `Opcode::operand_count` (crates/covenant-ir/src/opcode.rs): the least and, if bounded, the
-- greatest number of operands. Every opcode answers, so the source's outer `Option` is always
-- `some`; `usize` does not overflow at `1 + arg_count`, which is a `u32` plus one.
use covenant_language.Base.{ℕ, ◌+◌, Option, none, some}
use covenant_language.Ir.Opcode.{Opcode}

abbrev pub Bounds : Type 0
Bounds = Option (ℕ × Option ℕ)

abbrev pub exact : ℕ → Bounds
exact n = some (n, some n)

abbrev pub range : ℕ → Option ℕ → Bounds
range lo hi = some (lo, hi)

unfoldable pub operand_count : Opcode → Bounds
operand_count Opcode.add = exact 2
operand_count Opcode.sub = exact 2
operand_count Opcode.mul = exact 2
operand_count Opcode.div = exact 2
operand_count Opcode.modulo = exact 2
operand_count Opcode.signed_neg = exact 1
operand_count Opcode.bit_and = exact 2
operand_count Opcode.bit_or = exact 2
operand_count Opcode.bit_xor = exact 2
operand_count Opcode.shift_left = exact 2
operand_count Opcode.shift_right = exact 2
operand_count Opcode.bit_not = exact 1
operand_count Opcode.eq = exact 2
operand_count Opcode.ne = exact 2
operand_count Opcode.lt = exact 2
operand_count Opcode.le = exact 2
operand_count Opcode.gt = exact 2
operand_count Opcode.ge = exact 2
operand_count Opcode.logical_and = exact 2
operand_count Opcode.logical_or = exact 2
operand_count Opcode.logical_not = exact 1
operand_count Opcode.add_checked = exact 2
operand_count Opcode.sub_checked = exact 2
operand_count Opcode.mul_checked = exact 2
operand_count Opcode.time_add = exact 2
operand_count Opcode.time_sub = exact 2
operand_count Opcode.duration_add = exact 2
operand_count Opcode.duration_sub = exact 2
operand_count Opcode.duration_scale = exact 2
operand_count (Opcode.sload _) = exact 0
operand_count (Opcode.sstore _) = exact 1
operand_count Opcode.mload = exact 1
operand_count Opcode.mstore = exact 2
operand_count Opcode.map_get = exact 2
operand_count Opcode.map_set = exact 3
operand_count Opcode.map_delete = exact 2
operand_count Opcode.map_has = exact 2
operand_count Opcode.map_length = exact 1
operand_count Opcode.map_keys = exact 1
operand_count Opcode.map_values = exact 1
operand_count Opcode.list_append = exact 2
operand_count Opcode.list_get = exact 2
operand_count Opcode.list_set = exact 3
operand_count Opcode.list_length = exact 1
operand_count Opcode.list_slice = exact 3
operand_count Opcode.list_first = exact 1
operand_count Opcode.list_last = exact 1
operand_count Opcode.list_arg_max = exact 1
operand_count Opcode.list_arg_min = exact 1
operand_count Opcode.pq_insert = exact 3
operand_count Opcode.pq_pop = exact 1
operand_count Opcode.pq_top_key = exact 1
operand_count Opcode.pq_top_value = exact 1
operand_count Opcode.pq_length = exact 1
operand_count (Opcode.struct_new _) = range 0 none
operand_count (Opcode.struct_get _) = exact 1
operand_count (Opcode.struct_set _) = exact 2
operand_count (Opcode.choice_match _) = range 1 none
operand_count Opcode.text_concat = exact 2
operand_count Opcode.bytes_concat = exact 2
operand_count Opcode.list_concat = exact 2
operand_count Opcode.bytes_length = exact 1
operand_count Opcode.text_length = exact 1
operand_count Opcode.text_equals = exact 2
operand_count Opcode.keccak = range 0 none
operand_count Opcode.blake2 = range 0 none
operand_count Opcode.hmac = exact 2
operand_count Opcode.abi_encode = range 0 none
operand_count Opcode.abi_decode = exact 1
operand_count Opcode.abi_pack = range 0 none
operand_count Opcode.fhe_encrypt_trivial = exact 1
operand_count Opcode.fhe_encrypt_fresh = exact 1
operand_count Opcode.fhe_add = exact 2
operand_count Opcode.fhe_sub = exact 2
operand_count Opcode.fhe_mul = exact 2
operand_count Opcode.fhe_cmp_eq = exact 2
operand_count Opcode.fhe_cmp_ne = exact 2
operand_count Opcode.fhe_cmp_lt = exact 2
operand_count Opcode.fhe_cmp_le = exact 2
operand_count Opcode.fhe_cmp_gt = exact 2
operand_count Opcode.fhe_cmp_ge = exact 2
operand_count Opcode.fhe_and = exact 2
operand_count Opcode.fhe_or = exact 2
operand_count Opcode.fhe_not = exact 1
operand_count Opcode.fhe_select = exact 3
operand_count Opcode.fhe_bootstrap = exact 1
operand_count Opcode.fhe_ciphertext_hash = exact 1
operand_count Opcode.zk_verify = exact 3
operand_count Opcode.zk_nullifier = exact 1
operand_count Opcode.zk_proof_payload = exact 1
operand_count Opcode.vdf_eval = exact 2
operand_count Opcode.vdf_verify = exact 4
operand_count Opcode.pq_verify_dilithium = exact 3
operand_count Opcode.pq_hybrid_verify = exact 3
operand_count Opcode.pq_rand = exact 1
operand_count Opcode.kyber_encrypt = exact 2
operand_count Opcode.kyber_decrypt = exact 2
operand_count Opcode.amnesia_begin = exact 1
operand_count Opcode.amnesia_submit_share = exact 2
operand_count Opcode.amnesia_finalize = exact 1
operand_count Opcode.shamir_split = exact 4
operand_count Opcode.shamir_reconstruct = exact 1
operand_count Opcode.vdf_lock = exact 2
operand_count Opcode.vdf_unlock = exact 2
operand_count Opcode.destruction_commitment = exact 1
operand_count (Opcode.emit _) = range 0 none
operand_count Opcode.transfer = range 2 (some 3)
operand_count Opcode.is_caller_sender = exact 0
operand_count Opcode.caller_matches_principal = exact 1
operand_count (Opcode.builtin_predicate_call _) = range 0 none
operand_count Opcode.load_caller = exact 0
operand_count Opcode.load_now = exact 0
operand_count Opcode.load_block_number = exact 0
operand_count Opcode.load_block_timestamp = exact 0
operand_count Opcode.load_msg_value = exact 0
operand_count Opcode.load_msg_sender = exact 0
operand_count Opcode.load_deployer = exact 0
operand_count Opcode.load_this = exact 0
operand_count Opcode.load_chain_id = exact 0
operand_count Opcode.load_zero_address = exact 0
operand_count Opcode.reveal_decrypt = exact 1
operand_count Opcode.assert = exact 1
operand_count Opcode.assert_encrypted = exact 1
operand_count (Opcode.coerce _) = exact 1
operand_count (Opcode.external_call _ _ arg_count) = exact (1 + arg_count)
