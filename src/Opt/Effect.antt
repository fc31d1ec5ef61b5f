-- ===== src/Opt/Effect.antt =====
-- `effect_of` (crates/covenant-opt/src/effects.rs): the exhaustive classification of opcodes.
use covenant_language.Ir.Opcode.{Opcode}

pub data Effect : Type 0 where
  pure state trap critical : Effect

unfoldable pub effect_of : Opcode → Effect
effect_of Opcode.add = pure
effect_of Opcode.sub = pure
effect_of Opcode.mul = pure
effect_of Opcode.div = trap
effect_of Opcode.modulo = trap
effect_of Opcode.signed_neg = pure
effect_of Opcode.bit_and = pure
effect_of Opcode.bit_or = pure
effect_of Opcode.bit_xor = pure
effect_of Opcode.shift_left = pure
effect_of Opcode.shift_right = pure
effect_of Opcode.bit_not = pure
effect_of Opcode.eq = pure
effect_of Opcode.ne = pure
effect_of Opcode.lt = pure
effect_of Opcode.le = pure
effect_of Opcode.gt = pure
effect_of Opcode.ge = pure
effect_of Opcode.logical_and = pure
effect_of Opcode.logical_or = pure
effect_of Opcode.logical_not = pure
effect_of Opcode.add_checked = trap
effect_of Opcode.sub_checked = trap
effect_of Opcode.mul_checked = trap
effect_of Opcode.time_add = pure
effect_of Opcode.time_sub = pure
effect_of Opcode.duration_add = pure
effect_of Opcode.duration_sub = pure
effect_of Opcode.duration_scale = pure
effect_of (Opcode.sload _) = pure
effect_of (Opcode.sstore _) = state
effect_of Opcode.mload = pure
effect_of Opcode.mstore = state
effect_of Opcode.map_get = pure
effect_of Opcode.map_set = state
effect_of Opcode.map_delete = state
effect_of Opcode.map_has = pure
effect_of Opcode.map_length = pure
effect_of Opcode.map_keys = pure
effect_of Opcode.map_values = pure
effect_of Opcode.list_append = state
effect_of Opcode.list_get = trap
effect_of Opcode.list_set = state
effect_of Opcode.list_length = pure
effect_of Opcode.list_slice = pure
effect_of Opcode.list_first = pure
effect_of Opcode.list_last = pure
effect_of Opcode.list_arg_max = pure
effect_of Opcode.list_arg_min = pure
effect_of Opcode.pq_insert = state
effect_of Opcode.pq_pop = state
effect_of Opcode.pq_top_key = trap
effect_of Opcode.pq_top_value = trap
effect_of Opcode.pq_length = trap
effect_of (Opcode.struct_new _) = pure
effect_of (Opcode.struct_get _) = pure
effect_of (Opcode.struct_set _) = state
effect_of (Opcode.choice_match _) = pure
effect_of Opcode.text_concat = pure
effect_of Opcode.bytes_concat = pure
effect_of Opcode.list_concat = pure
effect_of Opcode.bytes_length = pure
effect_of Opcode.text_length = pure
effect_of Opcode.text_equals = pure
effect_of Opcode.keccak = pure
effect_of Opcode.blake2 = pure
effect_of Opcode.hmac = pure
effect_of Opcode.abi_encode = pure
effect_of Opcode.abi_decode = pure
effect_of Opcode.abi_pack = pure
effect_of Opcode.fhe_encrypt_trivial = pure
effect_of Opcode.fhe_encrypt_fresh = pure
effect_of Opcode.fhe_add = pure
effect_of Opcode.fhe_sub = pure
effect_of Opcode.fhe_mul = pure
effect_of Opcode.fhe_cmp_eq = pure
effect_of Opcode.fhe_cmp_ne = pure
effect_of Opcode.fhe_cmp_lt = pure
effect_of Opcode.fhe_cmp_le = pure
effect_of Opcode.fhe_cmp_gt = pure
effect_of Opcode.fhe_cmp_ge = pure
effect_of Opcode.fhe_and = pure
effect_of Opcode.fhe_or = pure
effect_of Opcode.fhe_not = pure
effect_of Opcode.fhe_select = pure
effect_of Opcode.fhe_bootstrap = critical
effect_of Opcode.fhe_ciphertext_hash = pure
effect_of Opcode.zk_verify = critical
effect_of Opcode.zk_nullifier = pure
effect_of Opcode.zk_proof_payload = pure
effect_of Opcode.vdf_eval = pure
effect_of Opcode.vdf_verify = critical
effect_of Opcode.pq_verify_dilithium = critical
effect_of Opcode.pq_hybrid_verify = critical
effect_of Opcode.pq_rand = pure
effect_of Opcode.kyber_encrypt = pure
effect_of Opcode.kyber_decrypt = pure
effect_of Opcode.amnesia_begin = state
effect_of Opcode.amnesia_submit_share = state
effect_of Opcode.amnesia_finalize = state
effect_of Opcode.shamir_split = trap
effect_of Opcode.shamir_reconstruct = trap
effect_of Opcode.vdf_lock = state
effect_of Opcode.vdf_unlock = state
effect_of Opcode.destruction_commitment = state
effect_of (Opcode.emit _) = state
effect_of Opcode.transfer = state
effect_of Opcode.is_caller_sender = pure
effect_of Opcode.caller_matches_principal = trap
effect_of (Opcode.builtin_predicate_call _) = trap
effect_of Opcode.load_caller = pure
effect_of Opcode.load_now = pure
effect_of Opcode.load_block_number = pure
effect_of Opcode.load_block_timestamp = pure
effect_of Opcode.load_msg_value = pure
effect_of Opcode.load_msg_sender = pure
effect_of Opcode.load_deployer = pure
effect_of Opcode.load_this = pure
effect_of Opcode.load_chain_id = pure
effect_of Opcode.load_zero_address = pure
effect_of Opcode.reveal_decrypt = state
effect_of Opcode.assert = state
effect_of Opcode.assert_encrypted = state
effect_of (Opcode.coerce _) = pure
effect_of (Opcode.external_call _ _ _) = state
