-- ===== src/Opt/Cse/Eligible.antt =====
-- What the results of opcodes depend on, against the choice of crates/covenant-opt/src/cse.rs: an opcode
-- that the pass may merge is determined by its operands, or is one of those that it merges though
-- they are not.
use covenant_language.Base.{◌≡◌, refl, Bool, true, false}
use covenant_language.Ir.Opcode.{Opcode, has_randomness_or_state}
use covenant_language.Opt.Cse.{is_cse_eligible}

-- The opcodes whose result depends on nothing but the operands: arithmetic, comparisons, texts and
-- bytes, hashes, encodings and verifications.
abbrev pub is_determined : Opcode → Bool
is_determined Opcode.add = true
is_determined Opcode.sub = true
is_determined Opcode.mul = true
is_determined Opcode.div = true
is_determined Opcode.modulo = true
is_determined Opcode.signed_neg = true
is_determined Opcode.bit_and = true
is_determined Opcode.bit_or = true
is_determined Opcode.bit_xor = true
is_determined Opcode.shift_left = true
is_determined Opcode.shift_right = true
is_determined Opcode.bit_not = true
is_determined Opcode.eq = true
is_determined Opcode.ne = true
is_determined Opcode.lt = true
is_determined Opcode.le = true
is_determined Opcode.gt = true
is_determined Opcode.ge = true
is_determined Opcode.logical_and = true
is_determined Opcode.logical_or = true
is_determined Opcode.logical_not = true
is_determined Opcode.add_checked = true
is_determined Opcode.sub_checked = true
is_determined Opcode.mul_checked = true
is_determined Opcode.time_add = true
is_determined Opcode.time_sub = true
is_determined Opcode.duration_add = true
is_determined Opcode.duration_sub = true
is_determined Opcode.duration_scale = true
is_determined (Opcode.struct_new _) = true
is_determined (Opcode.choice_match _) = true
is_determined Opcode.text_concat = true
is_determined Opcode.bytes_concat = true
is_determined Opcode.list_concat = true
is_determined Opcode.bytes_length = true
is_determined Opcode.text_length = true
is_determined Opcode.text_equals = true
is_determined Opcode.keccak = true
is_determined Opcode.blake2 = true
is_determined Opcode.hmac = true
is_determined Opcode.abi_encode = true
is_determined Opcode.abi_decode = true
is_determined Opcode.abi_pack = true
is_determined Opcode.fhe_ciphertext_hash = true
is_determined Opcode.zk_verify = true
is_determined Opcode.zk_nullifier = true
is_determined Opcode.zk_proof_payload = true
is_determined Opcode.vdf_verify = true
is_determined Opcode.pq_verify_dilithium = true
is_determined Opcode.pq_hybrid_verify = true
is_determined Opcode.kyber_decrypt = true
is_determined Opcode.shamir_reconstruct = true
is_determined Opcode.is_caller_sender = true
is_determined (Opcode.coerce _) = true
is_determined _ = false

-- The opcodes that the pass merges though their results depend on storage, on other contracts, on the
-- caller, on randomness, or on the type of the result: reads of maps, lists, queues and structs, two
-- writes of queues and one of structs, calls, and encryptions.
abbrev pub is_merged_at_risk : Opcode → Bool
is_merged_at_risk Opcode.map_get = true
is_merged_at_risk Opcode.map_has = true
is_merged_at_risk Opcode.map_length = true
is_merged_at_risk Opcode.map_keys = true
is_merged_at_risk Opcode.map_values = true
is_merged_at_risk Opcode.list_get = true
is_merged_at_risk Opcode.list_length = true
is_merged_at_risk Opcode.list_slice = true
is_merged_at_risk Opcode.list_first = true
is_merged_at_risk Opcode.list_last = true
is_merged_at_risk Opcode.list_arg_max = true
is_merged_at_risk Opcode.list_arg_min = true
is_merged_at_risk Opcode.pq_insert = true
is_merged_at_risk Opcode.pq_pop = true
is_merged_at_risk Opcode.pq_top_key = true
is_merged_at_risk Opcode.pq_top_value = true
is_merged_at_risk Opcode.pq_length = true
is_merged_at_risk (Opcode.struct_get _) = true
is_merged_at_risk (Opcode.struct_set _) = true
is_merged_at_risk Opcode.fhe_encrypt_trivial = true
is_merged_at_risk Opcode.kyber_encrypt = true
is_merged_at_risk Opcode.caller_matches_principal = true
is_merged_at_risk (Opcode.builtin_predicate_call _) = true
is_merged_at_risk (Opcode.external_call _ _ _) = true
is_merged_at_risk _ = false

pub is_cse_eligible-is_determined :
    (op : Opcode)
    → is_merged_at_risk op ≡ false
    → is_cse_eligible op ≡ true
    → is_determined op ≡ true
unfolding is_cse_eligible has_randomness_or_state
is_cse_eligible-is_determined Opcode.add g e = refl
is_cse_eligible-is_determined Opcode.sub g e = refl
is_cse_eligible-is_determined Opcode.mul g e = refl
is_cse_eligible-is_determined Opcode.div g e = refl
is_cse_eligible-is_determined Opcode.modulo g e = refl
is_cse_eligible-is_determined Opcode.signed_neg g e = refl
is_cse_eligible-is_determined Opcode.bit_and g e = refl
is_cse_eligible-is_determined Opcode.bit_or g e = refl
is_cse_eligible-is_determined Opcode.bit_xor g e = refl
is_cse_eligible-is_determined Opcode.shift_left g e = refl
is_cse_eligible-is_determined Opcode.shift_right g e = refl
is_cse_eligible-is_determined Opcode.bit_not g e = refl
is_cse_eligible-is_determined Opcode.eq g e = refl
is_cse_eligible-is_determined Opcode.ne g e = refl
is_cse_eligible-is_determined Opcode.lt g e = refl
is_cse_eligible-is_determined Opcode.le g e = refl
is_cse_eligible-is_determined Opcode.gt g e = refl
is_cse_eligible-is_determined Opcode.ge g e = refl
is_cse_eligible-is_determined Opcode.logical_and g e = refl
is_cse_eligible-is_determined Opcode.logical_or g e = refl
is_cse_eligible-is_determined Opcode.logical_not g e = refl
is_cse_eligible-is_determined Opcode.add_checked g e = refl
is_cse_eligible-is_determined Opcode.sub_checked g e = refl
is_cse_eligible-is_determined Opcode.mul_checked g e = refl
is_cse_eligible-is_determined Opcode.time_add g e = refl
is_cse_eligible-is_determined Opcode.time_sub g e = refl
is_cse_eligible-is_determined Opcode.duration_add g e = refl
is_cse_eligible-is_determined Opcode.duration_sub g e = refl
is_cse_eligible-is_determined Opcode.duration_scale g e = refl
is_cse_eligible-is_determined (Opcode.struct_new _) g e = refl
is_cse_eligible-is_determined (Opcode.choice_match _) g e = refl
is_cse_eligible-is_determined Opcode.text_concat g e = refl
is_cse_eligible-is_determined Opcode.bytes_concat g e = refl
is_cse_eligible-is_determined Opcode.list_concat g e = refl
is_cse_eligible-is_determined Opcode.bytes_length g e = refl
is_cse_eligible-is_determined Opcode.text_length g e = refl
is_cse_eligible-is_determined Opcode.text_equals g e = refl
is_cse_eligible-is_determined Opcode.keccak g e = refl
is_cse_eligible-is_determined Opcode.blake2 g e = refl
is_cse_eligible-is_determined Opcode.hmac g e = refl
is_cse_eligible-is_determined Opcode.abi_encode g e = refl
is_cse_eligible-is_determined Opcode.abi_decode g e = refl
is_cse_eligible-is_determined Opcode.abi_pack g e = refl
is_cse_eligible-is_determined Opcode.fhe_ciphertext_hash g e = refl
is_cse_eligible-is_determined Opcode.zk_verify g e = refl
is_cse_eligible-is_determined Opcode.zk_nullifier g e = refl
is_cse_eligible-is_determined Opcode.zk_proof_payload g e = refl
is_cse_eligible-is_determined Opcode.vdf_verify g e = refl
is_cse_eligible-is_determined Opcode.pq_verify_dilithium g e = refl
is_cse_eligible-is_determined Opcode.pq_hybrid_verify g e = refl
is_cse_eligible-is_determined Opcode.kyber_decrypt g e = refl
is_cse_eligible-is_determined Opcode.shamir_reconstruct g e = refl
is_cse_eligible-is_determined Opcode.is_caller_sender g e = refl
is_cse_eligible-is_determined (Opcode.coerce _) g e = refl
is_cse_eligible-is_determined _ g e = cc
