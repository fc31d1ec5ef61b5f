-- ===== src/Ir/Opcode/Names.antt =====
-- `Opcode::stable_name` (crates/covenant-ir/src/opcode.rs): the name from which a backend derives
-- the wire selector of an operation. It drops the payload of an opcode.
use covenant_language.Base.{String}
use covenant_language.Ir.Opcode.{Opcode}

unfoldable pub stable_name : Opcode → String
stable_name Opcode.add = "Add"
stable_name Opcode.sub = "Sub"
stable_name Opcode.mul = "Mul"
stable_name Opcode.div = "Div"
stable_name Opcode.modulo = "Mod"
stable_name Opcode.signed_neg = "SignedNeg"
stable_name Opcode.bit_and = "BitAnd"
stable_name Opcode.bit_or = "BitOr"
stable_name Opcode.bit_xor = "BitXor"
stable_name Opcode.shift_left = "ShiftLeft"
stable_name Opcode.shift_right = "ShiftRight"
stable_name Opcode.bit_not = "BitNot"
stable_name Opcode.eq = "Eq"
stable_name Opcode.ne = "Ne"
stable_name Opcode.lt = "Lt"
stable_name Opcode.le = "Le"
stable_name Opcode.gt = "Gt"
stable_name Opcode.ge = "Ge"
stable_name Opcode.logical_and = "LogicalAnd"
stable_name Opcode.logical_or = "LogicalOr"
stable_name Opcode.logical_not = "LogicalNot"
stable_name Opcode.add_checked = "AddChecked"
stable_name Opcode.sub_checked = "SubChecked"
stable_name Opcode.mul_checked = "MulChecked"
stable_name Opcode.time_add = "TimeAdd"
stable_name Opcode.time_sub = "TimeSub"
stable_name Opcode.duration_add = "DurationAdd"
stable_name Opcode.duration_sub = "DurationSub"
stable_name Opcode.duration_scale = "DurationScale"
stable_name (Opcode.sload _) = "SLoad"
stable_name (Opcode.sstore _) = "SStore"
stable_name Opcode.mload = "MLoad"
stable_name Opcode.mstore = "MStore"
stable_name Opcode.map_get = "MapGet"
stable_name Opcode.map_set = "MapSet"
stable_name Opcode.map_delete = "MapDelete"
stable_name Opcode.map_has = "MapHas"
stable_name Opcode.map_length = "MapLength"
stable_name Opcode.map_keys = "MapKeys"
stable_name Opcode.map_values = "MapValues"
stable_name Opcode.list_append = "ListAppend"
stable_name Opcode.list_get = "ListGet"
stable_name Opcode.list_set = "ListSet"
stable_name Opcode.list_length = "ListLength"
stable_name Opcode.list_slice = "ListSlice"
stable_name Opcode.list_first = "ListFirst"
stable_name Opcode.list_last = "ListLast"
stable_name Opcode.list_arg_max = "ListArgMax"
stable_name Opcode.list_arg_min = "ListArgMin"
stable_name Opcode.pq_insert = "PqInsert"
stable_name Opcode.pq_pop = "PqPop"
stable_name Opcode.pq_top_key = "PqTopKey"
stable_name Opcode.pq_top_value = "PqTopValue"
stable_name Opcode.pq_length = "PqLength"
stable_name (Opcode.struct_new _) = "StructNew"
stable_name (Opcode.struct_get _) = "StructGet"
stable_name (Opcode.struct_set _) = "StructSet"
stable_name (Opcode.choice_match _) = "ChoiceMatch"
stable_name Opcode.text_concat = "TextConcat"
stable_name Opcode.bytes_concat = "BytesConcat"
stable_name Opcode.list_concat = "ListConcat"
stable_name Opcode.bytes_length = "BytesLength"
stable_name Opcode.text_length = "TextLength"
stable_name Opcode.text_equals = "TextEquals"
stable_name Opcode.keccak = "Keccak"
stable_name Opcode.blake2 = "Blake2"
stable_name Opcode.hmac = "Hmac"
stable_name Opcode.abi_encode = "AbiEncode"
stable_name Opcode.abi_decode = "AbiDecode"
stable_name Opcode.abi_pack = "AbiPack"
stable_name Opcode.fhe_encrypt_trivial = "FheEncryptTrivial"
stable_name Opcode.fhe_encrypt_fresh = "FheEncryptFresh"
stable_name Opcode.fhe_add = "FheAdd"
stable_name Opcode.fhe_sub = "FheSub"
stable_name Opcode.fhe_mul = "FheMul"
stable_name Opcode.fhe_cmp_eq = "FheCmpEq"
stable_name Opcode.fhe_cmp_ne = "FheCmpNe"
stable_name Opcode.fhe_cmp_lt = "FheCmpLt"
stable_name Opcode.fhe_cmp_le = "FheCmpLe"
stable_name Opcode.fhe_cmp_gt = "FheCmpGt"
stable_name Opcode.fhe_cmp_ge = "FheCmpGe"
stable_name Opcode.fhe_and = "FheAnd"
stable_name Opcode.fhe_or = "FheOr"
stable_name Opcode.fhe_not = "FheNot"
stable_name Opcode.fhe_select = "FheSelect"
stable_name Opcode.fhe_bootstrap = "FheBootstrap"
stable_name Opcode.fhe_ciphertext_hash = "FheCiphertextHash"
stable_name Opcode.zk_verify = "ZkVerify"
stable_name Opcode.zk_nullifier = "ZkNullifier"
stable_name Opcode.zk_proof_payload = "ZkProofPayload"
stable_name Opcode.vdf_eval = "VdfEval"
stable_name Opcode.vdf_verify = "VdfVerify"
stable_name Opcode.pq_verify_dilithium = "PqVerifyDilithium"
stable_name Opcode.pq_hybrid_verify = "PqHybridVerify"
stable_name Opcode.pq_rand = "PqRand"
stable_name Opcode.kyber_encrypt = "KyberEncrypt"
stable_name Opcode.kyber_decrypt = "KyberDecrypt"
stable_name Opcode.amnesia_begin = "AmnesiaBegin"
stable_name Opcode.amnesia_submit_share = "AmnesiaSubmitShare"
stable_name Opcode.amnesia_finalize = "AmnesiaFinalize"
stable_name Opcode.shamir_split = "ShamirSplit"
stable_name Opcode.shamir_reconstruct = "ShamirReconstruct"
stable_name Opcode.vdf_lock = "VdfLock"
stable_name Opcode.vdf_unlock = "VdfUnlock"
stable_name Opcode.destruction_commitment = "DestructionProof"
stable_name (Opcode.emit _) = "Emit"
stable_name Opcode.transfer = "Transfer"
stable_name Opcode.is_caller_sender = "IsCallerSender"
stable_name Opcode.caller_matches_principal = "CallerMatchesPrincipal"
stable_name (Opcode.builtin_predicate_call _) = "BuiltinPredicateCall"
stable_name Opcode.load_caller = "LoadCaller"
stable_name Opcode.load_now = "LoadNow"
stable_name Opcode.load_block_number = "LoadBlockNumber"
stable_name Opcode.load_block_timestamp = "LoadBlockTimestamp"
stable_name Opcode.load_msg_value = "LoadMsgValue"
stable_name Opcode.load_msg_sender = "LoadMsgSender"
stable_name Opcode.load_deployer = "LoadDeployer"
stable_name Opcode.load_this = "LoadThis"
stable_name Opcode.load_chain_id = "LoadChainId"
stable_name Opcode.load_zero_address = "LoadZeroAddress"
stable_name Opcode.reveal_decrypt = "RevealDecrypt"
stable_name Opcode.assert = "Assert"
stable_name Opcode.assert_encrypted = "AssertEncrypted"
stable_name (Opcode.coerce _) = "Coerce"
stable_name (Opcode.external_call _ _ _) = "ExternalCall"
