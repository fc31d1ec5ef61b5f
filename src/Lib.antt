-- ===== src/Lib.antt =====
-- The Covenant compiler (Rust, crates/): contracts are parsed, resolved, type checked, lowered to an
-- SSA intermediate representation, optimised, and assembled to EVM code. This library models the
-- parts below as functions, and states what makes each of them correct.
--
-- The parts, in the order in which data flows through them:
--   * Types.Ty (crates/covenant-types/src/ty.rs): the types; `ty_eq` is the derived `==`.
--   * Types.Operator (crates/covenant-types/src/operator.rs): `dispatch_binary` and `dispatch_unary`,
--     with the rules as separate functions in the source's order. An answer names the type and which
--     operand is encrypted first.
--   * Privacy (crates/covenant-privacy/src/domain.rs): the domain of a type and the flow context.
--   * Ir (crates/covenant-ir/src): opcodes (opcode.rs), instructions and terminators (instr.rs), blocks,
--     functions and modules (block.rs, function.rs, module.rs), and the validator (validate.rs). The
--     newtyped `u32` ids are numbers.
--   * Opt.Effect and Opt.Effects (crates/covenant-opt/src/effects.rs): what may be deleted, and when.
--   * Opt.Dce (crates/covenant-opt/src/dce.rs): the elimination pass. It takes an IR function to an IR
--     function and says whether it changed; the pass manager validates the module after it.
--   * Opt.Rewrite (crates/covenant-opt/src/helpers.rs): the replacement of operands that the passes below
--     share, in Opt.Rewrite.View what an observer of a block sees of it, and in Opt.Rewrite.Order where
--     the two values of a replacement are defined.
--   * Opt.Fold (crates/covenant-opt/src/constant_fold.rs): the value that is folded for an operation on
--     constants, in Opt.Fold.Words and Opt.Fold.Values the value that it has at run time, and in
--     Opt.Fold.Pass the pass that registers folded values and replaces the operands by them.
--   * Opt.Cse and Opt.Coalesce (cse.rs and sload_coalesce.rs there): the passes that merge repeated
--     instructions and repeated storage accesses of a block. Opt.Cse.Eligible lists the opcodes whose
--     results their operands determine, and those that the pass merges though they do not.
--   * Opt.FheFold and Opt.Precompute (fhe_fold.rs and precompute.rs there): the merge of trivial
--     encryptions, and the folder with the warnings for annotated values.
--   * Opt.Manager (manager.rs there): the order of the passes, the rounds, and the validation between.
--   * Evm.Storage (crates/covenant-evm-backend/src/storage.rs): the slots of the fields of a module.
--   * Evm.Asm (crates/covenant-evm-backend/src/asm.rs): symbolic operations to bytes.
--   * Evm.Codegen (codegen.rs there): instructions, terminators and functions to symbolic operations.
--     Arith, Storage and Calls hold the sequences of one kind of opcode, Opcodes the match on the
--     opcode (`emit_instr`), Terminators the ends of blocks, Functions the functions and the dispatcher
--     (`emit_runtime`). Exec runs operations on the machine of Runtime.Evm one after the other, and
--     Bytecode relates that to the loop on the bytes which Evm.Asm lays out.
--   * Runtime.U256 and Runtime.Clock (crates/covenant-evm-runtime/src/u256.rs and clock.rs): the words
--     and the clock of the EVM that runs a contract's tests. Runtime.Bytes and Runtime.Address
--     (address.rs there): byte sequences and addresses.
--   * Runtime.Precompiles (precompiles.rs there): the mocked precompiles, a table from ciphertext handles
--     to plaintexts with operations on it.
--   * Runtime.Evm (evm.rs there): the host and the machine as a state monad; Arms and Step hold the arms
--     of the match and the loop, Jumpdests the scan for jump destinations, Keeps and Control what every
--     arm keeps and where it sends control. A call of a precompile is one step of the machine.
--   * Runtime.Chain (chain.rs there): deployments, calls and receipts; each call runs the interpreter on a
--     host that holds the storage of the called contract only, and commits it where it succeeds.
--   * Base holds the helpers that these share. The Tests and Witnesses modules hold runs and instances.
--
-- Conventions: a `HashSet` of ids is a list tested with `contains`; a `HashMap` is an association list
-- with the newest entry first; a machine integer is a number with its wrap written out; a panic is
-- `none`. The parameters `debug`, `debug_constant`, `debug_ty` and `debug_privacy` are the derived `Debug`
-- texts of an opcode, a constant, a type and a domain, `keccak` the hash of the sha3 crate, `hex` and
-- `utf8` the conversions of bytes and texts, and `show` the decimal text of a number, which the standard
-- library prints.
--
-- Fuel: the block walk of the elimination gets two rounds and three for each block, since a block
-- enqueues at most three ids, once. The liveness walk gets one round, one for each seed, and one for
-- each operand of the function, since a value pushes the operands of its definers once. The manager's
-- rounds are the source's own bound, the iterations of its configuration, and so are the rounds of the
-- interpreter, its step limit. A scan for jump destinations gets one round for each byte, since each
-- round goes on by one byte at least.
--
-- Not modelled: the lexer, the parser, the resolver, the checker's walk, the privacy analyzer, the IR
-- builder, the standard library, and the tools around the compiler (linter, language server, command
-- line): they are large walks over the syntax tree, tables, or input and output. Of the code generator,
-- the constructor and the checks of a whole module that only report are left out. What it looks up in
-- the ABI, the target, the configuration and the parts of a module that the model leaves out (errors,
-- events, kinds and annotations of functions) comes as an argument: `Backend` has selectors, helper
-- calls with their refusals, and event shapes, `Traits` what a function's annotations say, `Entry` a
-- function with its selector, and `error_selector` the selectors of the declared errors. A module's
-- choices and metadata are left out, since no modelled part reads them.
pub mod Base
pub mod Types
pub mod Privacy
pub mod Ir
pub mod Opt
pub mod Evm
pub mod Runtime
