-- ===== src/Evm/Codegen/Functions.antt =====
-- Functions and the dispatcher in crates/covenant-evm-backend/src/codegen.rs. What the source reads from parts
-- of the module that the model leaves out is in the records `Traits` and `Entry`.
use Prim.Native.String.{◌++◌ as text_append}
use covenant_language.Base.{
  ℕ, zero, suc, ◌+◌, ◌*◌, ◌%◌, ◌^◌, Bool, true, false, not, ◌&&◌, ◌||◌, Option, none, some, String,
  List, [], ◌∷◌, ◌++◌, ◌==◌, length, if◌then◌else◌,
}
use covenant_language.Types.Ty.{Ty}
use covenant_language.Ir.Ident.{Span}
use covenant_language.Ir.Function.{Instr, Terminator, IrBlock, IrParam, IrFunction}
use covenant_language.Ir.Module.{IrModule}
use covenant_language.Evm.Asm.{AsmOp, ◌>>=◌}
use covenant_language.Evm.Storage.{reentrant_lock_slot}
use covenant_language.Evm.Codegen.{
  CodegenDiagnostic, Code, Emission, unreported, number, value_memory_offset, revert_label,
  revert_if,
}
use covenant_language.Evm.Codegen.Calls.{is_static_abi_ty}
use covenant_language.Evm.Codegen.Opcodes.{Backend, emit_instr, trap}
use covenant_language.Evm.Codegen.Terminators.{empty_revert, block_label, emit_terminator}

-- A word that is not the encoding of its type reverts; it stays on the stack.
unfoldable pub emit_param_canonicality_check : Ty → Code
emit_param_canonicality_check Ty.bool =
    AsmOp.op 0x80
    ∷ AsmOp.op 0x15
    ∷ AsmOp.op 0x15
    ∷ AsmOp.op 0x81
    ∷ AsmOp.op 0x14
    ∷ AsmOp.op 0x15
    ∷ revert_if
emit_param_canonicality_check Ty.address = AsmOp.op 0x80 ∷ number 160 ∷ AsmOp.op 0x1c ∷ revert_if
emit_param_canonicality_check _ = []

-- The words of the parameters, from parameter `i` on.
unfoldable pub copy_params : ℕ → List IrParam → Code
unfolding emit_param_canonicality_check value_memory_offset is_static_abi_ty
copy_params i [] = []
copy_params i (p ∷ ps) =
    let rest = copy_params (i + 1) ps in
    if is_static_abi_ty p.ty
    then (number ((4 + i * 32) % 2 ^ 32)
        ∷ AsmOp.op 0x35
        ∷ (emit_param_canonicality_check p.ty
            ++ (number (value_memory_offset p.value) ∷ AsmOp.op 0x52 ∷ rest)))
    else rest

abbrev pub size_check : List IrParam → Code
size_check [] = []
size_check (p ∷ ps) =
    number ((4 + length (p ∷ ps) * 32) % 2 ^ 32) ∷ AsmOp.op 0x36 ∷ AsmOp.op 0x10 ∷ revert_if

unfoldable pub emit_param_prelude : List IrParam → Code
unfolding copy_params
emit_param_prelude ps = size_check ps ++ copy_params 0 ps

-- Continue at a label where the word is zero, and revert where it is not.
abbrev pub unless_set : String → Code
unless_set ok =
    AsmOp.op 0x15
    ∷ AsmOp.push_label ok
    ∷ AsmOp.op 0x57
    ∷ (empty_revert ++ AsmOp.label_def ok ∷ AsmOp.push_bytes (1 ∷ []) ∷ [])

-- `slot` is the hash of the module's name behind a prefix.
unfoldable pub emit_initializer_guard : List ℕ → String → Code
emit_initializer_guard slot fn_name =
    (AsmOp.push_bytes slot
      ∷ AsmOp.op 0x54
      ∷ unless_set (text_append "__init_ok_" (text_append fn_name "__")))
    ++ (AsmOp.push_bytes slot ∷ AsmOp.op 0x55 ∷ [])

unfoldable pub emit_reentrant_lock_acquire : String → Code
emit_reentrant_lock_acquire fn_name =
    (number reentrant_lock_slot
      ∷ AsmOp.op 0x54
      ∷ unless_set (text_append "__nr_ok_" (text_append fn_name "__")))
    ++ (number reentrant_lock_slot ∷ AsmOp.op 0x55 ∷ [])

unfoldable pub emit_reentrant_lock_release : Code
emit_reentrant_lock_release = AsmOp.push0 ∷ number reentrant_lock_slot ∷ AsmOp.op 0x55 ∷ []

-- What the function's annotations, guards, qualifiers and kind say.
pub record Traits : Type 0 where
  pub is_payable : Bool
  pub is_initializer : Bool
  pub is_non_reentrant : Bool
  pub only_caller_guards : ℕ
  pub is_vdf_locked : Bool

abbrev pub then_emit : Emission → Emission → Emission
then_emit a b = (a.0 ++ b.0, a.1 ++ b.1)

abbrev pub emit_when : Bool → Code → Code
emit_when true code = code
emit_when false code = []

abbrev pub is_return : Terminator → Bool
is_return (Terminator.return _) = true
is_return _ = false

abbrev pub is_pq_key : Ty → Bool
is_pq_key Ty.pq_key = true
is_pq_key _ = false

abbrev pub takes_pq_key : List IrParam → Bool
takes_pq_key [] = false
takes_pq_key (p ∷ ps) = is_pq_key p.ty || takes_pq_key ps

abbrev pub returns_pq_key : Option Ty → Bool
returns_pq_key (some t) = is_pq_key t
returns_pq_key none = false

abbrev pub noop_warnings : ℕ → Span → List CodegenDiagnostic
noop_warnings zero span = []
noop_warnings (suc n) span = CodegenDiagnostic.warn_only_caller_noop span ∷ noop_warnings n span

module _ (backend : Backend) (utf8 : String → List ℕ) (error_selector : String → Option (List ℕ))
    (flag_slot : List ℕ) (m : IrModule) where
  unfoldable pub emit_instrs : IrFunction → List Instr → Option Emission
  unfolding emit_instr
  emit_instrs f [] = some (unreported [])
  emit_instrs f (i ∷ is) = do
    first ← emit_instr backend m f i
    rest ← emit_instrs f is
    some (then_emit first rest)

  -- What stands at the head of the entry block.
  unfoldable pub entry_code : Traits → IrFunction → Code
  unfolding emit_param_prelude emit_initializer_guard emit_reentrant_lock_acquire
  entry_code t f =
      emit_when (not t.is_payable) (AsmOp.op 0x34 ∷ revert_if)
      ++ (emit_param_prelude f.params
          ++ (emit_when t.is_initializer (emit_initializer_guard flag_slot f.name.name)
              ++ emit_when t.is_non_reentrant (emit_reentrant_lock_acquire f.name.name)))

  unfoldable pub emit_block : Traits → IrFunction → IrBlock → Option Emission
  unfolding entry_code emit_instrs emit_reentrant_lock_release emit_terminator block_label
  emit_block t f b = do
    body ← emit_instrs f b.instructions
    some (
        then_emit
          (unreported (
            AsmOp.label_def (block_label backend.show f b.id)
            ∷ emit_when (b.id == f.entry) (entry_code t f)))
          (then_emit body (
            then_emit
              (unreported (
                emit_when (t.is_non_reentrant && is_return b.terminator)
                  emit_reentrant_lock_release))
              (emit_terminator backend.show f utf8 error_selector b.span b.terminator))))

  unfoldable pub emit_blocks : Traits → IrFunction → List IrBlock → Option Emission
  unfolding emit_block
  emit_blocks t f [] = some (unreported [])
  emit_blocks t f (b ∷ bs) = do
    first ← emit_block t f b
    rest ← emit_blocks t f bs
    some (then_emit first rest)

  abbrev pub function_warnings : Traits → IrFunction → List CodegenDiagnostic
  function_warnings t f =
      noop_warnings t.only_caller_guards f.name.span
      ++ (if t.is_vdf_locked
          then CodegenDiagnostic.unlowered_vdf_qualifier f.name.span ∷ []
          else [])

  unfoldable pub emit_function : Traits → IrFunction → Option Emission
  unfolding emit_blocks block_label
  emit_function t f =
      if takes_pq_key f.params || returns_pq_key f.returns
      then some (
        AsmOp.label_def (block_label backend.show f f.entry) ∷ trap,
        function_warnings t f
            ++ CodegenDiagnostic.pq_key_abi_static_dynamic_mismatch f.name.span f.name.name ∷ [],
      )
      else (do body ← emit_blocks t f f.blocks; some (then_emit ([], function_warnings t f) body))

-- An emitted function, its traits, and its selector if there is one under its name.
pub record Entry : Type 0 where
  pub function : IrFunction
  pub traits : Traits
  pub selector : Option (List ℕ)

abbrev pub function_label : IrFunction → String
function_label f = text_append "fn_" f.name.name

-- One comparison of the dispatcher.
unfoldable pub dispatch_entry : Entry → Code
dispatch_entry e = elim e.selector [
  | none ↦ []
  | some sel ↦
      AsmOp.op 0x80
      ∷ AsmOp.push_bytes sel
      ∷ AsmOp.op 0x14
      ∷ AsmOp.push_label (function_label e.function)
      ∷ AsmOp.op 0x57
      ∷ []
]

unfoldable pub dispatch_all : List Entry → Code
unfolding dispatch_entry
dispatch_all [] = []
dispatch_all (e ∷ es) = dispatch_entry e ++ dispatch_all es

module _ (backend : Backend) (utf8 : String → List ℕ) (error_selector : String → Option (List ℕ))
    (flag_slot : List ℕ) (m : IrModule) where
  unfoldable pub emit_bodies : List Entry → Option Emission
  unfolding emit_function
  emit_bodies [] = some (unreported [])
  emit_bodies (e ∷ es) = do
    first ← emit_function backend utf8 error_selector flag_slot m e.traits e.function
    rest ← emit_bodies es
    some (then_emit (AsmOp.label_def (function_label e.function) ∷ first.0, first.1) rest)

  -- The dispatcher, its fallback, the functions, and the label of reverts.
  unfoldable pub emit_runtime : List Entry → Option Emission
  unfolding dispatch_all emit_bodies
  emit_runtime es = do
    bodies ← emit_bodies es
    some (
        then_emit
          (unreported (
            (AsmOp.push0 ∷ AsmOp.op 0x35 ∷ number 0xe0 ∷ AsmOp.op 0x1c ∷ dispatch_all es)
            ++ empty_revert))
          (then_emit bodies (unreported (AsmOp.label_def revert_label ∷ empty_revert))))
