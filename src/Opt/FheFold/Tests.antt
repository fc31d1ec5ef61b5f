-- ===== src/Opt/FheFold/Tests.antt =====
-- Instances of the laws of crates/covenant-opt/src/fhe_fold.rs at three encryptions of one constant.
use covenant_language.Base.{
  lookup, Bool, ℕ, zero, suc, ◌≡◌, ◌⊎◌, false, Option, none, some, String, [], ◌∷◌,
}
use covenant_language.Types.Ty.{Ty}
use covenant_language.Privacy.{PrivacyDomain}
use covenant_language.Ir.Ident.{Value}
use covenant_language.Ir.Opcode.{Opcode}
use covenant_language.Ir.Function.{IrConstant, IrFunction, Terminator}
use covenant_language.Opt.Manager.Tests.{no_span, instr, product, text_of_constant, text_of_privacy}
use covenant_language.Opt.FheFold as FheFold
use covenant_language.Opt.FheFold.{ty_text}

abbrev amount_ty : Ty
amount_ty = Ty.ciphertext Ty.amount

abbrev bool_ty : Ty
bool_ty = Ty.ciphertext Ty.bool

-- One constant encrypted three times, at two types.
abbrev encryptions : IrFunction
encryptions = record product {
  blocks =
      record {
        id = 0;
        params = [];
        instructions =
            instr Opcode.fhe_encrypt_trivial (0 ∷ []) 2
            ∷ instr Opcode.fhe_encrypt_trivial (0 ∷ []) 3
            ∷ instr Opcode.fhe_encrypt_trivial (0 ∷ []) 4
            ∷ [];
        terminator = Terminator.return (some 4);
        span = no_span;
      }
      ∷ [];
  value_types = (2, amount_ty) ∷ (3, bool_ty) ∷ (4, amount_ty) ∷ [];
}

abbrev encrypted_text : Ty → String
encrypted_text (Ty.ciphertext Ty.amount) = "Ciphertext(Amount)"
encrypted_text (Ty.ciphertext Ty.bool) = "Ciphertext(Bool)"
encrypted_text _ = "Other"

abbrev Used : IrConstant → Option Ty → Option PrivacyDomain → Type 0
Used c t p = (c ≡ IrConstant.integer 6) × ((t ≡ some amount_ty) ⊎ (t ≡ some bool_ty)) × (p ≡ none)

abbrev text_of_option : Option Ty → String
text_of_option = ty_text text_of_constant encrypted_text text_of_privacy

-- What a ciphertext of each type is, told from the others by a number.
abbrev encryption_of : IrConstant → Bool → Option Ty → Option PrivacyDomain → ℕ
encryption_of c lift (some (Ty.ciphertext Ty.amount)) p = 1
encryption_of c lift (some (Ty.ciphertext Ty.bool)) p = 2
encryption_of c lift t p = 0

abbrev ciphertext_of : Value → ℕ
ciphertext_of zero = 0
ciphertext_of (suc zero) = 0
ciphertext_of (suc (suc zero)) = 1
ciphertext_of (suc (suc (suc zero))) = 2
ciphertext_of (suc (suc (suc (suc v)))) = 1

abbrev EncryptsAt : Value → IrConstant → Type 0
EncryptsAt r c =
    Used c (lookup r encryptions.value_types) none
    × (ciphertext_of r ≡ encryption_of c false (lookup r encryptions.value_types) none)
