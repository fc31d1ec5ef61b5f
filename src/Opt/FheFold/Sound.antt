-- ===== src/Opt/FheFold/Sound.antt =====
-- The folding of crates/covenant-opt/src/fhe_fold.rs merges only encryptions with one constant, type
-- and privacy domain, and keeps what the function computes.
use covenant_language.Base.{◌≡◌, Bool, true, Option, some, String, lookup, All}
use covenant_language.Types.Ty.{Ty}
use covenant_language.Privacy.{PrivacyDomain}
use covenant_language.Ir.Ident.{Value}
use covenant_language.Ir.Function.{IrConstant, Instr, IrFunction}
use covenant_language.Opt.Fold.{as_const}
use covenant_language.Opt.Rewrite.{Replacements}
use covenant_language.Opt.Rewrite.View.{AllAgree}
use covenant_language.Opt.FheFold.{Key, Firsts, is_trivial_encryption, first, ty_text, privacy_text}

-- Where the texts of a constant, a type and a domain in use agree, so do these three.
abbrev pub TextsDistinguish :
    (IrConstant → String)
    → (Ty → String)
    → (PrivacyDomain → String)
    → (IrConstant → Option Ty → Option PrivacyDomain → Type 0)
    → Type 0
TextsDistinguish debug_constant debug_ty debug_privacy Used =
    (c d : IrConstant) (t u : Option Ty) (p q : Option PrivacyDomain)
    → Used c t p
    → Used d u q
    → debug_constant c ≡ debug_constant d
    → ty_text debug_constant debug_ty debug_privacy t
      ≡ ty_text debug_constant debug_ty debug_privacy u
    → privacy_text debug_constant debug_ty debug_privacy p
      ≡ privacy_text debug_constant debug_ty debug_privacy q
    → (c ≡ d) × (t ≡ u) × (p ≡ q)

module _ {D : Type 0} (debug_constant : IrConstant → String) (debug_ty : Ty → String)
    (debug_privacy : PrivacyDomain → String)
    (Used : IrConstant → Option Ty → Option PrivacyDomain → Type 0)
    (distinct : TextsDistinguish debug_constant debug_ty debug_privacy Used) (meaning : Value → D)
    (encryption : IrConstant → Bool → Option Ty → Option PrivacyDomain → D)
    (func : IrFunction) where
  -- A trivial encryption of a constant means what the constant, the lift mark, the result's type and
  -- its privacy domain determine, and these are in use.
  abbrev pub Encrypts : Instr → Type 0
  Encrypts i =
      (r operand : Value) (c : IrConstant)
      → is_trivial_encryption i.opcode ≡ true
      → i.result ≡ some r
      → first i.operands ≡ some operand
      → as_const func operand ≡ some c
      → Used c (lookup r func.value_types) (lookup r func.value_privacy)
        × (meaning r
            ≡ encryption c i.from_lift (lookup r func.value_types) (lookup r func.value_privacy))

  abbrev text_of_ty : Option Ty → String
  text_of_ty = ty_text debug_constant debug_ty debug_privacy

  abbrev text_of_privacy : Option PrivacyDomain → String
  text_of_privacy = privacy_text debug_constant debug_ty debug_privacy

  -- What a key stands for.
  abbrev Stands : Key → D → Type 0
  Stands k d =
      (c : IrConstant) × (t : Option Ty) × (p : Option PrivacyDomain) × (debug_constant c
        ≡ k.constant)
      × (text_of_ty t ≡ k.ty)
      × (text_of_privacy p ≡ k.privacy)
      × Used c t p
      × (d ≡ encryption c k.from_lift t p)

  abbrev AllEncrypt : Firsts → Type 0
  AllEncrypt = All (λ (e : Key × Value). Stands e.0 (meaning e.1))

  abbrev Good : Firsts × Replacements → Type 0
  Good next = AllEncrypt next.0 × AllAgree meaning next.1
