-- ===== src/Types/Operator/Privacy.antt =====
-- What the dispatch of crates/covenant-types/src/operator.rs does to the privacy of its operands: a
-- type is private where it is a ciphertext (crates/covenant-privacy/src/domain.rs).
use covenant_language.Base.{
  ◌≡◌, refl, subst, Bool, true, false, ◌&&◌, ◌||◌, Option, none, some, arith, &&-split,
}
use covenant_language.Types.Ty.{
  Ty, is_ciphertext, is_unknown, ty_eq, ty_eq_sound, ty_eq_refl, is_eq_comparable,
  is_ord_comparable,
}
use covenant_language.Types.Operator.{
  BinaryOp, OpResult, dispatch_binary, arithmetic, comparison, boolean, concatenation, bitwise,
  time_rules, amounts, both_encrypted, left_encrypted, right_encrypted, is_membership, plain,
  lift_left, lift_right, when, dispatch_unary, UnaryOp, ◌orelse◌, comparable, for_op,
  encrypted_rules, is_fhe_arithmetic, is_arithmetic, is_comparison, is_boolean, is_concat,
  is_bitwise,
}

-- The answer is a ciphertext exactly where an operand is one, an operand is lifted only to the type
-- of the other, and a plain operand beside a ciphertext is lifted.
abbrev pub Lifted : Ty → Ty → OpResult → Type 0
Lifted lhs rhs r =
    (is_ciphertext r.ty ≡ (is_ciphertext lhs || is_ciphertext rhs))
    × (r.lift_lhs ≡ true → rhs ≡ Ty.ciphertext lhs)
    × (r.lift_rhs ≡ true → lhs ≡ Ty.ciphertext rhs)
    × (is_ciphertext lhs ≡ false → is_ciphertext rhs ≡ true → r.lift_lhs ≡ true)
    × (is_ciphertext lhs ≡ true → is_ciphertext rhs ≡ false → r.lift_rhs ≡ true)

abbrev Answers : Ty → Ty → Option OpResult → Type 0
Answers lhs rhs none = Unit {0}
Answers lhs rhs (some r) = Lifted lhs rhs r

Answers-orelse :
    (a b : Ty) (r s : Option OpResult) → Answers a b r → Answers a b s → Answers a b (r orelse s)
Answers-orelse a b none s p q = q
Answers-orelse a b (some r) s p q = p

Answers-for_op :
    (a b : Ty) (t : Bool) (r : Option OpResult) → Answers a b r → Answers a b (for_op t r)
Answers-for_op a b true r p = p
Answers-for_op a b false r p = tt

Answers-when :
    (a b : Ty) (t : Bool) (r : OpResult) → (t ≡ true → Lifted a b r) → Answers a b (when t r)
Answers-when a b true r p = p refl
Answers-when a b false r p = tt

time_rules-Answers : (op : BinaryOp) (a b : Ty) → Answers a b (time_rules op a b)
unfolding time_rules is_ciphertext
time_rules-Answers BinaryOp.add Ty.time Ty.duration = ground arith
time_rules-Answers _ _ _ = ground arith

amounts-Answers : (a b : Ty) → Answers a b (amounts a b (plain Ty.amount))
unfolding amounts is_ciphertext
amounts-Answers Ty.amount Ty.amount = ground arith
amounts-Answers _ _ = tt

boolean-Answers : (a b : Ty) → Answers a b (boolean a b)
unfolding boolean is_ciphertext
boolean-Answers Ty.bool Ty.bool = ground arith
boolean-Answers (Ty.ciphertext Ty.bool) (Ty.ciphertext Ty.bool) = ground arith
boolean-Answers (Ty.ciphertext Ty.bool) Ty.bool = ground arith
boolean-Answers Ty.bool (Ty.ciphertext Ty.bool) = ground arith
boolean-Answers _ _ = tt

concatenation-Answers : (a b : Ty) → Answers a b (concatenation a b)
unfolding concatenation is_ciphertext
concatenation-Answers Ty.text Ty.text = ground arith
concatenation-Answers Ty.bytes Ty.bytes = ground arith
concatenation-Answers (Ty.list a) (Ty.list b) =
    Answers-when (Ty.list a) (Ty.list b) (ty_eq a b) (plain (Ty.list a)) (λ h. ground arith)
concatenation-Answers _ _ = tt

bitwise-Answers : (a b : Ty) → Answers a b (bitwise a b)
unfolding bitwise is_ciphertext
bitwise-Answers Ty.amount Ty.amount = ground arith
bitwise-Answers Ty.bytes Ty.bytes = ground arith
bitwise-Answers _ _ = tt

module _ (ok : Ty → Bool) (out : Ty → Ty)
    (private_out : (a : Ty) → is_ciphertext (out a) ≡ true) where
  both_encrypted-Answers : (a b : Ty) → Answers a b (both_encrypted a b ok out)
  unfolding both_encrypted is_ciphertext
  both_encrypted-Answers (Ty.ciphertext a) (Ty.ciphertext b) =
      Answers-when (Ty.ciphertext a) (Ty.ciphertext b) (ty_eq a b && ok a) (plain (out a))
        (λ h. ground (arith, private_out a))
  both_encrypted-Answers _ _ = tt

  left_encrypted-Answers : (a b : Ty) → Answers a b (left_encrypted a b ok out)
  unfolding left_encrypted is_ciphertext
  left_encrypted-Answers (Ty.ciphertext a) b =
      Answers-when (Ty.ciphertext a) b (ty_eq a b && ok a) (lift_right (out a))
        (λ h. ground (arith, private_out a, ty_eq_sound a b, &&-split (ty_eq a b) (ok a)))
  left_encrypted-Answers _ _ = tt

  right_encrypted-Answers : (a b : Ty) → Answers a b (right_encrypted a b ok out)
  unfolding right_encrypted is_ciphertext
  right_encrypted-Answers a (Ty.ciphertext b) =
      Answers-when a (Ty.ciphertext b) (ty_eq a b && ok b) (lift_left (out b))
        (λ h. ground (arith, private_out b, ty_eq_sound a b, &&-split (ty_eq a b) (ok b)))
  right_encrypted-Answers _ _ = tt

encrypted_rules-Answers :
    (ok : Ty → Bool) (out : Ty → Ty)
    → ((a : Ty) → is_ciphertext (out a) ≡ true)
    → (a b : Ty) → Answers a b (encrypted_rules a b ok out)
encrypted_rules-Answers ok out p a b =
    let rest = left_encrypted a b ok out orelse right_encrypted a b ok out in
    Answers-orelse a b (both_encrypted a b ok out) rest (both_encrypted-Answers ok out p a b) (
      Answers-orelse a b (left_encrypted a b ok out) (right_encrypted a b ok out)
        (left_encrypted-Answers ok out p a b) (right_encrypted-Answers ok out p a b))

ciphertext-private : (a : Ty) → is_ciphertext (Ty.ciphertext a) ≡ true
unfolding is_ciphertext
ciphertext-private a = refl

arithmetic-Answers : (op : BinaryOp) (a b : Ty) → Answers a b (arithmetic op a b)
unfolding arithmetic
arithmetic-Answers op a b =
    let fhe = encrypted_rules a b (λ _. is_fhe_arithmetic op) (λ t. Ty.ciphertext t) in
    Answers-orelse a b (amounts a b (plain Ty.amount)) (time_rules op a b orelse fhe)
      (amounts-Answers a b)
      (Answers-orelse a b (time_rules op a b) fhe (time_rules-Answers op a b)
        (encrypted_rules-Answers _ _ ciphertext-private a b))

-- What is compared in the open is no ciphertext.
comparable-plain : (op : BinaryOp) (a : Ty) → comparable op a ≡ true → is_ciphertext a ≡ false
unfolding is_eq_comparable is_ord_comparable is_ciphertext
comparable-plain op (Ty.ciphertext a) h = ground arith
comparable-plain op _ h = refl

plain_comparison :
    (op : BinaryOp) (a b : Ty) → (ty_eq a b && comparable op a) ≡ true → Lifted a b (plain Ty.bool)
unfolding is_ciphertext
plain_comparison op a b h =
    let (e, c) = &&-split (ty_eq a b) (comparable op a) h in
    let p = comparable-plain op a c in rw (← ty_eq_sound a b e) (ground (arith, p))

comparison-Answers : (op : BinaryOp) (a b : Ty) → Answers a b (comparison op a b)
unfolding comparison
comparison-Answers op a b =
    let test = ty_eq a b && comparable op a in
    Answers-orelse a b (when test (plain Ty.bool))
      (encrypted_rules a b (comparable op) (λ _. Ty.ciphertext Ty.bool))
      (Answers-when a b test (plain Ty.bool) (plain_comparison op a b))
      (encrypted_rules-Answers _ _ (λ _. ciphertext-private Ty.bool) a b)

-- The rules after the first one, as `dispatch_binary` tries them.
Answers-then :
    (a b : Ty) (t : Bool) (r s : Option OpResult)
    → Answers a b r
    → Answers a b s
    → Answers a b (for_op t r orelse s)
Answers-then a b t r s p q = Answers-orelse a b (for_op t r) s (Answers-for_op a b t r p) q

dispatch_binary-Answers :
    (op : BinaryOp) (a b : Ty)
    → is_unknown a ≡ false
    → is_unknown b ≡ false
    → is_membership op ≡ false
    → Answers a b (dispatch_binary op a b)
unfolding dispatch_binary
dispatch_binary-Answers op a b ua ub m =
    let bits = for_op (is_bitwise op) (bitwise a b) in
    let texts = for_op (is_concat op) (concatenation a b) orelse bits in
    let bools = for_op (is_boolean op) (boolean a b) orelse texts in
    let tests = for_op (is_comparison op) (comparison op a b) orelse bools in
    rw (ua, ub, m)
      (Answers-then a b (is_arithmetic op) (arithmetic op a b) tests (arithmetic-Answers op a b) (
        Answers-then a b (is_comparison op) (comparison op a b) bools (comparison-Answers op a b) (
          Answers-then a b (is_boolean op) (boolean a b) texts (boolean-Answers a b) (
            Answers-then a b (is_concat op) (concatenation a b) bits (concatenation-Answers a b)
              (Answers-for_op a b (is_bitwise op) (bitwise a b) (bitwise-Answers a b))))))

-- Where both operand types are known and the operator is not `in`, an answer of the dispatch is a
-- ciphertext exactly where an operand is one; it lifts an operand only where the other has the
-- ciphertext type of it, and always lifts a plain operand beside a ciphertext.
pub dispatch_binary-Lifted :
    (op : BinaryOp) (a b : Ty) (r : OpResult)
    → is_unknown a ≡ false
    → is_unknown b ≡ false
    → is_membership op ≡ false
    → dispatch_binary op a b ≡ some r
    → Lifted a b r
dispatch_binary-Lifted op a b r ua ub m e =
    subst (Answers a b) e (dispatch_binary-Answers op a b ua ub m)

-- Why `in` is left out: it compares ciphertexts and answers in the open.
in_answers_plain :
    (a : Ty)
    → dispatch_binary BinaryOp.is_in (Ty.ciphertext a) (Ty.list (Ty.ciphertext a))
      ≡ some (plain Ty.bool)
unfolding dispatch_binary ty_eq
in_answers_plain a = rw (ty_eq_refl a)

-- A unary operator answers with a ciphertext exactly where its operand is one.
pub dispatch_unary-is_ciphertext :
    (op : UnaryOp) (a t : Ty) → dispatch_unary op a ≡ some t → is_ciphertext t ≡ is_ciphertext a
unfolding dispatch_unary is_ciphertext
dispatch_unary-is_ciphertext UnaryOp.not (Ty.ciphertext Ty.bool) t h = ground arith
dispatch_unary-is_ciphertext _ _ t h = ground arith
