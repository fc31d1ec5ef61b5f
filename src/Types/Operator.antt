-- ===== src/Types/Operator.antt =====
-- crates/covenant-types/src/operator.rs: the dispatch tables of the operators. A rule that does not
-- match falls through to the next one, as the `if let`s of the source do.
pub mod Privacy
pub mod Tests
use covenant_language.Base.{Bool, true, false, ◌&&◌, ◌||◌, Option, none, some, if◌then◌else◌}
use covenant_language.Types.Ty.{Ty, ty_eq, is_eq_comparable, is_ord_comparable, is_unknown}

-- crates/covenant-parser/src/ast.rs.
pub data BinaryOp : Type 0 where
  add sub mul div modulo eq not_eq lt lt_eq gt gt_eq and or bit_and bit_or bit_xor shl shr concat
        is_in :
      BinaryOp

pub data UnaryOp : Type 0 where
  not neg bit_not : UnaryOp

pub record OpResult : Type 0 where
  pub ty : Ty
  pub lift_lhs : Bool
  pub lift_rhs : Bool

abbrev pub plain : Ty → OpResult
plain t = record { ty = t; lift_lhs = false; lift_rhs = false }

abbrev pub lift_right : Ty → OpResult
lift_right t = record { ty = t; lift_lhs = false; lift_rhs = true }

abbrev pub lift_left : Ty → OpResult
lift_left t = record { ty = t; lift_lhs = true; lift_rhs = false }

-- A rule that answers ends the dispatch.
infixr 30 ◌orelse◌
abbrev pub ◌orelse◌ : Option OpResult → Option OpResult → Option OpResult
some r orelse k = some r
none orelse k = k

abbrev pub when : Bool → OpResult → Option OpResult
when true r = some r
when false r = none

abbrev pub is_arithmetic : BinaryOp → Bool
is_arithmetic BinaryOp.add = true
is_arithmetic BinaryOp.sub = true
is_arithmetic BinaryOp.mul = true
is_arithmetic BinaryOp.div = true
is_arithmetic BinaryOp.modulo = true
is_arithmetic _ = false

-- `Add | Sub | Mul`, the operations that exist on ciphertexts.
abbrev pub is_fhe_arithmetic : BinaryOp → Bool
is_fhe_arithmetic BinaryOp.add = true
is_fhe_arithmetic BinaryOp.sub = true
is_fhe_arithmetic BinaryOp.mul = true
is_fhe_arithmetic _ = false

abbrev pub is_eq_op : BinaryOp → Bool
is_eq_op BinaryOp.eq = true
is_eq_op BinaryOp.not_eq = true
is_eq_op _ = false

abbrev pub is_ord_op : BinaryOp → Bool
is_ord_op BinaryOp.lt = true
is_ord_op BinaryOp.lt_eq = true
is_ord_op BinaryOp.gt = true
is_ord_op BinaryOp.gt_eq = true
is_ord_op _ = false

abbrev pub is_comparison : BinaryOp → Bool
is_comparison op = is_eq_op op || is_ord_op op

abbrev pub is_boolean : BinaryOp → Bool
is_boolean BinaryOp.and = true
is_boolean BinaryOp.or = true
is_boolean _ = false

abbrev pub is_bitwise : BinaryOp → Bool
is_bitwise BinaryOp.bit_and = true
is_bitwise BinaryOp.bit_or = true
is_bitwise BinaryOp.bit_xor = true
is_bitwise BinaryOp.shl = true
is_bitwise BinaryOp.shr = true
is_bitwise _ = false

abbrev pub is_concat : BinaryOp → Bool
is_concat BinaryOp.concat = true
is_concat _ = false

abbrev pub is_membership : BinaryOp → Bool
is_membership BinaryOp.is_in = true
is_membership _ = false

-- The table of times and durations.
unfoldable pub time_rules : BinaryOp → Ty → Ty → Option OpResult
time_rules BinaryOp.add Ty.time Ty.duration = some (plain Ty.time)
time_rules BinaryOp.add Ty.duration Ty.time = some (plain Ty.time)
time_rules BinaryOp.sub Ty.time Ty.time = some (plain Ty.duration)
time_rules BinaryOp.sub Ty.time Ty.duration = some (plain Ty.time)
time_rules BinaryOp.add Ty.duration Ty.duration = some (plain Ty.duration)
time_rules BinaryOp.sub Ty.duration Ty.duration = some (plain Ty.duration)
time_rules BinaryOp.mul Ty.duration Ty.amount = some (plain Ty.duration)
time_rules BinaryOp.mul Ty.amount Ty.duration = some (plain Ty.duration)
time_rules BinaryOp.div Ty.duration Ty.duration = some (plain Ty.amount)
time_rules BinaryOp.div Ty.duration Ty.amount = some (plain Ty.duration)
time_rules _ _ _ = none

-- `if let (Amount, Amount)`.
unfoldable pub amounts : Ty → Ty → OpResult → Option OpResult
amounts Ty.amount Ty.amount r = some r
amounts _ _ r = none

-- The three rules on ciphertexts that share one shape: a test on the inner type, and the result
-- that the test gives.
unfoldable pub both_encrypted : Ty → Ty → (Ty → Bool) → (Ty → Ty) → Option OpResult
both_encrypted (Ty.ciphertext a) (Ty.ciphertext b) ok out = when (ty_eq a b && ok a) (plain (out a))
both_encrypted _ _ ok out = none

unfoldable pub left_encrypted : Ty → Ty → (Ty → Bool) → (Ty → Ty) → Option OpResult
left_encrypted (Ty.ciphertext a) b ok out = when (ty_eq a b && ok a) (lift_right (out a))
left_encrypted _ _ ok out = none

unfoldable pub right_encrypted : Ty → Ty → (Ty → Bool) → (Ty → Ty) → Option OpResult
right_encrypted a (Ty.ciphertext b) ok out = when (ty_eq a b && ok b) (lift_left (out b))
right_encrypted _ _ ok out = none

abbrev pub encrypted_rules : Ty → Ty → (Ty → Bool) → (Ty → Ty) → Option OpResult
encrypted_rules lhs rhs ok out =
    both_encrypted lhs rhs ok out
    orelse left_encrypted lhs rhs ok out
    orelse right_encrypted lhs rhs ok out

unfoldable pub arithmetic : BinaryOp → Ty → Ty → Option OpResult
unfolding time_rules amounts both_encrypted left_encrypted right_encrypted
arithmetic op lhs rhs =
    amounts lhs rhs (plain Ty.amount)
    orelse time_rules op lhs rhs
    orelse encrypted_rules lhs rhs (λ _. is_fhe_arithmetic op) (λ a. Ty.ciphertext a)

-- Equality or order, as the operator asks for.
abbrev pub comparable : BinaryOp → Ty → Bool
comparable op a = (is_eq_op op && is_eq_comparable a) || (is_ord_op op && is_ord_comparable a)

unfoldable pub comparison : BinaryOp → Ty → Ty → Option OpResult
unfolding both_encrypted left_encrypted right_encrypted
comparison op lhs rhs =
    when (ty_eq lhs rhs && comparable op lhs) (plain Ty.bool)
    orelse encrypted_rules lhs rhs (comparable op) (λ _. Ty.ciphertext Ty.bool)

unfoldable pub boolean : Ty → Ty → Option OpResult
boolean Ty.bool Ty.bool = some (plain Ty.bool)
boolean (Ty.ciphertext Ty.bool) (Ty.ciphertext Ty.bool) = some (plain (Ty.ciphertext Ty.bool))
boolean (Ty.ciphertext Ty.bool) Ty.bool = some (lift_right (Ty.ciphertext Ty.bool))
boolean Ty.bool (Ty.ciphertext Ty.bool) = some (lift_left (Ty.ciphertext Ty.bool))
boolean _ _ = none

unfoldable pub concatenation : Ty → Ty → Option OpResult
concatenation Ty.text Ty.text = some (plain Ty.text)
concatenation Ty.bytes Ty.bytes = some (plain Ty.bytes)
concatenation (Ty.list a) (Ty.list b) = when (ty_eq a b) (plain (Ty.list a))
concatenation _ _ = none

abbrev pub both_choices : Ty → Ty → Bool
both_choices (Ty.choice _) (Ty.choice _) = true
both_choices _ _ = false

unfoldable pub membership : Ty → Ty → Option OpResult
membership lhs (Ty.list el) =
    when (ty_eq lhs el || is_unknown el || both_choices lhs el) (plain Ty.bool)
membership _ _ = none

unfoldable pub bitwise : Ty → Ty → Option OpResult
bitwise Ty.amount Ty.amount = some (plain Ty.amount)
bitwise Ty.bytes Ty.bytes = some (plain Ty.bytes)
bitwise _ _ = none

-- The rules tried only for some operators.
abbrev pub for_op : Bool → Option OpResult → Option OpResult
for_op true r = r
for_op false r = none

unfoldable pub dispatch_binary : BinaryOp → Ty → Ty → Option OpResult
unfolding arithmetic comparison boolean concatenation membership bitwise
dispatch_binary op lhs rhs =
    if is_unknown lhs || is_unknown rhs
    then some (plain Ty.unknown)
    else (for_op (is_arithmetic op) (arithmetic op lhs rhs)
        orelse for_op (is_comparison op) (comparison op lhs rhs)
        orelse for_op (is_boolean op) (boolean lhs rhs)
        orelse for_op (is_concat op) (concatenation lhs rhs)
        orelse for_op (is_membership op) (membership lhs rhs)
        orelse for_op (is_bitwise op) (bitwise lhs rhs))

unfoldable pub dispatch_unary : UnaryOp → Ty → Option Ty
dispatch_unary _ Ty.unknown = some Ty.unknown
dispatch_unary UnaryOp.not Ty.bool = some Ty.bool
dispatch_unary UnaryOp.not (Ty.ciphertext Ty.bool) = some (Ty.ciphertext Ty.bool)
dispatch_unary UnaryOp.neg Ty.amount = some Ty.amount
dispatch_unary UnaryOp.neg Ty.duration = some Ty.duration
dispatch_unary UnaryOp.bit_not Ty.bytes = some Ty.bytes
dispatch_unary UnaryOp.bit_not Ty.amount = some Ty.amount
dispatch_unary _ _ = none
