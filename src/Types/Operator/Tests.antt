-- ===== src/Types/Operator/Tests.antt =====
-- Instances of the laws of crates/covenant-types/src/operator.rs.
use covenant_language.Base.{◌≡◌, refl, some}
use covenant_language.Types.Ty.{Ty, ty_eq}
use covenant_language.Types.Operator.{BinaryOp, dispatch_binary, lift_right}
use covenant_language.Types.Operator.Privacy.{Lifted, dispatch_binary-Lifted}

abbrev secret : Ty
secret = Ty.ciphertext Ty.amount

sum_lifts : dispatch_binary BinaryOp.add secret Ty.amount ≡ some (lift_right secret)
unfolding dispatch_binary ty_eq
sum_lifts = refl

dispatch_binary-Lifted_example : Lifted secret Ty.amount (lift_right secret)
dispatch_binary-Lifted_example =
    dispatch_binary-Lifted BinaryOp.add secret Ty.amount (lift_right secret) refl refl refl
      sum_lifts
