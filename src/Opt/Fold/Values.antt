-- ===== src/Opt/Fold/Values.antt =====
-- What the operations yield at run time on constants, against what crates/covenant-opt/src/constant_fold.rs
-- folds them to.
use Prim.Native.Nat.{bit_and, bit_or, bit_xor}
use Prim.Native.String.{◌++◌ as text_append}
use covenant_language.Base.{
  ℕ, ◌+◌, arith, if◌then◌else◌, ◌*◌, ◌^◌, ◌<◌, ◌≡◌, refl, ap, sym, ◌∙◌, Bool, true, false, not,
  ◌&&◌, ◌||◌, Option, none, some, List, [], ◌∷◌, ◌++◌, ◌==◌, ltb, leb,
}
use covenant_language.Ir.Opcode.{Opcode}
use covenant_language.Ir.Function.{IrConstant}
use covenant_language.Opt.Effects.{checked_add, checked_sub, checked_mul}
use covenant_language.Opt.Fold.{
  checked_div, checked_rem, fold_shift_left, fold_shift_right, int2, cmp2, bool2, integer_of,
  fold_constants,
}
use covenant_language.Opt.Fold.Words.{word_op, InRange, int2-some, fold_constants-word_op}

-- The test of two words.
abbrev pub word_test : Opcode → Option (ℕ → ℕ → Bool)
word_test Opcode.eq = some (λ a b. a == b)
word_test Opcode.ne = some (λ a b. not (a == b))
word_test Opcode.lt = some (λ a b. ltb a b)
word_test Opcode.le = some (λ a b. leb a b)
word_test Opcode.gt = some (λ a b. ltb b a)
word_test Opcode.ge = some (λ a b. leb b a)
word_test _ = none

-- The opcodes of arithmetic on words.
abbrev pub is_arithmetic : Opcode → Bool
is_arithmetic Opcode.add = true
is_arithmetic Opcode.add_checked = true
is_arithmetic Opcode.sub = true
is_arithmetic Opcode.sub_checked = true
is_arithmetic Opcode.mul = true
is_arithmetic Opcode.mul_checked = true
is_arithmetic Opcode.div = true
is_arithmetic Opcode.modulo = true
is_arithmetic Opcode.bit_and = true
is_arithmetic Opcode.bit_or = true
is_arithmetic Opcode.bit_xor = true
is_arithmetic Opcode.shift_left = true
is_arithmetic Opcode.shift_right = true
is_arithmetic _ = false

-- Where the operation reverts.
unfoldable pub reverts : Opcode → ℕ → ℕ → Bool
reverts Opcode.add_checked a b = leb (2 ^ 256) (a + b)
reverts Opcode.sub_checked a b = ltb a b
reverts Opcode.mul_checked a b = leb (2 ^ 256) (a * b)
reverts Opcode.div a b = b == 0
reverts Opcode.modulo a b = b == 0
reverts _ a b = false

abbrev pub on_words : Opcode → Option (ℕ → ℕ → Bool) → ℕ → ℕ → Option IrConstant
on_words op (some test) a b = some (IrConstant.bool (test a b))
on_words op none a b =
    if is_arithmetic op && not (reverts op a b)
    then some (IrConstant.integer (word_op op a b))
    else none

-- The value of an operation on constants: words for two integers, and the plain meaning for truth
-- values, texts and bytes. It says nothing of other operands.
abbrev pub value_of : Opcode → List IrConstant → Option IrConstant
value_of op (IrConstant.integer a ∷ IrConstant.integer b ∷ []) = on_words op (word_test op) a b
value_of Opcode.logical_and (IrConstant.bool a ∷ IrConstant.bool b ∷ []) =
    some (IrConstant.bool (a && b))
value_of Opcode.logical_or (IrConstant.bool a ∷ IrConstant.bool b ∷ []) =
    some (IrConstant.bool (a || b))
value_of Opcode.logical_not (IrConstant.bool a ∷ []) = some (IrConstant.bool (not a))
value_of Opcode.text_concat (IrConstant.text a ∷ IrConstant.text b ∷ []) =
    some (IrConstant.text (text_append a b))
value_of Opcode.bytes_concat (IrConstant.hex a ∷ IrConstant.hex b ∷ []) =
    some (IrConstant.hex (a ++ b))
value_of _ _ = none

-- The integers are `u128`s, and a left shift of them stays one.
abbrev pub Fits : Opcode → List IrConstant → Type 0
Fits op (IrConstant.integer a ∷ IrConstant.integer b ∷ []) =
    (a < 2 ^ 128) × (b < 2 ^ 128) × InRange op a b
Fits _ _ = Unit

-- What folds does not revert.
folded-reverts :
    (op : Opcode) (a b r : ℕ)
    → fold_constants op (IrConstant.integer a ∷ IrConstant.integer b ∷ [])
      ≡ some (IrConstant.integer r)
    → reverts op a b ≡ false
unfolding fold_constants reverts checked_add checked_sub checked_mul checked_div checked_rem
folded-reverts Opcode.add_checked a b r h = ground (arith, int2-some checked_add a b r h)
folded-reverts Opcode.sub_checked a b r h = ground (arith, int2-some checked_sub a b r h)
folded-reverts Opcode.mul_checked a b r h = ground (arith, int2-some checked_mul a b r h)
folded-reverts Opcode.div a b r h = ground (arith, int2-some checked_div a b r h)
folded-reverts Opcode.modulo a b r h = ground (arith, int2-some checked_rem a b r h)
folded-reverts _ a b r h = refl

integer_of-some :
    (o : Option ℕ) (c : IrConstant) → integer_of o ≡ some c → (r : ℕ) × (c ≡ IrConstant.integer r)
integer_of-some none c e = cc
integer_of-some (some r) c e = (r, cc)

-- The folds to an integer.
int2-value_of :
    (op : Opcode) (g : ℕ → ℕ → Option ℕ) (cs : List IrConstant) (c : IrConstant)
    → fold_constants op cs ≡ int2 g cs
    → word_test op ≡ none
    → is_arithmetic op ≡ true
    → Fits op cs
    → fold_constants op cs ≡ some c
    → value_of op cs ≡ some c
unfolding int2
int2-value_of op g (IrConstant.integer a ∷ IrConstant.integer b ∷ []) c same plain able fits e =
    let (r, is_integer) = integer_of-some (g a b) c (sym same ∙ e) in
    let folds = e ∙ ap (λ d. some d) is_integer in
    let word : r ≡ word_op op a b = fold_constants-word_op op a b r fits.0 fits.1 fits.2 folds in
    rw (plain, able, folded-reverts op a b r folds)
      (ap (λ n. some (IrConstant.integer n)) (sym word) ∙ ap (λ d. some d) (sym is_integer))
int2-value_of op g _ c same plain able fits e = cc

cmp2-value_of :
    (op : Opcode) (test : ℕ → ℕ → Bool) (cs : List IrConstant) (c : IrConstant)
    → fold_constants op cs ≡ cmp2 test cs
    → word_test op ≡ some test
    → fold_constants op cs ≡ some c
    → value_of op cs ≡ some c
unfolding cmp2
cmp2-value_of op test (IrConstant.integer a ∷ IrConstant.integer b ∷ []) c same tests e =
    rw tests (sym same ∙ e)
cmp2-value_of op test _ c same tests e = cc

-- A fold is the value that the operation yields at run time.
pub fold_constants-value_of :
    (op : Opcode) (cs : List IrConstant) (c : IrConstant)
    → Fits op cs
    → fold_constants op cs ≡ some c
    → value_of op cs ≡ some c
unfolding fold_constants bool2
fold_constants-value_of Opcode.add cs c f e =
    int2-value_of Opcode.add checked_add cs c refl refl refl f e
fold_constants-value_of Opcode.add_checked cs c f e =
    int2-value_of Opcode.add_checked checked_add cs c refl refl refl f e
fold_constants-value_of Opcode.sub cs c f e =
    int2-value_of Opcode.sub checked_sub cs c refl refl refl f e
fold_constants-value_of Opcode.sub_checked cs c f e =
    int2-value_of Opcode.sub_checked checked_sub cs c refl refl refl f e
fold_constants-value_of Opcode.mul cs c f e =
    int2-value_of Opcode.mul checked_mul cs c refl refl refl f e
fold_constants-value_of Opcode.mul_checked cs c f e =
    int2-value_of Opcode.mul_checked checked_mul cs c refl refl refl f e
fold_constants-value_of Opcode.div cs c f e =
    int2-value_of Opcode.div checked_div cs c refl refl refl f e
fold_constants-value_of Opcode.modulo cs c f e =
    int2-value_of Opcode.modulo checked_rem cs c refl refl refl f e
fold_constants-value_of Opcode.bit_and cs c f e =
    int2-value_of Opcode.bit_and (λ a b. some (bit_and a b)) cs c refl refl refl f e
fold_constants-value_of Opcode.bit_or cs c f e =
    int2-value_of Opcode.bit_or (λ a b. some (bit_or a b)) cs c refl refl refl f e
fold_constants-value_of Opcode.bit_xor cs c f e =
    int2-value_of Opcode.bit_xor (λ a b. some (bit_xor a b)) cs c refl refl refl f e
fold_constants-value_of Opcode.shift_left cs c f e =
    int2-value_of Opcode.shift_left fold_shift_left cs c refl refl refl f e
fold_constants-value_of Opcode.shift_right cs c f e =
    int2-value_of Opcode.shift_right fold_shift_right cs c refl refl refl f e
fold_constants-value_of Opcode.eq cs c f e = cmp2-value_of Opcode.eq _ cs c refl refl e
fold_constants-value_of Opcode.ne cs c f e = cmp2-value_of Opcode.ne _ cs c refl refl e
fold_constants-value_of Opcode.lt cs c f e = cmp2-value_of Opcode.lt _ cs c refl refl e
fold_constants-value_of Opcode.le cs c f e = cmp2-value_of Opcode.le _ cs c refl refl e
fold_constants-value_of Opcode.gt cs c f e = cmp2-value_of Opcode.gt _ cs c refl refl e
fold_constants-value_of Opcode.ge cs c f e = cmp2-value_of Opcode.ge _ cs c refl refl e
fold_constants-value_of Opcode.logical_and (IrConstant.bool a ∷ IrConstant.bool b ∷ []) c f e = e
fold_constants-value_of Opcode.logical_and _ c f e = cc
fold_constants-value_of Opcode.logical_or (IrConstant.bool a ∷ IrConstant.bool b ∷ []) c f e = e
fold_constants-value_of Opcode.logical_or _ c f e = cc
fold_constants-value_of Opcode.logical_not (IrConstant.bool a ∷ []) c f e = e
fold_constants-value_of Opcode.logical_not _ c f e = cc
fold_constants-value_of Opcode.text_concat (IrConstant.text a ∷ IrConstant.text b ∷ []) c f e = e
fold_constants-value_of Opcode.text_concat _ c f e = cc
fold_constants-value_of Opcode.bytes_concat (IrConstant.hex a ∷ IrConstant.hex b ∷ []) c f e = e
fold_constants-value_of Opcode.bytes_concat _ c f e = cc
fold_constants-value_of _ cs c f e = cc
