-- ===== src/Opt/Fold/Pass/Registry.antt =====
-- The registry of values in crates/covenant-opt/src/constant_fold.rs: what is registered stays so, and the
-- constants that the pass makes have ids of their own.
use covenant_language.Base.{
  ℕ, ◌<◌, ◌≡◌, refl, inl, inr, max, Bool-cases, none, some, List, [], ◌∷◌, ◌++◌, ◌==◌, ==-refl,
  arith, lookup,
}
use covenant_language.Ir.Ident.{Value}
use covenant_language.Ir.Function.{ValueInfo, IrFunction}
use covenant_language.Opt.Rewrite.{Replacements, apply_replacements}
use covenant_language.Opt.Fold.Pass.{max_value, fresh_value, fresh_const, Folded, allocate}

-- The value is registered.
abbrev pub IsRegistered : IrFunction → Value → Type 0
IsRegistered func t = (info : ValueInfo) × (lookup t func.values ≡ some info)

pub lookup-append_left :
    (t : Value) (info : ValueInfo) (xs ys : List (Value × ValueInfo))
    → lookup t xs ≡ some info
    → lookup t (xs ++ ys) ≡ some info
lookup-append_left t info [] ys h = cc
lookup-append_left t info ((v, i) ∷ xs) ys h = elim (Bool-cases (v == t)) [
  | inl e ↦ rw e (rw e at h)
  | inr e ↦ rw e (lookup-append_left t info xs ys (rw e at h))
]

pub lookup-allocate :
    (t : Value) (info : ValueInfo) (fs : List Folded) (func : IrFunction) (m : Replacements)
    → lookup t func.values ≡ some info
    → lookup t (allocate fs func m).0.values ≡ some info
unfolding allocate fresh_const
lookup-allocate t info [] func m h = h
lookup-allocate t info (f ∷ fs) func m h =
    lookup-allocate t info fs (fresh_const func f.constant f.ty f.privacy f.span).0
      ((f.result, fresh_value func) ∷ m) (lookup-append_left t info func.values _ h)

pub allocate-blocks :
    (fs : List Folded) (func : IrFunction) (m : Replacements)
    → (allocate fs func m).0.blocks ≡ func.blocks
unfolding allocate fresh_const
allocate-blocks [] func m = refl
allocate-blocks (f ∷ fs) func m =
    allocate-blocks fs (fresh_const func f.constant f.ty f.privacy f.span).0
      ((f.result, fresh_value func) ∷ m)

pub apply_replacements-values :
    (func : IrFunction) (m : Replacements) → (apply_replacements func m).0.values ≡ func.values
unfolding apply_replacements
apply_replacements-values func [] = refl
apply_replacements-values func (e ∷ m) = refl

pub lookup-above :
    (n : ℕ) (values : List (Value × ValueInfo)) → max_value values < n → lookup n values ≡ none
unfolding max_value
lookup-above n [] h = refl
lookup-above n ((v, info) ∷ values) h = ground (arith, lookup-above n values)

pub max_value-append_last :
    (values : List (Value × ValueInfo)) (v : Value) (info : ValueInfo)
    → max_value (values ++ (v, info) ∷ []) ≡ max (max_value values) v
unfolding max_value
max_value-append_last [] v info = omega arith
max_value-append_last ((w, i) ∷ values) v info = omega (arith, max_value-append_last values v info)

pub lookup-append_last :
    (values : List (Value × ValueInfo)) (v : Value) (info : ValueInfo)
    → lookup v values ≡ none
    → lookup v (values ++ (v, info) ∷ []) ≡ some info
lookup-append_last [] v info h = rw (==-refl v) refl
lookup-append_last ((w, i) ∷ values) v info h = elim (Bool-cases (w == v)) [
  | inl e ↦ cc (rw e at h)
  | inr e ↦ rw e (lookup-append_last values v info (rw e at h))
]
