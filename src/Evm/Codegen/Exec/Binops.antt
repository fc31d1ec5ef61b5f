-- ===== src/Evm/Codegen/Exec/Binops.antt =====
-- The operations on two operands of crates/covenant-evm-backend/src/codegen.rs on the machine.
use covenant_language.Base.{ℕ, ◌<◌, ◌≡◌, refl, ◌∙◌, Option, List, ◌∷◌, ◌++◌, arith, length}
use mathlib.Core.List.{append_assoc}
use covenant_language.Ir.Ident.{Value}
use covenant_language.Ir.Function.{IrFunction}
use covenant_language.Runtime.U256.{U256, zero_word, is_zero, wrapping_sub}
use covenant_language.Runtime.U256.Bits.{from_bool}
use covenant_language.Runtime.Evm.{CallEnv, Machine}
use covenant_language.Runtime.Evm.Arms.{binary, unary}
use covenant_language.Runtime.Evm.Step.{instruction}
use covenant_language.Evm.Asm.{Labels}
use covenant_language.Evm.Codegen.{Code, load_operand}
use covenant_language.Evm.Codegen.Arith.{
  binop, binop_shift, negated_binop, unary_op, signed_neg_code,
}
use covenant_language.Evm.Codegen.Exec.Operands.{after, after_push0}
use covenant_language.Evm.Codegen.Exec.Values.{
  operand, loaded, stored, operand-loaded, after_load, after_store,
}
use covenant_language.Evm.Codegen.Exec.Steps.{after-binary, after-unary}

-- The memory after the second and the first operand are loaded.
abbrev pub both_loaded : IrFunction → Value → Value → List ℕ → List ℕ
both_loaded f x y mem = loaded f x (loaded f y mem)

module _ (keccak : List ℕ → List ℕ) (env : CallEnv) (code : List ℕ) (labels : Labels)
    (f : IrFunction) where
  -- Both operands on the stack, the first one on top.
  pub after_two_loads :
      (x y : Value) (rest : Code) (s : List U256) (mem : List ℕ) (m : Machine)
      → length s < 1020
      → after keccak env code labels (load_operand f y ++ (load_operand f x ++ rest)) s mem m
        ≡ after keccak env code labels rest
            (operand f x mem ∷ operand f y mem ∷ s)
            (both_loaded f x y mem)
            m
  after_two_loads x y rest s mem m h =
      after_load keccak env code labels f y _ s mem m (omega (arith, h))
      ∙ after_load keccak env code labels f x rest _ _ m (omega (arith, h))
      ∙ rw (operand-loaded f y x mem) refl

  pub after-binop :
      (b : ℕ) (g : U256 → U256 → U256)
      → instruction keccak env code b ≡ binary g
      → (x y : Value) (r : Option Value) (rest : Code) (s : List U256) (mem : List ℕ) (m : Machine)
      → length s < 1020
      → after keccak env code labels (binop f b x y r ++ rest) s mem m
        ≡ after keccak env code labels rest s
            (stored r (g (operand f x mem) (operand f y mem)) (both_loaded f x y mem))
            m
  unfolding binop
  after-binop b g e x y r rest s mem m h =
      rw (append_assoc, append_assoc)
        (after_two_loads x y _ s mem m h
          ∙ after-binary keccak env code labels b g e _ _ _ s _ m (omega (arith, h))
          ∙ after_store keccak env code labels r _ rest s _ m (omega (arith, h)))

  pub after-binop_shift :
      (b : ℕ) (g : U256 → U256 → U256)
      → instruction keccak env code b ≡ binary g
      → (x y : Value) (r : Option Value) (rest : Code) (s : List U256) (mem : List ℕ) (m : Machine)
      → length s < 1020
      → after keccak env code labels (binop_shift f b x y r ++ rest) s mem m
        ≡ after keccak env code labels rest s
            (stored r (g (operand f y mem) (operand f x mem)) (both_loaded f y x mem))
            m
  unfolding binop_shift
  after-binop_shift b g e x y r rest s mem m h =
      rw (append_assoc, append_assoc)
        (after_two_loads y x _ s mem m h
          ∙ after-binary keccak env code labels b g e _ _ _ s _ m (omega (arith, h))
          ∙ after_store keccak env code labels r _ rest s _ m (omega (arith, h)))

  pub after-negated_binop :
      (b : ℕ) (g : U256 → U256 → U256)
      → instruction keccak env code b ≡ binary g
      → (x y : Value) (r : Option Value) (rest : Code) (s : List U256) (mem : List ℕ) (m : Machine)
      → length s < 1020
      → after keccak env code labels (negated_binop f b x y r ++ rest) s mem m
        ≡ after keccak env code labels rest s
            (stored r
              (from_bool (is_zero (g (operand f x mem) (operand f y mem))))
              (both_loaded f x y mem))
            m
  unfolding negated_binop instruction
  after-negated_binop b g e x y r rest s mem m h =
      rw (append_assoc, append_assoc)
        (after_two_loads x y _ s mem m h
          ∙ after-binary keccak env code labels b g e _ _ _ s _ m (omega (arith, h))
          ∙ after-unary keccak env code labels 0x15 (λ a. from_bool (is_zero a)) refl _ _ s _ m
              (omega (arith, h))
          ∙ after_store keccak env code labels r _ rest s _ m (omega (arith, h)))

  pub after-unary_op :
      (b : ℕ) (g : U256 → U256)
      → instruction keccak env code b ≡ unary g
      → (x : Value) (r : Option Value) (rest : Code) (s : List U256) (mem : List ℕ) (m : Machine)
      → length s < 1020
      → after keccak env code labels (unary_op f b x r ++ rest) s mem m
        ≡ after keccak env code labels rest s (stored r (g (operand f x mem)) (loaded f x mem)) m
  unfolding unary_op
  after-unary_op b g e x r rest s mem m h = rw append_assoc (
      after_load keccak env code labels f x _ s mem m (omega (arith, h))
      ∙ after-unary keccak env code labels b g e _ _ s _ m (omega (arith, h))
      ∙ after_store keccak env code labels r _ rest s _ m (omega (arith, h)))

  pub after_signed_neg :
      (x : Value) (r : Option Value) (rest : Code) (s : List U256) (mem : List ℕ) (m : Machine)
      → length s < 1020
      → after keccak env code labels (signed_neg_code f x r ++ rest) s mem m
        ≡ after keccak env code labels rest s
            (stored r (wrapping_sub zero_word (operand f x mem)) (loaded f x mem))
            m
  unfolding signed_neg_code instruction
  after_signed_neg x r rest s mem m h = rw append_assoc (
      after_load keccak env code labels f x _ s mem m (omega (arith, h))
      ∙ after_push0 keccak env code labels _ _ _ m (omega (arith, h))
      ∙ after-binary keccak env code labels 0x03 wrapping_sub refl _ _ _ s _ m (omega (arith, h))
      ∙ after_store keccak env code labels r _ rest s _ m (omega (arith, h)))
