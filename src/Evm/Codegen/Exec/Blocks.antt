-- ===== src/Evm/Codegen/Exec/Blocks.antt =====
-- Block arguments in crates/covenant-evm-backend/src/codegen.rs: each argument's word is copied in turn,
-- which is a copy of all of them at once as long as none is overwritten before it is read.
use covenant_language.Base.{
  ℕ, ◌<◌, ◌≡◌, ◌≢◌, refl, ap, sym, ◌∙◌, false, some, String, List, [], ◌∷◌, ◌++◌, arith, length,
  contains, inl, inr, Option-cases,
}
use mathlib.Core.List.{append_assoc, append-nil}
use covenant_language.Ir.Ident.{Value, BlockId}
use covenant_language.Ir.Function.{IrBlock, IrFunction, find_block}
use covenant_language.Runtime.U256.{U256}
use covenant_language.Runtime.U256.Bits.{to_be_bytes, from_be_bytes}
use covenant_language.Runtime.Evm.{CallEnv, Machine, Flow, Next}
use covenant_language.Evm.Asm.{Labels}
use covenant_language.Evm.Codegen.{Code, const_value, load_operand, mstore_result}
use covenant_language.Evm.Codegen.Terminators.{copy_args, pass_block_args}
use covenant_language.Evm.Codegen.Exec.{exec}
use covenant_language.Evm.Codegen.Exec.Operands.{st, after}
use covenant_language.Evm.Codegen.Exec.Values.{
  HasSlot, slot_bytes_of, operand, loaded, stored, slot_bytes_of-loaded, slot_bytes_of-stored,
  slot_bytes_of-others, after_load, after_store,
}

-- The memory after the arguments are copied in turn.
unfoldable copied : IrFunction → List Value → List Value → List ℕ → List ℕ
copied f (a ∷ args) (p ∷ params) mem =
    copied f args params (stored (some p) (operand f a mem) (loaded f a mem))
copied f _ _ mem = mem

-- No parameter occurs among the later parameters or the later arguments.
abbrev pub InOrder : List Value → List Value → Type 0
InOrder (a ∷ args) (p ∷ params) =
    HasSlot a
    × HasSlot p
    × (contains p params ≡ false)
    × (contains p args ≡ false)
    × InOrder args params
InOrder _ _ = Unit

-- Every parameter's place holds the word that its argument had in `mem`.
abbrev pub HoldsAll : IrFunction → List ℕ → List ℕ → List Value → List Value → Type 0
HoldsAll f mem later (a ∷ args) (p ∷ params) =
    (slot_bytes_of p later ≡ to_be_bytes (operand f a mem)) × HoldsAll f mem later args params
HoldsAll f mem later _ _ = Unit

distinct : (x y : ℕ) (xs : List ℕ) → contains x (y ∷ xs) ≡ false → x ≢ y
distinct x y xs h e = ground (arith, h, e)

later_ones : (x y : ℕ) (xs : List ℕ) → contains x (y ∷ xs) ≡ false → contains x xs ≡ false
later_ones x y xs h = ground (arith, h)

module _ (f : IrFunction) where
  -- A place that is no parameter's stays.
  copied_others :
      (args params : List Value) (mem : List ℕ) (v : Value)
      → InOrder args params
      → HasSlot v
      → contains v params ≡ false
      → slot_bytes_of v (copied f args params mem) ≡ slot_bytes_of v mem
  unfolding copied
  copied_others [] params mem v h hv out = refl
  copied_others (a ∷ args) [] mem v h hv out = refl
  copied_others (a ∷ args) (p ∷ params) mem v h hv out =
      copied_others args params _ v h.4 hv (later_ones v p params out)
      ∙ slot_bytes_of-others p v (operand f a mem) _ h.1 hv (distinct v p params out)
      ∙ slot_bytes_of-loaded f a v mem

  operand_same :
      (a : Value) (mem mem' : List ℕ)
      → slot_bytes_of a mem ≡ slot_bytes_of a mem'
      → operand f a mem ≡ operand f a mem'
  unfolding operand
  operand_same a mem mem' e = elim (Option-cases (const_value f a)) [
    | inl k ↦ rw (k, operand) (ap from_be_bytes e)
    | inr (c, k) ↦ rw (k, operand) refl
  ]

  -- Another memory in which the arguments have the same words.
  holds_before :
      (args params : List Value) (p : Value) (mem mem' later : List ℕ)
      → InOrder args params
      → contains p args ≡ false
      → ((a : Value) → HasSlot a → a ≢ p → operand f a mem' ≡ operand f a mem)
      → HoldsAll f mem' later args params
      → HoldsAll f mem later args params
  holds_before [] params p mem mem' later o out same h = tt
  holds_before (a ∷ args) [] p mem mem' later o out same h = tt
  holds_before (a ∷ args) (q ∷ params) p mem mem' later o out same h = (
    h.0 ∙ ap to_be_bytes (same a o.0 (λ e. distinct p a args out (sym e))),
    holds_before args params p mem mem' later o.4 (later_ones p a args out) same h.1,
  )

  copied-HoldsAll :
      (args params : List Value) (mem : List ℕ)
      → InOrder args params
      → HoldsAll f mem (copied f args params mem) args params
  unfolding copied
  copied-HoldsAll [] params mem o = tt
  copied-HoldsAll (a ∷ args) [] mem o = tt
  copied-HoldsAll (a ∷ args) (p ∷ params) mem o =
      let w = operand f a mem in
      let first = stored (some p) w (loaded f a mem) in
      (
        copied_others args params first p o.4 o.1 o.2 ∙ slot_bytes_of-stored p w _,
        holds_before args params p mem first _ o.4 o.3
            (λ b hb ne.
              operand_same b first mem
                (slot_bytes_of-others p b w _ o.1 hb ne ∙ slot_bytes_of-loaded f a b mem))
            (copied-HoldsAll args params first o.4),
      )

-- Of two machines: the same stack and host, the parameters as the arguments were, and `v` as it was.
pub record Passes (f : IrFunction) (args params : List Value) (v : Value) (m n : Machine)
    : Type 0 where
  pub same_stack : n.stack ≡ m.stack
  pub same_host : n.host ≡ m.host
  pub parameters : HoldsAll f m.memory n.memory args params
  pub other_bytes : slot_bytes_of v n.memory ≡ slot_bytes_of v m.memory

module _ (keccak : List ℕ → List ℕ) (env : CallEnv) (code : List ℕ) (labels : Labels)
    (show : ℕ → String) (f : IrFunction) where
  after_copies :
      (args params : List Value) (rest : Code) (s : List U256) (mem : List ℕ) (m : Machine)
      → length s < 1020
      → after keccak env code labels (copy_args show f args params ++ rest) s mem m
        ≡ after keccak env code labels rest s (copied f args params mem) m
  unfolding copy_args copied mstore_result
  after_copies [] params rest s mem m h = refl
  after_copies (a ∷ args) [] rest s mem m h = refl
  after_copies (a ∷ args) (p ∷ params) rest s mem m h =
      ap (λ os. after keccak env code labels os s mem m)
        (append_assoc (load_operand f a) (mstore_result (some p) ++ copy_args show f args params)
          rest)
      ∙ after_load keccak env code labels f a _ s mem m (omega (arith, h))
      ∙ after_store keccak env code labels (some p) (operand f a mem) _ s _ m (omega (arith, h))
      ∙ after_copies args params rest s _ m h

  -- The code that passes arguments to a block falls through with every parameter's place holding the
  -- word of its argument before the code, as a simultaneous copy does, and with the stack, the host
  -- and the place of every value that is no parameter as they were, provided that no parameter occurs
  -- among the later parameters or the later arguments.
  pub pass_block_args-Passes :
      (args : List Value) (target : BlockId) (b : IrBlock) (v : Value) (m : Machine)
      → find_block target f.blocks ≡ some b
      → InOrder args b.params
      → HasSlot v
      → contains v b.params ≡ false
      → length m.stack < 1020
      → (n : Machine) × (exec keccak env code labels (pass_block_args show f args target) m
          ≡ Flow.go Next.fall n)
        × Passes f args b.params v m n
  unfolding pass_block_args exec
  pass_block_args-Passes args target b v m found order hv out h = (
    st m.stack (copied f args b.params m.memory) m,
    rw (found, pass_block_args)
        (ap (λ os. exec keccak env code labels os m)
            (sym (append-nil (copy_args show f args b.params)))
          ∙ after_copies args b.params [] m.stack m.memory m h),
    record {
      same_stack = refl;
      same_host = refl;
      parameters = copied-HoldsAll f args b.params m.memory order;
      other_bytes = copied_others f args b.params m.memory v order hv out;
    },
  )
