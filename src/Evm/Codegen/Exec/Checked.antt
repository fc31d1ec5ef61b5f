-- ===== src/Evm/Codegen/Exec/Checked.antt =====
-- The guarded operators of crates/covenant-evm-backend/src/codegen.rs on the machine: the code goes to the
-- label of reverts exactly where the operation on numbers has no result.
use covenant_language.Base.{
  ℕ, ◌+◌, ◌-◌, ◌^◌, ◌≤◌, ◌<◌, ◌≡◌, ◌≢◌, ◌⊎◌, inl, inr, refl, ap, sym, ◌∙◌, Bool, true, false, none,
  some, List, [], ◌∷◌, ◌++◌, arith, length, contains, ltb, Bool-cases, String,
}
use mathlib.Core.List.{append-nil, append_assoc}
use covenant_language.Ir.Ident.{Value, Span}
use covenant_language.Ir.Function.{IrFunction}
use covenant_language.Runtime.U256.{U256, is_zero, wrapping_add, wrapping_sub}
use covenant_language.Runtime.U256.Value.{
  IsWord, value, value_bound, value-wrapping_add, value-wrapping_sub, wrapping_add-IsWord,
}
use covenant_language.Runtime.U256.Bits.{from_bool, less}
use covenant_language.Runtime.U256.Order.{less_lem}
use covenant_language.Runtime.Evm.{CallEnv, Machine, Flow, Next}
use covenant_language.Runtime.Evm.Arms.{binary}
use covenant_language.Runtime.Evm.Jumpdests.{compute_jumpdests}
use covenant_language.Runtime.Evm.Step.{instruction}
use covenant_language.Evm.Asm.{AsmOp, Labels, find_label}
use covenant_language.Evm.Codegen.{
  Code, revert_label, revert_if, const_value, load_operand, mstore_result,
}
use covenant_language.Evm.Codegen.Arith.{
  binop, add_checked_code, sub_checked_code, div_guard, binop_div_guarded,
}
use covenant_language.Evm.Codegen.Exec.{exec}
use covenant_language.Evm.Codegen.Exec.Operands.{st, after}
use covenant_language.Evm.Codegen.Exec.Values.{
  HasSlot, slot_bytes_of, operand, stored, loaded, slot_bytes_of-loaded, operand-loaded, after_load,
  after_store,
}
use covenant_language.Evm.Codegen.Exec.Steps.{
  after-binary, after-unary, after_dup, after_jumpi_zero, after_jumpi,
}
use covenant_language.Evm.Codegen.Exec.Binops.{both_loaded, after_two_loads, after-binop}
use covenant_language.Evm.Codegen.Exec.Plain.{Yields, yields}

pub from_bool-true : (b : Bool) → b ≡ true → is_zero (from_bool b) ≡ false
unfolding is_zero
from_bool-true b e = rw e refl

pub from_bool-false : (b : Bool) → b ≡ false → is_zero (from_bool b) ≡ true
unfolding is_zero
from_bool-false b e = rw e refl

-- The place of a label, at which the bytecode has a jump destination.
pub record LabelAt (name : String) (code : List ℕ) (labels : Labels) (d : ℕ) : Type 0 where
  pub found : find_label name labels ≡ some d
  pub small : d < 2 ^ 32
  pub marked : contains d (compute_jumpdests code) ≡ true

abbrev pub RevertsAt : List ℕ → Labels → ℕ → Type 0
RevertsAt = LabelAt revert_label

module _ (keccak : List ℕ → List ℕ) (env : CallEnv) (code : List ℕ) (labels : Labels) where
  -- The code goes to `d`, and the host is as it was.
  abbrev pub GoesTo : ℕ → Code → Machine → Type 0
  GoesTo d ops m =
      (n : Machine) × (exec keccak env code labels ops m ≡ Flow.go (Next.goto d) n)
      × (n.host ≡ m.host)

  pub after-revert_if :
      (w : U256) (rest : Code) (s : List U256) (mem : List ℕ) (m : Machine)
      → is_zero w ≡ true
      → length s < 1023
      → after keccak env code labels (revert_if ++ rest) (w ∷ s) mem m
        ≡ after keccak env code labels rest s mem m
  after-revert_if w rest s mem m z h =
      after_jumpi_zero keccak env code labels revert_label w rest s mem m z h

  module _ (d : ℕ) (at : RevertsAt code labels d) where
    pub after_revert :
        (w : U256) (rest : Code) (s : List U256) (mem : List ℕ) (m : Machine)
        → is_zero w ≡ false
        → length s < 1023
        → after keccak env code labels (revert_if ++ rest) (w ∷ s) mem m
          ≡ Flow.go (Next.goto d) (st s mem m)
    after_revert w rest s mem m z h =
        after_jumpi keccak env code labels revert_label d w rest s mem m at.found at.small at.marked
          z h

    pub goes_to :
        (ops : Code) (s : List U256) (mem : List ℕ) (m : Machine)
        → after keccak env code labels (ops ++ []) m.stack m.memory m
          ≡ Flow.go (Next.goto d) (st s mem m)
        → GoesTo d ops m
    goes_to ops s mem m e =
        (st s mem m, ap (λ os. exec keccak env code labels os m) (sym (append-nil ops)) ∙ e, refl)

    module _ (f : IrFunction) (x y r v : Value) (m : Machine) (hr : HasSlot r) (hv : HasSlot v)
        (ne : v ≢ r) (room : length m.stack < 1020) where
      abbrev a : U256
      a = operand f x m.memory

      abbrev b : U256
      b = operand f y m.memory

      kept : slot_bytes_of v (loaded f x (both_loaded f x y m.memory)) ≡ slot_bytes_of v m.memory
      kept =
          slot_bytes_of-loaded f x v _
          ∙ slot_bytes_of-loaded f x v _
          ∙ slot_bytes_of-loaded f y v m.memory

      again : operand f x (both_loaded f x y m.memory) ≡ a
      again = operand-loaded f x x _ ∙ operand-loaded f y x m.memory

      -- Up to the check: the sum, and above it whether it is below the first operand.
      add_reaches :
          after keccak env code labels (add_checked_code f x y (some r) ++ []) m.stack m.memory m
          ≡ after keccak env code labels
              (revert_if ++ (mstore_result (some r) ++ []))
              (from_bool (less (wrapping_add a b) a) ∷ wrapping_add a b ∷ m.stack)
              (loaded f x (both_loaded f x y m.memory))
              m
      unfolding add_checked_code instruction
      add_reaches =
          rw (append_assoc, append_assoc, append_assoc)
            (after_two_loads keccak env code labels f x y _ m.stack m.memory m room
              ∙ after-binary keccak env code labels 0x01 wrapping_add refl _ _ _ m.stack _ m
                  (omega (arith, room))
              ∙ after_dup keccak env code labels _ _ m.stack _ m (omega (arith, room))
              ∙ after_load keccak env code labels f x _ _ _ m (omega (arith, room))
              ∙ rw again (
                  after-binary keccak env code labels 0x11 (λ p q. from_bool (less q p)) refl _ _ _
                    (wrapping_add a b ∷ m.stack) _ m (omega (arith, room))))

      stores :
          (ops : Code) (w : U256) (mem : List ℕ)
          → slot_bytes_of v mem ≡ slot_bytes_of v m.memory
          → after keccak env code labels (ops ++ []) m.stack m.memory m
            ≡ after keccak env code labels (mstore_result (some r) ++ []) (w ∷ m.stack) mem m
          → Yields keccak env code labels ops r w v m
      stores ops w mem same e =
          yields keccak env code labels ops r w v mem m hr hv ne same (
            e
            ∙ after_store keccak env code labels (some r) w [] m.stack mem m (omega (arith, room)))

      pub add_checked :
          IsWord a
          → IsWord b
          → let ops = add_checked_code f x y (some r) in
            ((value a + value b < 2 ^ 256)
              × (value (wrapping_add a b) ≡ value a + value b)
              × Yields keccak env code labels ops r (wrapping_add a b) v m)
            ⊎ ((2 ^ 256 ≤ value a + value b) × GoesTo d ops m)
      add_checked ha hb =
          let sum = value-wrapping_add a b in
          let below = less_lem (wrapping_add a b) a (wrapping_add-IsWord a b) ha in
          let ba = value_bound a ha in
          let bb = value_bound b hb in
          elim (Bool-cases (less (wrapping_add a b) a)) [
            | inl e ↦
                let lt : ltb (value (wrapping_add a b)) (value a) ≡ true = sym below ∙ e in
                inr (
                  ground (arith, lt, sum, ba, bb),
                  goes_to _ _ _ m (
                      add_reaches
                      ∙ after_revert _ _ _ _ m (from_bool-true _ e) (omega (arith, room))),
                )
            | inr e ↦
                let ge : ltb (value (wrapping_add a b)) (value a) ≡ false = sym below ∙ e in
                let fits : value a + value b < 2 ^ 256 = ground (arith, ge, sum, ba, bb) in
                inl (
                  fits,
                  omega (arith, sum, fits),
                  stores _ _ _ kept (
                      add_reaches
                      ∙ after-revert_if _ _ _ _ m (from_bool-false _ e) (omega (arith, room))),
                )
          ]

      -- Up to the check: whether the first operand is below the second.
      sub_reaches :
          (rest : Code)
          → after keccak env code labels
              (sub_checked_code f x y (some r) ++ rest)
              m.stack
              m.memory
              m
            ≡ after keccak env code labels
                (revert_if
                  ++ (load_operand f y
                      ++ (load_operand f x ++ (AsmOp.op 0x03 ∷ (mstore_result (some r) ++ rest)))))
                (from_bool (less a b) ∷ m.stack)
                (both_loaded f x y m.memory)
                m
      unfolding sub_checked_code instruction
      sub_reaches rest =
          rw (append_assoc, append_assoc, append_assoc (load_operand f y), append_assoc)
            (after_two_loads keccak env code labels f x y _ m.stack m.memory m room
              ∙ after-binary keccak env code labels 0x10 (λ p q. from_bool (less p q)) refl _ _ _
                  m.stack _ m (omega (arith, room)))

      abbrev twice : List ℕ
      twice = both_loaded f x y (both_loaded f x y m.memory)

      kept_twice : slot_bytes_of v twice ≡ slot_bytes_of v m.memory
      kept_twice =
          slot_bytes_of-loaded f x v _
          ∙ slot_bytes_of-loaded f y v _
          ∙ slot_bytes_of-loaded f x v _
          ∙ slot_bytes_of-loaded f y v m.memory

      again_second : operand f y (both_loaded f x y m.memory) ≡ b
      again_second = operand-loaded f x y _ ∙ operand-loaded f y y m.memory

      sub_computes :
          after keccak env code labels
            (load_operand f y
              ++ (load_operand f x ++ (AsmOp.op 0x03 ∷ (mstore_result (some r) ++ []))))
            m.stack
            (both_loaded f x y m.memory)
            m
          ≡ after keccak env code labels
              (mstore_result (some r) ++ [])
              (wrapping_sub a b ∷ m.stack)
              twice
              m
      unfolding instruction
      sub_computes =
          after_two_loads keccak env code labels f x y _ m.stack _ m room
          ∙ rw (again, again_second)
              (after-binary keccak env code labels 0x03 wrapping_sub refl _ _ _ m.stack _ m
                (omega (arith, room)))

      pub sub_checked :
          IsWord a
          → IsWord b
          → let ops = sub_checked_code f x y (some r) in
            ((value b ≤ value a)
              × (value (wrapping_sub a b) ≡ value a - value b)
              × Yields keccak env code labels ops r (wrapping_sub a b) v m)
            ⊎ ((value a < value b) × GoesTo d ops m)
      sub_checked ha hb =
          let below = less_lem a b ha hb in
          let diff = value-wrapping_sub a b hb in
          let ba = value_bound a ha in
          let bb = value_bound b hb in
          elim (Bool-cases (less a b)) [
            | inl e ↦
                let lt : ltb (value a) (value b) ≡ true = sym below ∙ e in
                inr (
                  ground (arith, lt),
                  goes_to _ _ _ m (
                      sub_reaches []
                      ∙ after_revert _ _ _ _ m (from_bool-true _ e) (omega (arith, room))),
                )
            | inr e ↦
                let ge : ltb (value a) (value b) ≡ false = sym below ∙ e in
                let fits : value b ≤ value a = ground (arith, ge) in
                inl (
                  fits,
                  omega (arith, diff, fits, ba, bb),
                  stores _ _ _ kept_twice (
                      sub_reaches []
                      ∙ after-revert_if _ _ _ _ m (from_bool-false _ e) (omega (arith, room))
                      ∙ sub_computes),
                )
          ]

      -- The guard of a divisor that is not a literal.
      div_guard_lem :
          (what : String) (span : Span)
          → const_value f y ≡ none
          → div_guard f span what y ≡ (load_operand f y ++ (AsmOp.op 0x15 ∷ revert_if), [])
      unfolding div_guard
      div_guard_lem what span e = rw (e, div_guard) refl

      guard_reaches :
          (rest : Code)
          → after keccak env code labels
              ((load_operand f y ++ (AsmOp.op 0x15 ∷ revert_if)) ++ rest)
              m.stack
              m.memory
              m
            ≡ after keccak env code labels
                (revert_if ++ rest)
                (from_bool (is_zero b) ∷ m.stack)
                (loaded f y m.memory)
                m
      unfolding instruction
      guard_reaches rest = rw append_assoc (
          after_load keccak env code labels f y _ m.stack m.memory m (omega (arith, room))
          ∙ after-unary keccak env code labels 0x15 (λ p. from_bool (is_zero p)) refl _ _ m.stack _
              m (omega (arith, room)))

      div_after :
          (b' : ℕ) (g : U256 → U256 → U256)
          → instruction keccak env code b' ≡ binary g
          → after keccak env code labels
              (binop f b' x y (some r) ++ [])
              m.stack
              (loaded f y m.memory)
              m
            ≡ after keccak env code labels [] m.stack
                (stored (some r) (g a b) (both_loaded f x y (loaded f y m.memory)))
                m
      div_after b' g e =
          after-binop keccak env code labels f b' g e x y (some r) [] m.stack _ m room
          ∙ rw (operand-loaded f y x m.memory, operand-loaded f y y m.memory) refl

      abbrev guarded : ℕ → Code
      guarded b' = (load_operand f y ++ (AsmOp.op 0x15 ∷ revert_if)) ++ binop f b' x y (some r)

      kept_guarded :
          slot_bytes_of v (both_loaded f x y (loaded f y m.memory)) ≡ slot_bytes_of v m.memory
      kept_guarded =
          slot_bytes_of-loaded f x v _
          ∙ slot_bytes_of-loaded f y v _
          ∙ slot_bytes_of-loaded f y v m.memory

      guarded_runs :
          (b' : ℕ) (g : U256 → U256 → U256)
          → instruction keccak env code b' ≡ binary g
          → ((is_zero b ≡ false) × Yields keccak env code labels (guarded b') r (g a b) v m)
            ⊎ ((is_zero b ≡ true) × GoesTo d (guarded b') m)
      guarded_runs b' g arm = elim (Bool-cases (is_zero b)) [
        | inl z ↦ inr (
          z,
          goes_to (guarded b') m.stack (loaded f y m.memory) m (
              rw (append_assoc (load_operand f y ++ (AsmOp.op 0x15 ∷ revert_if))) (
                guard_reaches (binop f b' x y (some r) ++ [])
                ∙ after_revert _ _ _ _ m (from_bool-true _ z) (omega (arith, room)))),
        )
        | inr z ↦ inl (
          z,
          yields keccak env code labels (guarded b') r (g a b) v
              (both_loaded f x y (loaded f y m.memory)) m hr hv ne kept_guarded
              (rw (append_assoc (load_operand f y ++ (AsmOp.op 0x15 ∷ revert_if))) (
                guard_reaches (binop f b' x y (some r) ++ [])
                ∙ after-revert_if _ _ _ _ m (from_bool-false _ z) (omega (arith, room))
                ∙ div_after b' g arm)),
        )
      ]

      pub div_checked :
          (b' : ℕ) (g : U256 → U256 → U256) (what : String) (span : Span)
          → const_value f y ≡ none
          → instruction keccak env code b' ≡ binary g
          → let emitted = binop_div_guarded f b' what span x y (some r) in
            (emitted.1 ≡ [])
            × (((is_zero b ≡ false) × Yields keccak env code labels emitted.0 r (g a b) v m)
                ⊎ ((is_zero b ≡ true) × GoesTo d emitted.0 m))
      unfolding binop_div_guarded
      div_checked b' g what span e arm =
          rw (div_guard_lem what span e) (refl, guarded_runs b' g arm)
