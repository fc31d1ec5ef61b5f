-- ===== src/Evm/Codegen/Bytecode/Runs.antt =====
-- Whole pieces of the code of crates/covenant-evm-backend/src/codegen.rs, laid out as bytes by
-- crates/covenant-evm-backend/src/asm.rs, in the loop of crates/covenant-evm-runtime/src/evm.rs.
use covenant_language.Base.{
  ℕ, zero, suc, ◌+◌, ◌-◌, ◌≤◌, ◌≡◌, refl, ap, sym, ◌∙◌, true, List, [], ◌∷◌, ◌++◌, arith, length,
  drop, ltb, All, length-append,
}
use mathlib.Core.List.{append_assoc}
use covenant_language.Runtime.Bytes.{drop-append}
use covenant_language.Runtime.Evm.{CallEnv, Machine, Flow, Op, Next, bind_flow}
use covenant_language.Runtime.Evm.Step.{run}
use covenant_language.Evm.Asm.{AsmOp, op_len, Labels}
use covenant_language.Evm.Asm.Image.{image, image_all, total_len, length-image}
use covenant_language.Evm.Codegen.{Code}
use covenant_language.Evm.Codegen.Exec.{op_arm, onward, exec}
use covenant_language.Evm.Codegen.Bytecode.{IsWhole, IsPlaced, placed, step-image}
use covenant_language.Evm.Codegen.Bytecode.Pc.{
  at_pc, move, IsPcFree, push-IsPcFree, is_local, local-IsPcFree,
}

pub length-drop : (n : ℕ) (bs : List ℕ) → length (drop n bs) ≡ length bs - n
length-drop zero bs = omega arith
length-drop (suc n) [] = omega arith
length-drop (suc n) (b ∷ bs) = omega (arith, length-drop n bs)

drop_nothing : (n : ℕ) → drop {A = ℕ} n [] ≡ []
drop_nothing zero = refl
drop_nothing (suc n) = refl

pub drop-drop : (n k j : ℕ) (bs : List ℕ) → j ≡ n + k → drop j bs ≡ drop k (drop n bs)
drop-drop zero k j bs e = let same : j ≡ k = omega (arith, e) in ap (λ i. drop i bs) same
drop-drop (suc n) k j [] e = drop_nothing j ∙ sym (drop_nothing k)
drop-drop (suc n) k zero (b ∷ bs) e = ground (arith, e)
drop-drop (suc n) k (suc j) (b ∷ bs) e = drop-drop n k j bs (omega (arith, e))

pub op_len_pos : (o : AsmOp) → 1 ≤ op_len o
unfolding op_len
op_len_pos (AsmOp.op b) = omega arith
op_len_pos (AsmOp.push_bytes bs) = omega arith
op_len_pos AsmOp.push0 = omega arith
op_len_pos (AsmOp.label_def name) = omega arith
op_len_pos (AsmOp.push_label name) = omega arith

module _ (keccak : List ℕ → List ℕ) (env : CallEnv) (code : List ℕ) (labels : Labels) where
  -- An operation of plain computation, memory, storage or jumps, laid out in whole.
  abbrev pub IsLocal : AsmOp → Type 0
  IsLocal (AsmOp.op b) = is_local keccak env code b ≡ true
  IsLocal _ = Unit {0}

  abbrev pub IsPlain : AsmOp → Type 0
  IsPlain o = IsWhole o × IsPlaced keccak env labels o × IsLocal o

  op_arm-IsPcFree : (o : AsmOp) → IsLocal o → IsPcFree (op_arm keccak env code labels o)
  op_arm-IsPcFree (AsmOp.op b) h = local-IsPcFree keccak env code b h
  op_arm-IsPcFree (AsmOp.push_bytes bs) h = push-IsPcFree _
  op_arm-IsPcFree AsmOp.push0 h = push-IsPcFree _
  op_arm-IsPcFree (AsmOp.label_def name) h = record { anywhere = λ p m. refl }
  op_arm-IsPcFree (AsmOp.push_label name) h = push-IsPcFree _

  bind_move :
      (p : ℕ) (f : Flow Next) (k : Op Next)
      → IsPcFree k
      → bind_flow (move p f) (onward keccak env code labels k)
        ≡ move p (bind_flow f (onward keccak env code labels k))
  bind_move p (Flow.go Next.fall m) k h = h.anywhere p m
  bind_move p (Flow.go (Next.goto d) m) k h = refl
  bind_move p (Flow.halt r m) k h = refl
  bind_move p Flow.panic k h = refl

  exec-IsPcFree : (ops : Code) → All IsPlain ops → IsPcFree (exec keccak env code labels ops)
  unfolding exec
  exec-IsPcFree [] h = record { anywhere = λ p m. refl }
  exec-IsPcFree (o ∷ os) h = record {
    anywhere = λ p m.
        ap (λ f. bind_flow f (onward keccak env code labels (exec keccak env code labels os)))
          ((op_arm-IsPcFree o h.0.2).anywhere p m)
        ∙ bind_move p (op_arm keccak env code labels o m) _ (exec-IsPcFree os h.1);
  }

  abbrev machine_or : Machine → Flow Next → Machine
  machine_or d (Flow.go _ m) = m
  machine_or d _ = d

  abbrev next_or : Next → Flow Next → Next
  next_or d (Flow.go next _) = next
  next_or d _ = d

  -- Where control is after `n` bytes from `pc` on.
  abbrev pub landing : ℕ → Next → ℕ
  landing target Next.fall = target
  landing target (Next.goto d) = d

  -- What a piece of code that ends does at its first operation.
  data Splits (o : AsmOp) (os : Code) (m n : Machine) (next : Next) : Type 0 where
    falls :
        (k : Machine)
        → op_arm keccak env code labels o m ≡ Flow.go Next.fall k
        → exec keccak env code labels os k ≡ Flow.go next n
        → Splits o os m n next
    jumps :
        (d : ℕ)
        → op_arm keccak env code labels o m ≡ Flow.go (Next.goto d) n
        → next ≡ Next.goto d
        → Splits o os m n next

  splits :
      (o : AsmOp) (os : Code) (m n : Machine) (next : Next)
      → (f : Flow Next) → op_arm keccak env code labels o m ≡ f
      → bind_flow f (onward keccak env code labels (exec keccak env code labels os))
        ≡ Flow.go next n
      → Splits o os m n next
  splits o os m n next (Flow.go Next.fall k) e g = Splits.falls k e g
  splits o os m n next (Flow.go (Next.goto d) k) e g =
      Splits.jumps d (e ∙ ap (λ q. Flow.go (Next.goto d) (machine_or k q)) g)
        (sym (ap (next_or Next.fall) g))
  splits o os m n next (Flow.halt r k) e g = cc
  splits o os m n next Flow.panic e g = cc

  -- An operation that falls through leaves the pc, which the loop moves.
  same_pc :
      (o : AsmOp) (m k : Machine)
      → IsLocal o
      → op_arm keccak env code labels o m ≡ Flow.go Next.fall k
      → k.pc ≡ m.pc
  same_pc o m k h e =
      ap (λ q. (machine_or k q).pc)
        (sym e ∙ (op_arm-IsPcFree o h).anywhere m.pc m ∙ ap (move m.pc) e)

  one_round :
      (o : AsmOp) (rest : List ℕ) (m : Machine) (left : ℕ)
      → drop m.pc code ≡ image labels o ++ rest
      → IsPlain o
      → run keccak env code (suc left) m
        ≡ bind_flow
            (bind_flow (op_arm keccak env code labels o m) (placed (op_len o)))
            (λ _. run keccak env code left)
  unfolding run
  one_round o rest m left at h =
      let inside : ltb m.pc (length code) ≡ true = ground (
        arith,
        sym (length-drop m.pc code) ∙ ap length at,
        length-append (image labels o) rest,
        length-image labels o,
        op_len_pos o,
      ) in
      rw (inside, run)
        (ap (λ f. bind_flow f (λ _. run keccak env code left))
          (step-image keccak env labels code o rest m at h.0 h.1))

  first_round :
      (o : AsmOp) (os : Code) (rest : List ℕ) (m : Machine) (left : ℕ)
      → drop m.pc code ≡ image_all labels (o ∷ os) ++ rest
      → IsPlain o
      → run keccak env code (suc left) m
        ≡ bind_flow
            (bind_flow (op_arm keccak env code labels o m) (placed (op_len o)))
            (λ _. run keccak env code left)
  unfolding image_all
  first_round o os rest m left at h =
      one_round o (image_all labels os ++ rest) m left
        (at ∙ append_assoc (image labels o) (image_all labels os) rest) h

  behind :
      (o : AsmOp) (os : Code) (rest : List ℕ) (m : Machine) (p : ℕ)
      → drop m.pc code ≡ image_all labels (o ∷ os) ++ rest
      → p ≡ m.pc + op_len o
      → drop p code ≡ image_all labels os ++ rest
  unfolding image_all
  behind o os rest m p at e =
      drop-drop m.pc (op_len o) p code e
      ∙ ap (drop (op_len o)) (at ∙ append_assoc (image labels o) (image_all labels os) rest)
      ∙ drop-append (op_len o) (image labels o) (image_all labels os ++ rest)
          (length-image labels o)

  -- A piece of code whose bytes stand at the pc: if it ends, so do at most as many rounds of the loop as
  -- it has operations, behind its bytes or at the place that it jumped to.
  pub run-exec :
      (ops : Code) (rest : List ℕ) (m n : Machine) (next : Next) (left : ℕ)
      → drop m.pc code ≡ image_all labels ops ++ rest
      → All IsPlain ops
      → exec keccak env code labels ops m ≡ Flow.go next n
      → (k : ℕ) × (k ≤ length ops)
        × (run keccak env code (k + left) m
            ≡ run keccak env code left (at_pc (landing (m.pc + total_len ops) next) n))
  unfolding exec image_all total_len
  run-exec [] rest m n next left at h e =
      let none_left : 0 + left ≡ left = omega arith in
      let here : m.pc ≡ m.pc + 0 = omega arith in
      (
        0,
        omega arith,
        ap (λ t. run keccak env code t m) none_left
            ∙ ap (λ p. run keccak env code left (at_pc p m)) here
            ∙ ap
                (λ q.
                  run keccak env code left
                    (at_pc (landing (m.pc + 0) (next_or Next.fall q)) (machine_or m q)))
                e,
      )
  run-exec (o ∷ os) rest m n next left at h e =
      elim (splits o os m n next (op_arm keccak env code labels o m) refl e) [
        | Splits.jumps d e1 en ↦
            let one_left : 1 + left ≡ suc left = omega arith in
            (
              1,
              omega arith,
              ap (λ t. run keccak env code t m) one_left
                  ∙ first_round o os rest m left at h.0
                  ∙ ap
                      (λ q.
                        bind_flow (bind_flow q (placed (op_len o))) (λ _. run keccak env code left))
                      e1
                  ∙ ap
                      (λ q.
                        run keccak env code left (at_pc (landing (m.pc + total_len (o ∷ os)) q) n))
                      (sym en),
            )
        | Splits.falls k e1 e2 ↦
            let p = k.pc + op_len o in
            let pc : p ≡ m.pc + op_len o = ap (λ c. c + op_len o) (same_pc o m k h.0.2 e1) in
            let there : p + total_len os ≡ m.pc + total_len (o ∷ os) = omega (arith, pc) in
            let (j, le, runs) =
              run-exec os rest (at_pc p k) (at_pc p n) next left (behind o os rest m p at pc) h.1
                ((exec-IsPcFree os h.1).anywhere p k ∙ ap (move p) e2) in
            let more : suc j + left ≡ suc (j + left) = omega arith in
            (
              suc j,
              omega (arith, le),
              ap (λ t. run keccak env code t m) more
                  ∙ first_round o os rest m (j + left) at h.0
                  ∙ ap
                      (λ q.
                        bind_flow (bind_flow q (placed (op_len o)))
                          (λ _. run keccak env code (j + left)))
                      e1
                  ∙ runs
                  ∙ ap (λ c. run keccak env code left (at_pc (landing c next) n)) there,
            )
      ]
