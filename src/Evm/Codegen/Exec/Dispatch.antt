-- ===== src/Evm/Codegen/Exec/Dispatch.antt =====
-- The dispatcher of crates/covenant-evm-backend/src/codegen.rs: control goes to the first function whose
-- selector is the word on the stack.
use covenant_language.Base.{
  ℕ, ◌<◌, ◌≡◌, refl, ap, sym, subst, ◌∙◌, Bool, false, Option, none, some, List, [], ◌∷◌, ◌++◌,
  arith, length, All, Bool-cases, Option-cases, inl, inr, if◌then◌else◌,
}
use covenant_language.Ir.Function.{IrFunction}
use covenant_language.Runtime.U256.{U256}
use covenant_language.Runtime.U256.Bits.{from_bool, word_eq}
use covenant_language.Runtime.Evm.{CallEnv, Machine, Flow, Next}
use covenant_language.Runtime.Evm.Step.{instruction}
use covenant_language.Evm.Asm.{AsmOp, Labels}
use covenant_language.Evm.Codegen.{Code}
use covenant_language.Evm.Codegen.Functions.{Entry, function_label, dispatch_entry, dispatch_all}
use covenant_language.Evm.Codegen.Exec.{exec, pushed_word}
use covenant_language.Evm.Codegen.Exec.Operands.{st, after, after_push}
use covenant_language.Evm.Codegen.Exec.Steps.{
  after-binary, after_dup, after_jumpi_zero, after_jumpi,
}
use covenant_language.Evm.Codegen.Exec.Checked.{LabelAt, from_bool-true, from_bool-false}

-- Whether an entry's selector is the word.
abbrev pub is_selected : U256 → Entry → Bool
is_selected w e = elim e.selector [ some sel ↦ word_eq (pushed_word sel) w | none ↦ false ]

abbrev pub first_selected : U256 → List Entry → Option Entry
first_selected w [] = none
first_selected w (e ∷ es) = if is_selected w e then some e else first_selected w es

module _ (keccak : List ℕ → List ℕ) (env : CallEnv) (code : List ℕ) (labels : Labels)
    (place : IrFunction → ℕ) where
  abbrev pub HasPlace : Entry → Type 0
  HasPlace e = LabelAt (function_label e.function) code labels (place e.function)

  -- Where the dispatcher leaves control.
  abbrev pub dispatched : Option Entry → Next
  dispatched (some e) = Next.goto (place e.function)
  dispatched none = Next.fall

  compares :
      (sel : List ℕ) (rest : Code) (w : U256) (s : List U256) (mem : List ℕ) (m : Machine)
      → length s < 1020
      → after keccak env code labels
          (AsmOp.op 0x80 ∷ AsmOp.push_bytes sel ∷ AsmOp.op 0x14 ∷ rest)
          (w ∷ s)
          mem
          m
        ≡ after keccak env code labels rest (from_bool (word_eq (pushed_word sel) w) ∷ w ∷ s) mem m
  unfolding instruction
  compares sel rest w s mem m h =
      after_dup keccak env code labels w _ s mem m (omega (arith, h))
      ∙ after_push keccak env code labels sel _ (w ∷ w ∷ s) mem m (omega (arith, h))
      ∙ after-binary keccak env code labels 0x14 (λ a b. from_bool (word_eq a b)) refl _ _ rest
          (w ∷ s) mem m (omega (arith, h))

  one_entry :
      (e : Entry) (rest : Code) (w : U256) (s : List U256) (mem : List ℕ) (m : Machine)
      → HasPlace e
      → length s < 1020
      → after keccak env code labels (dispatch_entry e ++ rest) (w ∷ s) mem m ≡ (
          if is_selected w e
          then Flow.go (Next.goto (place e.function)) (st (w ∷ s) mem m)
          else after keccak env code labels rest (w ∷ s) mem m)
  unfolding dispatch_entry
  one_entry e rest w s mem m at h = elim (Option-cases e.selector) [
    | inl gone ↦ rw (gone, dispatch_entry) refl
    | inr (sel, has) ↦ elim (Bool-cases (word_eq (pushed_word sel) w)) [
      | inl same ↦
          rw (has, dispatch_entry, same)
            (compares sel _ w s mem m h
              ∙ after_jumpi keccak env code labels (function_label e.function) (place e.function) _
                  rest (w ∷ s) mem m at.found at.small at.marked (from_bool-true _ same)
                  (omega (arith, h)))
      | inr other ↦
          rw (has, dispatch_entry, other)
            (compares sel _ w s mem m h
              ∙ after_jumpi_zero keccak env code labels (function_label e.function) _ rest (w ∷ s)
                  mem m (from_bool-false _ other) (omega (arith, h)))
    ]
  ]

  falls_or_goes :
      (e : Entry) (es : List Entry) (w : U256) (s : List U256) (mem : List ℕ) (m : Machine)
      → (if is_selected w e
          then Flow.go (Next.goto (place e.function)) (st (w ∷ s) mem m)
          else Flow.go (dispatched (first_selected w es)) (st (w ∷ s) mem m))
        ≡ Flow.go (dispatched (first_selected w (e ∷ es))) (st (w ∷ s) mem m)
  falls_or_goes e es w s mem m = elim (Bool-cases (is_selected w e)) [
    | inl t ↦ rw t refl
    | inr t ↦ rw t refl
  ]

  dispatch_from :
      (es : List Entry) (w : U256) (s : List U256) (mem : List ℕ) (m : Machine)
      → All HasPlace es
      → length s < 1020
      → after keccak env code labels (dispatch_all es) (w ∷ s) mem m
        ≡ Flow.go (dispatched (first_selected w es)) (st (w ∷ s) mem m)
  unfolding dispatch_all exec
  dispatch_from [] w s mem m places h = refl
  dispatch_from (e ∷ es) w s mem m places h =
      one_entry e (dispatch_all es) w s mem m places.0 h
      ∙ ap
          (λ q.
            if is_selected w e
            then Flow.go (Next.goto (place e.function)) (st (w ∷ s) mem m)
            else q)
          (dispatch_from es w s mem m places.1 h)
      ∙ falls_or_goes e es w s mem m

  -- With the word of a call's selector on the stack, and a place for the label of every function, the
  -- comparisons of the dispatcher lead to the label of the first function with that selector, and
  -- behind them if there is none; the machine is as it was.
  pub dispatch_all-first :
      (es : List Entry) (w : U256) (s : List U256) (m : Machine)
      → m.stack ≡ w ∷ s
      → All HasPlace es
      → length s < 1020
      → exec keccak env code labels (dispatch_all es) m
        ≡ Flow.go (dispatched (first_selected w es)) m
  dispatch_all-first es w s m top places h =
      subst
        (λ q.
          exec keccak env code labels (dispatch_all es) (st q m.memory m)
          ≡ Flow.go (dispatched (first_selected w es)) (st q m.memory m))
        (sym top) (dispatch_from es w s m.memory m places h)
