-- ===== src/Opt/Dce/Closed.antt =====
-- The pass (crates/covenant-opt/src/dce.rs) deletes no definition that is still read: every value
-- used by what is left keeps the instruction that defined it.
use covenant_language.Base.{
  ◌≡◌, inl, inr, Bool, true, false, none, some, String, List, [], ◌∷◌, ◌++◌, arith, ◌==◌, contains,
  contains-append, Bool-cases, Option-cases, keep_if, length,
}
use mathlib.Core.List.{Memᴰ}
use mathlib.Core.List.Memᴰ
use covenant_language.Ir.Ident.{Value}
use covenant_language.Ir.Opcode.{Opcode}
use covenant_language.Ir.Function.{Instr, IrBlock, IrParam, IrFunction}
use covenant_language.Opt.Effect.{effect_of}
use covenant_language.Opt.Effects.{integer_constants}
use covenant_language.Opt.Dce.{
  decide_must_keep, uses, sweep_blocks, retained, all_instructions, live_walk, compute_live_set,
  block_params, param_values, eliminate_pure, run_function, remove_unreachable, reachable_blocks,
}
use covenant_language.Opt.Dce.Live.{live_walk-closed, live_walk-seeds, definer_operands-mem}
use covenant_language.Opt.Dce.Keep.{is_state_or_critical, blocks-Reason, blocks-mem, uses_seeded}

-- The bindings that are no instruction results.
abbrev pub parameters : List IrBlock → List IrParam → List Value
parameters bs ps = block_params bs ++ param_values ps

-- An instruction without a result writes state or is critical, and no instruction defines a
-- parameter.
pub record WellFormed (bs : List IrBlock) (ps : List IrParam) : Type 0 where
  pub void :
      (i : Instr)
      → Memᴰ i (all_instructions bs)
      → i.result ≡ none
      → is_state_or_critical (effect_of i.opcode) ≡ true
  pub apart :
      (i : Instr) (r : Value)
      → Memᴰ i (all_instructions bs)
      → i.result ≡ some r
      → contains r (parameters bs ps) ≡ false

module _ (debug : Opcode → String) (func : IrFunction)
    (wf : WellFormed func.blocks func.params) where
  abbrev flags : List (List Bool)
  flags = decide_must_keep debug (integer_constants func) func.blocks

  abbrev walked : List Value
  walked = (live_walk func flags).0

  abbrev live : List Value
  live = compute_live_set func flags

  abbrev left : List IrBlock
  left = sweep_blocks live flags func.blocks

  live-of-walked : (v : Value) → contains v walked ≡ true → contains v live ≡ true
  unfolding compute_live_set
  live-of-walked v h = ground (
    arith,
    contains-append v (block_params func.blocks) (param_values func.params ++ walked),
    contains-append v (param_values func.params) walked,
  )

  walked-of-live :
      (v : Value)
      → contains v (parameters func.blocks func.params) ≡ false
      → contains v live ≡ true
      → contains v walked ≡ true
  unfolding compute_live_set
  walked-of-live v a h = ground (
    arith,
    contains-append v (block_params func.blocks) (param_values func.params ++ walked),
    contains-append v (block_params func.blocks) (param_values func.params),
    contains-append v (param_values func.params) walked,
  )

  -- What an instruction that is left reads is live.
  reads-live :
      (i : Instr) (v : Value)
      → Memᴰ i (all_instructions left)
      → contains v i.operands ≡ true
      → contains v walked ≡ true
  unfolding retained
  reads-live i v m h = elim (blocks-Reason debug (integer_constants func) live i func.blocks m) [
    | inl r ↦ live_walk-seeds func flags v (r v h)
    | inr (r, e, k) ↦ elim (Option-cases i.result) [
      | inl q ↦ cc (wf.void i k q)
      | inr (x, q) ↦
          live_walk-closed func flags x v (walked-of-live x (wf.apart i x k q) (rw q at r))
            (definer_operands-mem i x v (all_instructions func.blocks) k q h)
    ]
  ]

  survives :
      (d : Instr) (v : Value)
      → Memᴰ d (all_instructions func.blocks)
      → d.result ≡ some v
      → contains v walked ≡ true
      → Memᴰ d (all_instructions left)
  unfolding retained
  survives d v m e h =
      blocks-mem debug (integer_constants func) live d func.blocks m (rw e (live-of-walked v h))

  pub eliminate_pure-closed :
      (d : Instr) (v : Value)
      → Memᴰ d (all_instructions func.blocks)
      → d.result ≡ some v
      → let out = (eliminate_pure debug func).0.blocks in
        ((i : Instr)
          → Memᴰ i (all_instructions out)
          → contains v i.operands ≡ true
          → Memᴰ d (all_instructions out))
        × ((b : IrBlock)
            → Memᴰ b out
            → contains v (uses b.terminator) ≡ true
            → Memᴰ d (all_instructions out))
  unfolding eliminate_pure
  eliminate_pure-closed d v m e = (
    λ i k h. survives d v m e (reads-live i v k h),
    λ b k h. survives d v m e (
        live_walk-seeds func flags v
          (uses_seeded debug (integer_constants func) live b v func.blocks k h)),
  )

-- Removing blocks keeps the function well formed.
all_instructions-keep_if :
    (p : IrBlock → Bool) (i : Instr) (bs : List IrBlock)
    → Memᴰ i (all_instructions (keep_if p bs))
    → Memᴰ i (all_instructions bs)
unfolding all_instructions
all_instructions-keep_if p i [] m = m
all_instructions-keep_if p i (b ∷ bs) m = elim (Bool-cases (p b)) [
  | inl t ↦ elim (Memᴰ.append_cases b.instructions (rw t at m)) [
    | inl here ↦ Memᴰ.append_left _ here
    | inr later ↦ Memᴰ.append_right b.instructions (all_instructions-keep_if p i bs later)
  ]
  | inr f ↦ Memᴰ.append_right b.instructions (all_instructions-keep_if p i bs (rw f at m))
]

block_params-keep_if :
    (p : IrBlock → Bool) (v : Value) (bs : List IrBlock)
    → contains v (block_params bs) ≡ false
    → contains v (block_params (keep_if p bs)) ≡ false
unfolding block_params
block_params-keep_if p v [] h = h
block_params-keep_if p v (b ∷ bs) h = elim (Bool-cases (p b)) [
  | inl t ↦ rw t (
      ground (
        arith,
        contains-append v b.params (block_params bs),
        contains-append v b.params (block_params (keep_if p bs)),
        block_params-keep_if p v bs,
      ))
  | inr f ↦
      rw f
        (ground (arith, contains-append v b.params (block_params bs), block_params-keep_if p v bs))
]

WellFormed-keep_if :
    (p : IrBlock → Bool) (bs : List IrBlock) (ps : List IrParam)
    → WellFormed bs ps
    → WellFormed (keep_if p bs) ps
WellFormed-keep_if p bs ps wf = record {
  void = λ i m e. wf.void i (all_instructions-keep_if p i bs m) e;
  apart = λ i r m e.
      let a = wf.apart i r (all_instructions-keep_if p i bs m) e in
      ground (
        arith,
        contains-append r (block_params bs) (param_values ps),
        contains-append r (block_params (keep_if p bs)) (param_values ps),
        block_params-keep_if p r bs,
      );
}

WellFormed-remove_unreachable :
    (func : IrFunction)
    → WellFormed func.blocks func.params
    → let r = (remove_unreachable func).0 in WellFormed r.blocks r.params
unfolding remove_unreachable
WellFormed-remove_unreachable func wf =
    elim (Bool-cases (length (reachable_blocks func) == length func.blocks)) [
      | inl same ↦ rw (same, remove_unreachable) wf
      | inr differ ↦
          rw (differ, remove_unreachable)
            (WellFormed-keep_if (λ b. contains b.id (reachable_blocks func)) func.blocks func.params
              wf)
    ]

-- In a well-formed function, an instruction of the blocks that the pass retains survives the pass
-- if an instruction or a terminator of the result reads the value that it defines.
pub run_function-closed :
    (debug : Opcode → String) (func : IrFunction)
    → WellFormed func.blocks func.params
    → (d : Instr) (v : Value) → Memᴰ d (all_instructions (remove_unreachable func).0.blocks)
    → d.result ≡ some v
    → let out = (run_function debug func).0.blocks in
      ((i : Instr)
        → Memᴰ i (all_instructions out)
        → contains v i.operands ≡ true
        → Memᴰ d (all_instructions out))
      × ((b : IrBlock)
          → Memᴰ b out
          → contains v (uses b.terminator) ≡ true
          → Memᴰ d (all_instructions out))
unfolding run_function
run_function-closed debug func wf d v m e =
    eliminate_pure-closed debug (remove_unreachable func).0 (WellFormed-remove_unreachable func wf)
      d v m e
