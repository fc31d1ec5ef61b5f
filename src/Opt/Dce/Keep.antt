-- ===== src/Opt/Dce/Keep.antt =====
-- No value that the pass leaves in use loses its definition (crates/covenant-opt/src/dce.rs).
use covenant_language.Base.{
  ◌≡◌, refl, sym, ap, subst, ◌∙◌, ◌⊎◌, inl, inr, Bool, true, false, ◌||◌, String, List, [], ◌∷◌,
  ◌++◌, arith, contains, contains-append, Bool-cases,
}
use mathlib.Core.List.{Memᴰ}
use mathlib.Core.List.Memᴰ
use covenant_language.Ir.Ident.{Value}
use covenant_language.Ir.Opcode.{Opcode}
use covenant_language.Ir.Function.{Instr, IrBlock}
use covenant_language.Opt.Effect.{Effect, effect_of}
use covenant_language.Opt.Effects.{Consts}
use covenant_language.Opt.Dce.{
  Key, keep_step, decide_block, decide_must_keep, kept_operands, seeds, uses, sweep, sweep_blocks,
  retained, all_instructions,
}

-- The effects that no refinement lets the pass drop.
abbrev pub is_state_or_critical : Effect → Bool
is_state_or_critical Effect.state = true
is_state_or_critical Effect.critical = true
is_state_or_critical _ = false

-- Every operand of the instruction is in the list.
abbrev pub ReadsIn : Instr → List Value → Type 0
ReadsIn i vs = (v : Value) → contains v i.operands ≡ true → contains v vs ≡ true

ReadsIn-left : (i : Instr) (vs ws : List Value) → ReadsIn i vs → ReadsIn i (vs ++ ws)
ReadsIn-left i vs ws r v h = ground (arith, r v h, contains-append v vs ws)

ReadsIn-right : (i : Instr) (vs ws : List Value) → ReadsIn i ws → ReadsIn i (vs ++ ws)
ReadsIn-right i vs ws r v h = ground (arith, r v h, contains-append v vs ws)

-- Why an instruction is still there: as a must-keep, whose operands are seeds, or for its result.
abbrev pub Reason : List Value → List Value → List Instr → Instr → Type 0
Reason live seeded is i =
    ReadsIn i seeded
    ⊎ ((retained live i.result ≡ true)
        × (is_state_or_critical (effect_of i.opcode) ≡ false)
        × Memᴰ i is)

module _ (debug : Opcode → String) (consts : Consts) (live : List Value) where
  flag_state :
      (trapped : List Key) (i : Instr)
      → (keep_step debug consts trapped i).0 ≡ false
      → is_state_or_critical (effect_of i.opcode) ≡ false
  unfolding keep_step
  flag_state trapped i h = ground arith

  Reason-keep :
      (x i : Instr) (seeded : List Value) (is : List Instr)
      → Reason live seeded is i
      → Reason live (x.operands ++ seeded) (x ∷ is) i
  Reason-keep x i seeded is (inl r) = inl (ReadsIn-right i x.operands seeded r)
  Reason-keep x i seeded is (inr (r, e, m)) = inr (r, e, Memᴰ.tail m)

  Reason-drop :
      (x i : Instr) (seeded : List Value) (is : List Instr)
      → Reason live seeded is i
      → Reason live seeded (x ∷ is) i
  Reason-drop x i seeded is (inl r) = inl r
  Reason-drop x i seeded is (inr (r, e, m)) = inr (r, e, Memᴰ.tail m)

  sweep-Reason_step :
      (k : Bool) (ks : List Bool) (x i : Instr) (is : List Instr)
      → (k ≡ false → is_state_or_critical (effect_of x.opcode) ≡ false)
      → (Memᴰ i (sweep live ks is) → Reason live (kept_operands ks is) is i)
      → Memᴰ i (sweep live (k ∷ ks) (x ∷ is))
      → Reason live (kept_operands (k ∷ ks) (x ∷ is)) (x ∷ is) i
  unfolding sweep kept_operands
  sweep-Reason_step true ks x i is flag ih m = elim (Memᴰ.cases_cons m) [
    | inl e ↦
        let ys = x.operands ++ kept_operands ks is in
        inl (
          subst (λ (y : Instr). ReadsIn y ys) (sym e)
            (ReadsIn-left x x.operands (kept_operands ks is) (λ v h. h)))
    | inr t ↦ Reason-keep x i (kept_operands ks is) is (ih t)
  ]
  sweep-Reason_step false ks x i is flag ih m = elim (Bool-cases (retained live x.result)) [
    | inl r ↦ elim (Memᴰ.cases_cons (rw r at m)) [
      | inl e ↦ inr (
        ap (λ (y : Instr). retained live y.result) e ∙ r,
        ap (λ (y : Instr). is_state_or_critical (effect_of y.opcode)) e ∙ flag refl,
        Memᴰ.head e,
      )
      | inr t ↦ Reason-drop x i (kept_operands ks is) is (ih t)
    ]
    | inr r ↦ Reason-drop x i (kept_operands ks is) is (ih (rw r at m))
  ]

  sweep-Reason :
      (trapped : List Key) (i : Instr) (is : List Instr)
      → let flags = decide_block debug consts trapped is in
        Memᴰ i (sweep live flags is) → Reason live (kept_operands flags is) is i
  unfolding decide_block sweep
  sweep-Reason trapped i [] m = elim m [ ]
  sweep-Reason trapped i (x ∷ is) m =
      let step = keep_step debug consts trapped x in
      sweep-Reason_step step.0 (decide_block debug consts step.1 is) x i is (flag_state trapped x)
        (sweep-Reason step.1 i is) m

  sweep-mem :
      (trapped : List Key) (d : Instr) (is : List Instr)
      → Memᴰ d is
      → retained live d.result ≡ true
      → Memᴰ d (sweep live (decide_block debug consts trapped is) is)
  unfolding decide_block sweep
  sweep-mem trapped d [] m r = elim m [ ]
  sweep-mem trapped d (x ∷ is) (Memᴰ.head e) r =
      let k : retained live x.result ≡ true =
        ap (λ (y : Instr). retained live y.result) (sym e) ∙ r in
      elim (Bool-cases (keep_step debug consts trapped x).0) [
        | inl t ↦ rw t (Memᴰ.head e)
        | inr f ↦ rw (f, k) (Memᴰ.head e)
      ]
  sweep-mem trapped d (x ∷ is) (Memᴰ.tail m) r =
      let step = keep_step debug consts trapped x in
      elim (Bool-cases (step.0 || retained live x.result)) [
        | inl t ↦ rw t (Memᴰ.tail (sweep-mem step.1 d is m r))
        | inr f ↦ rw f (sweep-mem step.1 d is m r)
      ]

  -- The same over all the blocks of a function.
  pub blocks-Reason :
      (i : Instr) (bs : List IrBlock)
      → let flags = decide_must_keep debug consts bs in
        Memᴰ i (all_instructions (sweep_blocks live flags bs))
        → Reason live (seeds flags bs) (all_instructions bs) i
  unfolding decide_must_keep sweep_blocks all_instructions seeds
  blocks-Reason i [] m = elim m [ ]
  blocks-Reason i (b ∷ bs) m =
      elim (Memᴰ.append_cases
        (sweep live (decide_block debug consts [] b.instructions) b.instructions) m) [
          | inl here ↦ elim (sweep-Reason [] i b.instructions here) [
            | inl r ↦ inl (ReadsIn-left i _ _ (ReadsIn-left i _ _ r))
            | inr (r, e, k) ↦ inr (r, e, Memᴰ.append_left _ k)
          ]
          | inr later ↦ elim (blocks-Reason i bs later) [
            | inl r ↦ inl (ReadsIn-right i _ _ r)
            | inr (r, e, k) ↦ inr (r, e, Memᴰ.append_right b.instructions k)
          ]
        ]

  pub blocks-mem :
      (d : Instr) (bs : List IrBlock)
      → Memᴰ d (all_instructions bs)
      → retained live d.result ≡ true
      → Memᴰ d (all_instructions (sweep_blocks live (decide_must_keep debug consts bs) bs))
  unfolding decide_must_keep sweep_blocks all_instructions
  blocks-mem d [] m r = elim m [ ]
  blocks-mem d (b ∷ bs) m r = elim (Memᴰ.append_cases b.instructions m) [
    | inl here ↦ Memᴰ.append_left _ (sweep-mem [] d b.instructions here r)
    | inr later ↦
        Memᴰ.append_right (sweep live (decide_block debug consts [] b.instructions) b.instructions)
          (blocks-mem d bs later r)
  ]

  -- What the terminators that are left read is seeded.
  pub uses_seeded :
      (b : IrBlock) (v : Value) (bs : List IrBlock)
      → Memᴰ b (sweep_blocks live (decide_must_keep debug consts bs) bs)
      → contains v (uses b.terminator) ≡ true
      → contains v (seeds (decide_must_keep debug consts bs) bs) ≡ true
  unfolding decide_must_keep sweep_blocks seeds
  uses_seeded b v [] m h = elim m [ ]
  uses_seeded b v (c ∷ cs) m h =
      let flags = decide_must_keep debug consts cs in
      let own = kept_operands (decide_block debug consts [] c.instructions) c.instructions in
      elim (Memᴰ.cases_cons m) [
        | inl e ↦
            let h' : contains v (uses c.terminator) ≡ true =
              ap (λ (x : IrBlock). contains v (uses x.terminator)) (sym e) ∙ h in
            ground (
              arith,
              contains-append v (own ++ uses c.terminator) (seeds flags cs),
              contains-append v own (uses c.terminator),
            )
        | inr t ↦ ground (
          arith,
          contains-append v (own ++ uses c.terminator) (seeds flags cs),
          uses_seeded b v cs t h,
        )
      ]
