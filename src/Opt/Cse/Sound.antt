-- ===== src/Opt/Cse/Sound.antt =====
-- The elimination of crates/covenant-opt/src/cse.rs keeps what the function computes, and
-- redirects uses to earlier definitions.
use covenant_language.Base.{
  ◌≡◌, refl, sym, ap, ◌∙◌, inl, inr, true, false, Option, none, some, String, List, [], ◌∷◌, ◌++◌,
  ◌==◌, str_eq, str_eq_iff, map, All, &&-split, Bool-cases,
}
use covenant_language.Ir.Ident.{Value}
use covenant_language.Ir.Opcode.{Opcode}
use covenant_language.Ir.Function.{Instr, IrBlock, IrFunction}
use covenant_language.Opt.Dce.{Key, values_eq}
use covenant_language.Opt.Dce.Observe.{values_eq-eq}
use covenant_language.Opt.Rewrite.{Replacements, or_keep}
use covenant_language.Opt.Rewrite.View.{
  view, AllAgree, AllAgree-append, Agrees-AllAgree, view-apply_replacements,
}
use covenant_language.Opt.Rewrite.Order.{EarlierInBlock}
use covenant_language.Opt.Cse.Eligible.{
  is_merged_at_risk, is_determined, is_cse_eligible-is_determined,
}
use covenant_language.Opt.Cse.Order.{plan_blocks-EarlierInBlock}
use covenant_language.Opt.Cse.{
  is_cse_eligible, Available, same_key, find_available, merge, merge_result, plan_step, plan_block,
  plan_blocks, run_function,
}

-- The texts of the opcodes in use tell them apart.
abbrev pub Distinguishes : (Opcode → Type 0) → (Opcode → String) → Type 0
Distinguishes Used debug = (o p : Opcode) → Used o → Used p → debug o ≡ debug p → o ≡ p

-- The instruction is not one of those that the pass merges at risk, and if its opcode is determined by
-- its operands, the opcode is in use and the result means what it makes of their meanings.
abbrev pub Denotes :
    {D : Type 0} → (Opcode → Type 0) → (Opcode → List D → D) → (Value → D) → Instr → Type 0
Denotes Used op_value meaning i =
    (is_merged_at_risk i.opcode ≡ false)
    × (is_determined i.opcode ≡ true
        → Used i.opcode
          × ((r : Value)
              → i.result ≡ some r
              → meaning r ≡ op_value i.opcode (map meaning i.operands)))

module _ {D : Type 0} (Used : Opcode → Type 0) (debug : Opcode → String)
    (distinct : Distinguishes Used debug) (op_value : Opcode → List D → D)
    (meaning : Value → D) where
  -- What a key stands for.
  abbrev Stands : Key → D → Type 0
  Stands k d = (op : Opcode) × (debug op ≡ k.0) × Used op × (d ≡ op_value op (map meaning k.1))

  abbrev AllStand : Available → Type 0
  AllStand = All (λ (e : Key × Value). Stands e.0 (meaning e.1))

  -- Equal keys stand for one meaning.
  Stands-same_key : (j k : Key) (a b : D) → same_key j k ≡ true → Stands j a → Stands k b → a ≡ b
  Stands-same_key j k a b e (o, p, q, r) (o', p', q', r') =
      let (s, v) = &&-split (str_eq j.0 k.0) (values_eq j.1 k.1) e in
      let same : o ≡ o' = distinct o o' q q' (p ∙ (str_eq_iff j.0 k.0).0 s ∙ sym p') in
      let vs : j.1 ≡ k.1 = values_eq-eq j.1 k.1 v in r ∙ (rw (same, vs) refl) ∙ sym r'

  find_available-Stands :
      (k : Key) (m : Available) (v : Value) (d : D)
      → AllStand m
      → find_available k m ≡ some v
      → Stands k d
      → d ≡ meaning v
  unfolding find_available
  find_available-Stands k [] v d h e s = cc
  find_available-Stands k ((j, w) ∷ m) v d h e s = elim (Bool-cases (same_key j k)) [
    | inl t ↦
        sym (Stands-same_key j k (meaning w) d t h.0 s) ∙ ap meaning (ap (or_keep v) (rw t at e))
    | inr f ↦ find_available-Stands k m v d h.1 (rw f at e) s
  ]

  merge-AllAgree :
      (key : Key) (r : Value) (found : Option Value) (available : Available) (plan : Replacements)
      → find_available key available ≡ found
      → Stands key (meaning r)
      → AllStand available
      → AllAgree meaning plan
      → let next = merge key r found available plan in AllStand next.0 × AllAgree meaning next.1
  merge-AllAgree key r none available plan e k s a = ((k, s), a)
  merge-AllAgree key r (some v) available plan e k s a = elim (Bool-cases (v == r)) [
    | inl same ↦ rw same (s, a)
    | inr differ ↦ rw differ (s, (find_available-Stands key available v (meaning r) s e k, a))
  ]

  merge_result-AllAgree :
      (i : Instr) (o : Option Value) (available : Available) (plan : Replacements)
      → is_cse_eligible i.opcode ≡ true
      → i.result ≡ o
      → Denotes Used op_value meaning i
      → AllStand available
      → AllAgree meaning plan
      → let next = merge_result debug i o available plan in
        AllStand next.0 × AllAgree meaning next.1
  merge_result-AllAgree i none available plan ok e d s a = (s, a)
  merge_result-AllAgree i (some r) available plan ok e d s a =
      let means = d.1 (is_cse_eligible-is_determined i.opcode d.0 ok) in
      merge-AllAgree (debug i.opcode, i.operands) r _ available plan refl
        (i.opcode, refl, means.0, means.1 r e) s a

  -- One instruction keeps the table and the plan in order.
  plan_step-AllAgree :
      (i : Instr) (available : Available) (plan : Replacements)
      → Denotes Used op_value meaning i
      → AllStand available
      → AllAgree meaning plan
      → let next = plan_step debug i available plan in AllStand next.0 × AllAgree meaning next.1
  unfolding plan_step
  plan_step-AllAgree i available plan d s a = elim (Bool-cases (is_cse_eligible i.opcode)) [
    | inr barred ↦ rw barred (s, a)
    | inl ok ↦ elim (Bool-cases i.from_lift) [
      | inl lift ↦ rw (ok, lift) (s, a)
      | inr plain ↦ rw (ok, plain) (merge_result-AllAgree i i.result available plan ok refl d s a)
    ]
  ]

  plan_block-AllAgree :
      (is : List Instr) (available : Available) (plan : Replacements)
      → All (Denotes Used op_value meaning) is
      → AllStand available
      → AllAgree meaning plan
      → AllAgree meaning (plan_block debug is available plan)
  unfolding plan_block
  plan_block-AllAgree [] available plan d s a = a
  plan_block-AllAgree (i ∷ is) available plan d s a =
      let (s', a') = plan_step-AllAgree i available plan d.0 s a in
      plan_block-AllAgree is (plan_step debug i available plan).0
        (plan_step debug i available plan).1 d.1 s' a'

  plan_blocks-AllAgree :
      (bs : List IrBlock) (m : Replacements)
      → All (λ (b : IrBlock). All (Denotes Used op_value meaning) b.instructions) bs
      → AllAgree meaning m
      → AllAgree meaning (plan_blocks debug bs m)
  unfolding plan_blocks
  plan_blocks-AllAgree [] m d a = a
  plan_blocks-AllAgree (b ∷ bs) m d a =
      plan_blocks-AllAgree bs (plan_block debug b.instructions [] [] ++ m) d.1 (
        AllAgree-append meaning (plan_block debug b.instructions [] []) m
          (plan_block-AllAgree b.instructions [] [] d.0 tt tt) a)

  -- Where the texts of the opcodes in use tell them apart, no instruction has one of the opcodes that
  -- the pass merges at risk, and the result of each opcode that is determined by its operands means
  -- what the opcode makes of their meanings, the function after the pass computes what it computed
  -- before, operand by operand; and each use that the pass redirects is redirected to a value that
  -- an earlier instruction of a block defines, before the one that defines the value of the use.
  pub view-run_function :
      (func : IrFunction)
      → All (λ (b : IrBlock). All (Denotes Used op_value meaning) b.instructions) func.blocks
      → (view meaning (run_function debug func).0 ≡ view meaning func)
        × All
            (λ (e : Value × Value). EarlierInBlock e.1 e.0 func.blocks)
            (plan_blocks debug func.blocks [])
  unfolding run_function
  view-run_function func d = (
    view-apply_replacements meaning func (plan_blocks debug func.blocks []) (
        Agrees-AllAgree meaning (plan_blocks debug func.blocks [])
          (plan_blocks-AllAgree func.blocks [] d tt)),
    plan_blocks-EarlierInBlock debug func.blocks,
  )
