-- ===== src/Opt/Cse/Order.antt =====
-- Where crates/covenant-opt/src/cse.rs redirects uses: to a value that is defined earlier in the block.
use covenant_language.Base.{
  ◌≡◌, refl, subst, inl, inr, ap, Option, none, some, String, List, [], ◌∷◌, ◌++◌, ◌==◌, All,
  Bool-cases, sym,
}
use mathlib.Core.List.{append_assoc}
use covenant_language.Ir.Ident.{Value}
use covenant_language.Ir.Opcode.{Opcode}
use covenant_language.Ir.Function.{Instr, IrBlock}
use covenant_language.Opt.Dce.{Key}
use covenant_language.Opt.Rewrite.{Replacements, or_keep}
use covenant_language.Opt.Rewrite.Order.{
  Defines, Earlier, EarlierInBlock, Defines-at_end, Earlier-at_end, AllEarlier, InOrder, AllDefined,
  AllDefined-append, AllEarlier-append, InOrder-append,
}
use covenant_language.Opt.Cse.{
  is_cse_eligible, Available, same_key, find_available, merge, merge_result, plan_step, plan_block,
  plan_blocks,
}

find_available-Defines :
    (seen : List Instr) (k : Key) (m : Available) (v : Value)
    → AllDefined seen m
    → find_available k m ≡ some v
    → Defines v seen
unfolding find_available
find_available-Defines seen k [] v h e = cc
find_available-Defines seen k ((j, w) ∷ m) v h e = elim (Bool-cases (same_key j k)) [
  | inl t ↦ subst (λ u. Defines u seen) (ap (or_keep v) (rw t at e)) h.0
  | inr f ↦ find_available-Defines seen k m v h.1 (rw f at e)
]

merge-InOrder :
    (seen : List Instr) (i : Instr) (key : Key) (r : Value) (found : Option Value)
    (available : Available) (plan : Replacements)
    → find_available key available ≡ found
    → i.result ≡ some r
    → InOrder seen (available, plan)
    → InOrder (seen ++ i ∷ []) (merge key r found available plan)
merge-InOrder seen i key r none available plan e p (d, o) = (
  (Defines-at_end r seen i p, AllDefined-append seen _ available d),
  AllEarlier-append seen _ plan o,
)
merge-InOrder seen i key r (some v) available plan e p (d, o) =
    let defined = AllDefined-append seen (i ∷ []) available d in
    let earlier = AllEarlier-append seen (i ∷ []) plan o in
    elim (Bool-cases (v == r)) [
      | inl same ↦ rw same (defined, earlier)
      | inr differ ↦ rw differ (
        defined,
        (Earlier-at_end v r seen i (find_available-Defines seen key available v d e) p, earlier),
      )
    ]

module _ (debug : Opcode → String) where
  merge_result-InOrder :
      (seen : List Instr) (i : Instr) (o : Option Value) (available : Available)
      (plan : Replacements)
      → i.result ≡ o
      → InOrder seen (available, plan)
      → InOrder (seen ++ i ∷ []) (merge_result debug i o available plan)
  merge_result-InOrder seen i none available plan e (d, o) =
      InOrder-append seen (i ∷ []) (available, plan) (d, o)
  merge_result-InOrder seen i (some r) available plan e h =
      merge-InOrder seen i _ r _ available plan refl e h

  -- `after` is what was seen once the instruction is.
  plan_step-InOrder :
      (seen after : List Instr) (i : Instr) (available : Available) (plan : Replacements)
      → after ≡ seen ++ i ∷ []
      → InOrder seen (available, plan)
      → InOrder after (plan_step debug i available plan)
  unfolding plan_step
  plan_step-InOrder seen after i available plan at h =
      let merged =
        subst (λ s. InOrder s (merge_result debug i i.result available plan)) (sym at)
          (merge_result-InOrder seen i i.result available plan refl h) in
      let kept =
        subst (λ s. InOrder s (available, plan)) (sym at)
          (InOrder-append seen (i ∷ []) (available, plan) h) in
      elim (Bool-cases (is_cse_eligible i.opcode)) [
        | inr barred ↦ rw barred kept
        | inl ok ↦ elim (Bool-cases i.from_lift) [
          | inl lift ↦ rw (ok, lift) kept
          | inr plain ↦ rw (ok, plain) merged
        ]
      ]

  plan_block-AllEarlier :
      (seen is : List Instr) (available : Available) (plan : Replacements)
      → InOrder seen (available, plan)
      → AllEarlier (seen ++ is) (plan_block debug is available plan)
  unfolding plan_block
  plan_block-AllEarlier seen [] available plan h = AllEarlier-append seen [] plan h.1
  plan_block-AllEarlier seen (i ∷ is) available plan h =
      let next = plan_step debug i available plan in
      subst (λ s. AllEarlier s (plan_block debug is next.0 next.1)) (append_assoc seen (i ∷ []) is)
        (plan_block-AllEarlier (seen ++ i ∷ []) is next.0 next.1
          (plan_step-InOrder seen (seen ++ i ∷ []) i available plan refl h))

  abbrev AllInBlock : List IrBlock → Replacements → Type 0
  AllInBlock bs = All (λ (e : Value × Value). EarlierInBlock e.1 e.0 bs)

  -- The plan of a block, before that of the blocks ahead of it.
  with_plan :
      (b : IrBlock) (all : List IrBlock) (plan m : Replacements)
      → ((e r : Value) → Earlier e r b.instructions → EarlierInBlock e r all)
      → AllEarlier b.instructions plan
      → AllInBlock all m
      → AllInBlock all (plan ++ m)
  with_plan b all [] m inside h k = k
  with_plan b all (e ∷ plan) m inside h k =
      (inside e.1 e.0 h.0, with_plan b all plan m inside h.1 k)

  plan_blocks_within :
      (bs all : List IrBlock) (m : Replacements)
      → ((e r : Value) → EarlierInBlock e r bs → EarlierInBlock e r all)
      → AllInBlock all m
      → AllInBlock all (plan_blocks debug bs m)
  unfolding plan_blocks
  plan_blocks_within [] all m inside h = h
  plan_blocks_within (b ∷ bs) all m inside h =
      plan_blocks_within bs all (plan_block debug b.instructions [] [] ++ m)
        (λ e r d. inside e r (inr d))
        (with_plan b all (plan_block debug b.instructions [] []) m (λ e r d. inside e r (inl d))
          (plan_block-AllEarlier [] b.instructions [] [] (tt, tt)) h)

  pub plan_blocks-EarlierInBlock :
      (bs : List IrBlock)
      → All (λ (e : Value × Value). EarlierInBlock e.1 e.0 bs) (plan_blocks debug bs [])
  plan_blocks-EarlierInBlock bs = plan_blocks_within bs bs [] (λ e r d. d) tt
