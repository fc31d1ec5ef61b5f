-- ===== src/Opt/FheFold/Order.antt =====
-- Where crates/covenant-opt/src/fhe_fold.rs redirects uses: to a value that is defined earlier in the list
-- of the blocks.
use covenant_language.Base.{
  ◌≡◌, refl, sym, subst, ap, inl, inr, Option, none, some, String, List, [], ◌∷◌, ◌++◌, ◌==◌,
  Bool-cases,
}
use mathlib.Core.List.{append_assoc}
use covenant_language.Types.Ty.{Ty}
use covenant_language.Privacy.{PrivacyDomain}
use covenant_language.Ir.Ident.{Value}
use covenant_language.Ir.Function.{IrConstant, Instr, IrBlock, IrFunction}
use covenant_language.Opt.Rewrite.{Replacements, or_keep}
use covenant_language.Opt.Rewrite.Order.{
  Defines, Defines-at_end, Earlier-at_end, AllDefined, AllEarlier, InOrder, AllDefined-append,
  AllEarlier-append, InOrder-append,
}
use covenant_language.Opt.FheFold.{
  Key, same_key, Firsts, find_first, is_trivial_encryption, first, merge, const_step, operand_step,
  fold_step, fold_instrs, fold_blocks,
}

-- The instructions of the blocks, one block after the other.
abbrev pub listed : List IrBlock → List Instr
listed [] = []
listed (b ∷ bs) = b.instructions ++ listed bs

find_first-Defines :
    (seen : List Instr) (k : Key) (firsts : Firsts) (v : Value)
    → AllDefined seen firsts
    → find_first k firsts ≡ some v
    → Defines v seen
unfolding find_first
find_first-Defines seen k [] v h e = cc
find_first-Defines seen k ((j, w) ∷ firsts) v h e = elim (Bool-cases (same_key j k)) [
  | inl t ↦ subst (λ u. Defines u seen) (ap (or_keep v) (rw t at e)) h.0
  | inr f ↦ find_first-Defines seen k firsts v h.1 (rw f at e)
]

merge-InOrder :
    (seen : List Instr) (i : Instr) (key : Key) (r : Value) (found : Option Value) (firsts : Firsts)
    (m : Replacements)
    → find_first key firsts ≡ found
    → i.result ≡ some r
    → InOrder seen (firsts, m)
    → InOrder (seen ++ i ∷ []) (merge key r found firsts m)
merge-InOrder seen i key r none firsts m e p (d, o) =
    ((Defines-at_end r seen i p, AllDefined-append seen _ firsts d), AllEarlier-append seen _ m o)
merge-InOrder seen i key r (some v) firsts m e p (d, o) =
    let defined = AllDefined-append seen (i ∷ []) firsts d in
    let earlier = AllEarlier-append seen (i ∷ []) m o in
    elim (Bool-cases (v == r)) [
      | inl same ↦ rw same (defined, earlier)
      | inr differ ↦ rw differ (
        defined,
        (Earlier-at_end v r seen i (find_first-Defines seen key firsts v d e) p, earlier),
      )
    ]

module _ (debug_constant : IrConstant → String) (debug_ty : Ty → String)
    (debug_privacy : PrivacyDomain → String) (func : IrFunction) where
  const_step-InOrder :
      (seen : List Instr) (i : Instr) (r : Value) (c : Option IrConstant) (firsts : Firsts)
      (m : Replacements)
      → i.result ≡ some r
      → InOrder seen (firsts, m)
      → InOrder
          (seen ++ i ∷ [])
          (const_step debug_constant debug_ty debug_privacy func i r c firsts m)
  const_step-InOrder seen i r none firsts m p h = InOrder-append seen (i ∷ []) (firsts, m) h
  const_step-InOrder seen i r (some c) firsts m p h = merge-InOrder seen i _ r _ firsts m refl p h

  operand_step-InOrder :
      (seen : List Instr) (i : Instr) (result operand : Option Value) (firsts : Firsts)
      (m : Replacements)
      → i.result ≡ result
      → InOrder seen (firsts, m)
      → InOrder
          (seen ++ i ∷ [])
          (operand_step debug_constant debug_ty debug_privacy func i result operand firsts m)
  operand_step-InOrder seen i none none firsts m p h = InOrder-append seen (i ∷ []) (firsts, m) h
  operand_step-InOrder seen i none (some o) firsts m p h =
      InOrder-append seen (i ∷ []) (firsts, m) h
  operand_step-InOrder seen i (some r) none firsts m p h =
      InOrder-append seen (i ∷ []) (firsts, m) h
  operand_step-InOrder seen i (some r) (some o) firsts m p h =
      const_step-InOrder seen i r _ firsts m p h

  -- `after` is what was seen once the instruction is.
  fold_step-InOrder :
      (seen after : List Instr) (i : Instr) (firsts : Firsts) (m : Replacements)
      → after ≡ seen ++ i ∷ []
      → InOrder seen (firsts, m)
      → InOrder after (fold_step debug_constant debug_ty debug_privacy func i firsts m)
  unfolding fold_step
  fold_step-InOrder seen after i firsts m at h =
      let merged =
        subst
          (λ s. InOrder s (
            operand_step debug_constant debug_ty debug_privacy func i i.result (first i.operands)
              firsts m))
          (sym at) (operand_step-InOrder seen i i.result (first i.operands) firsts m refl h) in
      let kept =
        subst (λ s. InOrder s (firsts, m)) (sym at) (InOrder-append seen (i ∷ []) (firsts, m) h) in
      elim (Bool-cases (is_trivial_encryption i.opcode)) [
        | inr other ↦ rw other kept
        | inl t ↦ rw t merged
      ]

  fold_instrs-InOrder :
      (seen is : List Instr) (firsts : Firsts) (m : Replacements)
      → InOrder seen (firsts, m)
      → InOrder (seen ++ is) (fold_instrs debug_constant debug_ty debug_privacy func is firsts m)
  unfolding fold_instrs
  fold_instrs-InOrder seen [] firsts m h = InOrder-append seen [] (firsts, m) h
  fold_instrs-InOrder seen (i ∷ is) firsts m h =
      let next = fold_step debug_constant debug_ty debug_privacy func i firsts m in
      subst
        (λ s. InOrder s (fold_instrs debug_constant debug_ty debug_privacy func is next.0 next.1))
        (append_assoc seen (i ∷ []) is)
        (fold_instrs-InOrder (seen ++ i ∷ []) is next.0 next.1
          (fold_step-InOrder seen (seen ++ i ∷ []) i firsts m refl h))

  pub fold_blocks-AllEarlier :
      (seen : List Instr) (bs : List IrBlock) (firsts : Firsts) (m : Replacements)
      → InOrder seen (firsts, m)
      → AllEarlier
          (seen ++ listed bs)
          (fold_blocks debug_constant debug_ty debug_privacy func bs firsts m)
  unfolding fold_blocks
  fold_blocks-AllEarlier seen [] firsts m h = AllEarlier-append seen [] m h.1
  fold_blocks-AllEarlier seen (b ∷ bs) firsts m h =
      let next = fold_instrs debug_constant debug_ty debug_privacy func b.instructions firsts m in
      subst
        (λ s.
          AllEarlier s (fold_blocks debug_constant debug_ty debug_privacy func bs next.0 next.1))
        (append_assoc seen b.instructions (listed bs))
        (fold_blocks-AllEarlier (seen ++ b.instructions) bs next.0 next.1
          (fold_instrs-InOrder seen b.instructions firsts m h))
