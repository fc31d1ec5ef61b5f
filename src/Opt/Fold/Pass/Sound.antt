-- ===== src/Opt/Fold/Pass/Sound.antt =====
-- The folding pass of crates/covenant-opt/src/constant_fold.rs keeps what the function computes: each
-- fresh constant stands for the value that the operation it replaces yields at run time.
use covenant_language.Base.{
  ℕ, suc, ◌+◌, ◌^◌, ◌<◌, ◌≡◌, refl, sym, ap, ◌∙◌, inl, inr, Bool, true, false, Option, none, some,
  List, [], ◌∷◌, ◌++◌, map, arith, lookup, All, length, Option-cases,
}
use covenant_language.Ir.Ident.{Value}
use covenant_language.Ir.Function.{IrConstant, ValueInfo, Instr, IrBlock, IrFunction}
use covenant_language.Opt.Fold.{const_of, as_const, all_consts, try_fold}
use covenant_language.Opt.Fold.Values.{value_of, Fits, fold_constants-value_of}
use covenant_language.Opt.Rewrite.{Replacements, apply_replacements}
use covenant_language.Opt.Rewrite.View.{
  view, view_block, AllAgree, Agrees-AllAgree, view-apply_replacements,
}
use covenant_language.Opt.Rewrite.Reads.{AllRead, AllRead-map, view-AllRead}
use covenant_language.Opt.Fold.Pass.{
  max_value, fresh_value, fresh_const, Folded, fold_of, folds_in, folds, allocate, run_function,
}
use covenant_language.Opt.Fold.Pass.Registry.{
  IsRegistered, lookup-allocate, allocate-blocks, apply_replacements-values, lookup-above,
  max_value-append_last, lookup-append_last,
}

-- While an id is left, a fresh constant has one that no registered value has, and is read back.
as_const-allocate :
    (f : Folded) (fs : List Folded) (func : IrFunction) (m : Replacements)
    → max_value func.values + 1 < 2 ^ 32
    → as_const (allocate (f ∷ fs) func m).0 (fresh_value func) ≡ some f.constant
unfolding allocate fresh_const as_const
as_const-allocate f fs func m room =
    let fresh : max_value func.values < fresh_value func =
      unfold fresh_value in omega (arith, room) in
    let read =
      lookup-append_last func.values (fresh_value func) (ValueInfo.const f.constant)
        (lookup-above (fresh_value func) func.values fresh) in
    ap const_of (lookup-allocate (fresh_value func) _ fs _ _ read)

allocate-room :
    (f : Folded) (func : IrFunction) (n : ℕ)
    → max_value func.values + suc n < 2 ^ 32
    → max_value (fresh_const func f.constant f.ty f.privacy f.span).0.values + n < 2 ^ 32
unfolding fresh_const fresh_value
allocate-room f func n room =
    omega (
      arith,
      max_value-append_last func.values (fresh_value func) (ValueInfo.const f.constant),
      room,
    )

module _ {D : Type 0} (constant_meaning : IrConstant → D) where
  abbrev constant_or : Option IrConstant → D → D
  constant_or (some c) d = constant_meaning c
  constant_or none d = d

  -- A registered constant means what it is; any other value keeps its meaning.
  abbrev pub with_constants : IrFunction → (Value → D) → Value → D
  with_constants func meaning v = constant_or (as_const func v) (meaning v)

  module _ (meaning : Value → D) where
    -- The values that the function registers as constants mean these.
    abbrev pub Registers : IrFunction → Type 0
    Registers func =
        (v : Value) (c : IrConstant) → as_const func v ≡ some c → meaning v ≡ constant_meaning c

    -- An instruction whose operands are constants leaves the value of its operation on them, the
    -- integers being `u128`s, in a value that is registered.
    abbrev pub Computes : IrFunction → Instr → Type 0
    Computes func i =
        (r : Value) (cs : List IrConstant)
        → i.result ≡ some r
        → all_consts func i.operands ≡ some cs
        → IsRegistered func r
          × Fits i.opcode cs
          × ((c : IrConstant) → value_of i.opcode cs ≡ some c → meaning r ≡ constant_meaning c)

    abbrev Right : IrFunction → Folded → Type 0
    Right func f = IsRegistered func f.result × (meaning f.result ≡ constant_meaning f.constant)

    try_fold-Computes :
        (func : IrFunction) (i : Instr) (r : Value) (c : IrConstant)
        → Computes func i
        → i.result ≡ some r
        → try_fold func i.opcode i.operands ≡ some c
        → IsRegistered func r × (meaning r ≡ constant_meaning c)
    unfolding try_fold
    try_fold-Computes func i r c h e t = elim (Option-cases (all_consts func i.operands)) [
      | inl none_known ↦ cc (rw (none_known, try_fold) at t)
      | inr (cs, known) ↦
          let (registered, fits, means) = h r cs e known in
          (
            registered,
            means c (fold_constants-value_of i.opcode cs c fits (rw (known, try_fold) at t)),
          )
    ]

    fold_of-Right :
        (func : IrFunction) (o : Option Value) (lift : Bool) (c : Option IrConstant)
        → ((r : Value) (d : IrConstant)
            → o ≡ some r
            → c ≡ some d
            → IsRegistered func r × (meaning r ≡ constant_meaning d))
        → All (Right func) (fold_of func o lift c)
    fold_of-Right func none lift c h = tt
    fold_of-Right func (some r) true c h = tt
    fold_of-Right func (some r) false none h = tt
    fold_of-Right func (some r) false (some d) h = (h r d refl refl, tt)

    Right-append :
        (func : IrFunction) (fs gs : List Folded)
        → All (Right func) fs
        → All (Right func) gs
        → All (Right func) (fs ++ gs)
    Right-append func [] gs h k = k
    Right-append func (f ∷ fs) gs h k = (h.0, Right-append func fs gs h.1 k)

    folds_in-Right :
        (func : IrFunction) (is : List Instr)
        → All (Computes func) is
        → All (Right func) (folds_in func is)
    unfolding folds_in
    folds_in-Right func [] h = tt
    folds_in-Right func (i ∷ is) h =
        Right-append func _ _
          (fold_of-Right func i.result i.from_lift _
            (λ r c e t. try_fold-Computes func i r c h.0 e t))
          (folds_in-Right func is h.1)

    folds-Right :
        (func : IrFunction) (bs : List IrBlock)
        → All (λ (b : IrBlock). All (Computes func) b.instructions) bs
        → All (Right func) (folds func bs)
    unfolding folds
    folds-Right func [] h = tt
    folds-Right func (b ∷ bs) h =
        Right-append func _ _ (folds_in-Right func b.instructions h.0) (folds-Right func bs h.1)

    constant_or-Registers :
        (info : ValueInfo) (d : D)
        → ((c : IrConstant) → const_of (some info) ≡ some c → d ≡ constant_meaning c)
        → constant_or (const_of (some info)) d ≡ d
    constant_or-Registers (ValueInfo.const c) d h = sym (h c refl)
    constant_or-Registers _ d h = refl

    -- The constants that the pass adds leave what is registered its meaning.
    with_constants-allocate :
        (func : IrFunction) (fs : List Folded) (m : Replacements) (v : Value)
        → Registers func
        → IsRegistered func v
        → with_constants (allocate fs func m).0 meaning v ≡ meaning v
    unfolding as_const
    with_constants-allocate func fs m v h (info, e) =
        ap (λ o. constant_or (const_of o) (meaning v)) (lookup-allocate v info fs func m e)
        ∙ constant_or-Registers info (meaning v) (λ c k. h v c (ap const_of e ∙ k))

  allocate-AllAgree :
      (n : Value → D) (fs : List Folded) (func : IrFunction) (m : Replacements)
      → Registers n (allocate fs func m).0
      → All (λ (f : Folded). n f.result ≡ constant_meaning f.constant) fs
      → max_value func.values + length fs < 2 ^ 32
      → AllAgree n m
      → AllAgree n (allocate fs func m).1
  unfolding allocate fresh_const
  allocate-AllAgree n [] func m r h room a = a
  allocate-AllAgree n (f ∷ fs) func m r h room a =
      allocate-AllAgree n fs _ _ r h.1 (allocate-room f func (length fs) room) (
        h.0
            ∙ sym (
                r (fresh_value func) f.constant
                  (as_const-allocate f fs func m (omega (arith, room)))),
        a,
      )

  with_constants-Registers :
      (meaning : Value → D) (func : IrFunction) → Registers (with_constants func meaning) func
  with_constants-Registers meaning func v c e = ap (λ o. constant_or o (meaning v)) e

  All-Right :
      (meaning : Value → D) (func : IrFunction) (fs gs : List Folded)
      → Registers meaning func
      → All (Right meaning func) fs
      → All
          (λ (f : Folded).
            with_constants (allocate gs func []).0 meaning f.result ≡ constant_meaning f.constant)
          fs
  All-Right meaning func [] gs h k = tt
  All-Right meaning func (f ∷ fs) gs h k = (
    with_constants-allocate meaning func gs [] f.result h k.0.0 ∙ k.0.1,
    All-Right meaning func fs gs h k.1,
  )

  -- Let registered constants mean what they are; let each instruction with a result whose operands are
  -- constants leave the run-time value of its operation on them in a registered value, two integer
  -- operands and a left shift of them having 128 bits; let every value that is read be registered;
  -- and let there be an id below 2 ^ 32 left for each constant that is folded. Then the function after
  -- the pass, where its constants mean what they are and all else means what it meant, computes what
  -- it computed before, operand by operand.
  pub view-run_function_fold :
      (meaning : Value → D) (func : IrFunction)
      → Registers meaning func
      → All (λ (b : IrBlock). All (Computes meaning func) b.instructions) func.blocks
      → All (AllRead (IsRegistered func)) func.blocks
      → max_value func.values + length (folds func func.blocks) < 2 ^ 32
      → view (with_constants (run_function func).0 meaning) (run_function func).0
        ≡ view meaning func
  unfolding run_function as_const
  view-run_function_fold meaning func h computes reads room =
      let fs = folds func func.blocks in
      let made = allocate fs func [] in
      let n = with_constants made.0 meaning in
      let agree =
        allocate-AllAgree n fs func [] (with_constants-Registers meaning made.0)
          (All-Right meaning func fs fs h (folds-Right meaning func func.blocks computes)) room
          tt in
      let kept : view n made.0 ≡ view n func =
        unfold view in ap (map (view_block n)) (allocate-blocks fs func []) in
      ap
        (λ values.
          view (λ v. constant_or (const_of (lookup v values)) (meaning v))
            (apply_replacements made.0 made.1).0)
        (apply_replacements-values made.0 made.1)
      ∙ view-apply_replacements n made.0 made.1 (Agrees-AllAgree n made.1 agree)
      ∙ kept
      ∙ view-AllRead n meaning func (
          AllRead-map _ _ (λ v r. with_constants-allocate meaning func fs [] v h r) func.blocks
            reads)
