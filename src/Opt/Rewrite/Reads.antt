-- ===== src/Opt/Rewrite/Reads.antt =====
-- The values that a function reads (crates/covenant-opt/src/helpers.rs visits them): what it computes depends
-- on no other meaning.
use covenant_language.Base.{◌≡◌, refl, ap₂, none, some, List, [], ◌∷◌, ◌++◌, map, All}
use covenant_language.Ir.Ident.{Value}
use covenant_language.Ir.Function.{Instr, Terminator, IrBlock, IrFunction}
use covenant_language.Opt.Dce.{uses}
use covenant_language.Opt.Rewrite.View.{view, view_block, view_instr, view_terminator}

-- A property of every value that a block reads.
abbrev pub AllRead : (Value → Type 0) → IrBlock → Type 0
AllRead P b = All (λ (i : Instr). All P i.operands) b.instructions × All P (uses b.terminator)

pub AllRead-map :
    (P Q : Value → Type 0)
    → ((v : Value) → P v → Q v)
    → (bs : List IrBlock) → All (AllRead P) bs
    → All (AllRead Q) bs
AllRead-map P Q f [] h = tt
AllRead-map P Q f (b ∷ bs) h = (
  (instructions b.instructions h.0.0, values (uses b.terminator) h.0.1),
  AllRead-map P Q f bs h.1,
)
  where
    values : (vs : List Value) → All P vs → All Q vs
    values [] h = tt
    values (v ∷ vs) h = (f v h.0, values vs h.1)

    instructions :
        (is : List Instr)
        → All (λ (i : Instr). All P i.operands) is
        → All (λ (i : Instr). All Q i.operands) is
    instructions [] h = tt
    instructions (i ∷ is) h = (values i.operands h.0, instructions is h.1)

module _ {D : Type 0} (m n : Value → D) where
  abbrev Same : Value → Type 0
  Same v = m v ≡ n v

  map-Same : (vs : List Value) → All Same vs → map m vs ≡ map n vs
  map-Same [] h = refl
  map-Same (v ∷ vs) h = ap₂ ◌∷◌ h.0 (map-Same vs h.1)

  map_split :
      (xs ys : List Value) → All Same (xs ++ ys) → (map m xs ≡ map n xs) × (map m ys ≡ map n ys)
  map_split [] ys h = (refl, map-Same ys h)
  map_split (x ∷ xs) ys h = let (p, q) = map_split xs ys h.1 in (ap₂ ◌∷◌ h.0 p, q)

  view_terminator-Same :
      (t : Terminator) → All Same (uses t) → view_terminator m t ≡ view_terminator n t
  unfolding uses
  view_terminator-Same (Terminator.jump t args) h = rw (map-Same args h) refl
  view_terminator-Same (Terminator.branch c t ts e es) h =
      let (p, q) = map_split ts es h.1 in rw (h.0, p, q) refl
  view_terminator-Same (Terminator.fhe_branch c t ts e es merge) h =
      let (p, q) = map_split ts es h.1 in rw (h.0, p, q) refl
  view_terminator-Same (Terminator.return (some v)) h = rw h.0 refl
  view_terminator-Same (Terminator.return none) h = refl
  view_terminator-Same (Terminator.revert error args) h = rw (map-Same args h) refl
  view_terminator-Same Terminator.unreachable h = refl

  instrs-Same :
      (is : List Instr)
      → All (λ (i : Instr). All Same i.operands) is
      → map (view_instr m) is ≡ map (view_instr n) is
  instrs-Same [] h = refl
  instrs-Same (i ∷ is) h = ap₂ ◌∷◌ (rw (map-Same i.operands h.0) refl) (instrs-Same is h.1)

  blocks-Same :
      (bs : List IrBlock) → All (AllRead Same) bs → map (view_block m) bs ≡ map (view_block n) bs
  blocks-Same [] h = refl
  blocks-Same (b ∷ bs) h =
      ap₂ ◌∷◌ (rw (instrs-Same b.instructions h.0.0, view_terminator-Same b.terminator h.0.1) refl)
        (blocks-Same bs h.1)

  -- Two meanings that agree on what a function reads show the same of it.
  pub view-AllRead :
      (func : IrFunction) → All (AllRead Same) func.blocks → view m func ≡ view n func
  unfolding view
  view-AllRead func h = blocks-Same func.blocks h
