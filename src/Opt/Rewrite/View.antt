-- ===== src/Opt/Rewrite/View.antt =====
-- What a function computes, seen through a meaning for each SSA value: the operations with the
-- meanings of their operands. The rewriting of crates/covenant-opt/src/helpers.rs keeps it where the
-- values it exchanges have one meaning, and where it reports no change it changes nothing.
use covenant_language.Base.{
  ◌≡◌, refl, sym, ap, ap₂, ◌∙◌, inl, inr, Bool, Option, none, some, List, [], ◌∷◌, map, lookup,
  Option-cases, Bool-cases, All, ◌++◌, ◌==◌, ==_iff,
}
use covenant_language.Ir.Ident.{Ident, Value, BlockId}
use covenant_language.Ir.Opcode.{Opcode}
use covenant_language.Ir.Function.{Instr, Terminator, IrBlock, IrFunction}
use covenant_language.Opt.Rewrite.{
  Replacements, or_keep, replace, replace_terminator, replace_instr, replace_block,
  apply_replacements,
}

-- A terminator with the meanings of the values that it reads.
pub data TerminatorView (D : Type 0) : Type 0 where
  jump : BlockId → List D → TerminatorView D
  branch : D → BlockId → List D → BlockId → List D → TerminatorView D
  fhe_branch : D → BlockId → List D → BlockId → List D → BlockId → TerminatorView D
  return : Option D → TerminatorView D
  revert : Ident → List D → TerminatorView D
  unreachable : TerminatorView D

pub record InstrView (D : Type 0) : Type 0 where
  pub result : Option Value
  pub opcode : Opcode
  pub operands : List D
  pub from_lift : Bool

pub record BlockView (D : Type 0) : Type 0 where
  pub id : BlockId
  pub params : List Value
  pub instructions : List (InstrView D)
  pub terminator : TerminatorView D

module _ {D : Type 0} (meaning : Value → D) where
  abbrev pub view_terminator : Terminator → TerminatorView D
  view_terminator (Terminator.jump t args) = TerminatorView.jump t (map meaning args)
  view_terminator (Terminator.branch c t ts e es) =
      TerminatorView.branch (meaning c) t (map meaning ts) e (map meaning es)
  view_terminator (Terminator.fhe_branch c t ts e es m) =
      TerminatorView.fhe_branch (meaning c) t (map meaning ts) e (map meaning es) m
  view_terminator (Terminator.return (some v)) = TerminatorView.return (some (meaning v))
  view_terminator (Terminator.return none) = TerminatorView.return none
  view_terminator (Terminator.revert error args) = TerminatorView.revert error (map meaning args)
  view_terminator Terminator.unreachable = TerminatorView.unreachable

  abbrev pub view_instr : Instr → InstrView D
  view_instr i = record {
    result = i.result;
    opcode = i.opcode;
    operands = map meaning i.operands;
    from_lift = i.from_lift;
  }

  abbrev pub view_block : IrBlock → BlockView D
  view_block b = record {
    id = b.id;
    params = b.params;
    instructions = map view_instr b.instructions;
    terminator = view_terminator b.terminator;
  }

  -- The function as the meanings show it.
  unfoldable pub view : IrFunction → List (BlockView D)
  view func = map view_block func.blocks

  -- The map exchanges values of one meaning.
  abbrev pub Agrees : Replacements → Type 0
  Agrees m = (v w : Value) → lookup v m ≡ some w → meaning v ≡ meaning w

  module _ (m : Replacements) (agrees : Agrees m) where
    meaning-replace : (v : Value) → meaning (replace m v) ≡ meaning v
    unfolding replace
    meaning-replace v = elim (Option-cases (lookup v m)) [
      | inl e ↦ rw e
      | inr (w, e) ↦ rw e (sym (agrees v w e))
    ]

    map-replace : (vs : List Value) → map meaning (map (replace m) vs) ≡ map meaning vs
    map-replace [] = refl
    map-replace (v ∷ vs) = ap₂ ◌∷◌ (meaning-replace v) (map-replace vs)

    view-replace_terminator :
        (t : Terminator) → view_terminator (replace_terminator m t) ≡ view_terminator t
    unfolding replace_terminator
    view-replace_terminator (Terminator.jump t args) = rw (map-replace args)
    view-replace_terminator (Terminator.branch c t ts e es) =
        rw (meaning-replace c, map-replace ts, map-replace es)
    view-replace_terminator (Terminator.fhe_branch c t ts e es merge) =
        rw (meaning-replace c, map-replace ts, map-replace es)
    view-replace_terminator (Terminator.return (some v)) = rw (meaning-replace v)
    view-replace_terminator (Terminator.return none) = refl
    view-replace_terminator (Terminator.revert error args) = rw (map-replace args)
    view-replace_terminator Terminator.unreachable = refl

    view-replace_instrs :
        (is : List Instr) → map view_instr (map (replace_instr m) is) ≡ map view_instr is
    unfolding replace_instr
    view-replace_instrs [] = refl
    view-replace_instrs (i ∷ is) = ap₂ ◌∷◌ (rw (map-replace i.operands)) (view-replace_instrs is)

    view-replace_blocks :
        (bs : List IrBlock) → map view_block (map (replace_block m) bs) ≡ map view_block bs
    unfolding replace_block
    view-replace_blocks [] = refl
    view-replace_blocks (b ∷ bs) =
        ap₂ ◌∷◌ (rw (view-replace_instrs b.instructions, view-replace_terminator b.terminator))
          (view-replace_blocks bs)

  -- Exchanging values of one meaning does not show.
  pub view-apply_replacements :
      (func : IrFunction) (m : Replacements)
      → Agrees m
      → view (apply_replacements func m).0 ≡ view func
  unfolding apply_replacements view
  view-apply_replacements func [] h = refl
  view-apply_replacements func (e ∷ m) h = view-replace_blocks (e ∷ m) h func.blocks

  -- Entry by entry; the older ones too.
  abbrev pub AllAgree : Replacements → Type 0
  AllAgree = All (λ (e : Value × Value). meaning e.0 ≡ meaning e.1)

  pub AllAgree-append : (m n : Replacements) → AllAgree m → AllAgree n → AllAgree (m ++ n)
  AllAgree-append [] n h k = k
  AllAgree-append (e ∷ m) n h k = (h.0, AllAgree-append m n h.1 k)

  pub Agrees-AllAgree : (m : Replacements) → AllAgree m → Agrees m
  Agrees-AllAgree [] h v w e = cc
  Agrees-AllAgree ((k, x) ∷ m) h v w e = elim (Bool-cases (k == v)) [
    | inl t ↦ ap meaning (sym ((==_iff k v).0 t)) ∙ h.0 ∙ ap meaning (ap (or_keep w) (rw t at e))
    | inr f ↦ Agrees-AllAgree m h.1 v w (rw f at e)
  ]
