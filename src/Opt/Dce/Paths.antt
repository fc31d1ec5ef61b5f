-- ===== src/Opt/Dce/Paths.antt =====
-- Control flow between the blocks of a function, without reference to the walk of
-- crates/covenant-opt/src/dce.rs: paths of terminators from the entry.
use covenant_language.Base.{
  ◌≡◌, subst, inl, inr, true, some, List, arith, ◌==◌, ==_iff, contains, Bool-cases, Option-cases,
}
use covenant_language.Ir.Ident.{Value, BlockId}
use covenant_language.Ir.Function.{Terminator, IrBlock, IrFunction, find_block}
use covenant_language.Opt.Dce.{successors, successors_of}

-- Control can pass from the terminator to the block of the id; an encrypted branch also goes on to
-- the block that merges its two sides.
pub data Goes : Terminator → BlockId → Type 0 where
  jump : {t : BlockId} {args : List Value} → Goes (Terminator.jump t args) t
  then_side :
      {c : Value} {t e : BlockId} {ts es : List Value} → Goes (Terminator.branch c t ts e es) t
  else_side :
      {c : Value} {t e : BlockId} {ts es : List Value} → Goes (Terminator.branch c t ts e es) e
  fhe_then_side :
      {c : Value} {t e m : BlockId} {ts es : List Value}
      → Goes (Terminator.fhe_branch c t ts e es m) t
  fhe_else_side :
      {c : Value} {t e m : BlockId} {ts es : List Value}
      → Goes (Terminator.fhe_branch c t ts e es m) e
  fhe_merge :
      {c : Value} {t e m : BlockId} {ts es : List Value}
      → Goes (Terminator.fhe_branch c t ts e es m) m

-- The ids to which a path of terminators leads from the entry.
pub data Reach (func : IrFunction) : BlockId → Type 0 where
  entry : Reach func func.entry
  follow :
      {u v : BlockId} (b : IrBlock)
      → Reach func u
      → find_block u func.blocks ≡ some b
      → Goes b.terminator v
      → Reach func v

Goes-successors : (t : Terminator) (v : BlockId) → Goes t v → contains v (successors t) ≡ true
unfolding successors
Goes-successors _ v Goes.jump = ground arith
Goes-successors _ v Goes.then_side = ground arith
Goes-successors _ v Goes.else_side = ground arith
Goes-successors _ v Goes.fhe_then_side = ground arith
Goes-successors _ v Goes.fhe_else_side = ground arith
Goes-successors _ v Goes.fhe_merge = ground arith

successors-Goes : (t : Terminator) (v : BlockId) → contains v (successors t) ≡ true → Goes t v
unfolding successors
successors-Goes (Terminator.jump t args) v h =
    subst (Goes (Terminator.jump t args)) ((==_iff t v).0 (ground arith)) Goes.jump
successors-Goes (Terminator.branch c t ts e es) v h = elim (Bool-cases (t == v)) [
  | inl p ↦ subst (Goes (Terminator.branch c t ts e es)) ((==_iff t v).0 p) Goes.then_side
  | inr p ↦
      subst (Goes (Terminator.branch c t ts e es)) ((==_iff e v).0 (ground arith)) Goes.else_side
]
successors-Goes (Terminator.fhe_branch c t ts e es m) v h =
    let G = Goes (Terminator.fhe_branch c t ts e es m) in
    elim (Bool-cases (t == v)) [
      | inl p ↦ subst G ((==_iff t v).0 p) Goes.fhe_then_side
      | inr p ↦ elim (Bool-cases (e == v)) [
        | inl q ↦ subst G ((==_iff e v).0 q) Goes.fhe_else_side
        | inr q ↦ subst G ((==_iff m v).0 (ground arith)) Goes.fhe_merge
      ]
    ]
successors-Goes (Terminator.return _) v h = cc
successors-Goes (Terminator.revert _ _) v h = cc
successors-Goes Terminator.unreachable v h = cc

-- What the walk enqueues is where control can pass.
pub Reach-successors_of :
    (func : IrFunction) (u v : BlockId)
    → Reach func u
    → contains v (successors_of func.blocks u) ≡ true
    → Reach func v
unfolding successors_of
Reach-successors_of func u v r h = elim (Option-cases (find_block u func.blocks)) [
  | inl e ↦ cc (rw (e, contains) at h)
  | inr (b, e) ↦ Reach.follow b r e (successors-Goes b.terminator v (rw (e, contains) at h))
]

pub successors_of-Goes :
    (blocks : List IrBlock) (u v : BlockId) (b : IrBlock)
    → find_block u blocks ≡ some b
    → Goes b.terminator v
    → contains v (successors_of blocks u) ≡ true
unfolding successors_of
successors_of-Goes blocks u v b e g = rw (e, contains) (Goes-successors b.terminator v g)
