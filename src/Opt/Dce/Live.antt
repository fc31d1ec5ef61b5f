-- ===== src/Opt/Dce/Live.antt =====
-- The liveness walk of crates/covenant-opt/src/dce.rs ends within its fuel, holds what it was seeded
-- with, and with a value holds the operands of each instruction that defines it.
use covenant_language.Base.{
  ℕ, zero, suc, ◌+◌, ◌≤◌, ◌<◌, ◌≡◌, refl, sym, ap, subst, ◌∙◌, inl, inr, Bool, true, false, ◌||◌,
  Option, none, some, List, [], ◌∷◌, ◌++◌, arith, ◌==◌, if◌then◌else◌, ==_iff, length,
  length-append, length-reverse, contains, contains-append, contains-reverse, Bool-cases,
}
use mathlib.Core.List.{reverse, Memᴰ}
use covenant_language.Ir.Ident.{Value}
use covenant_language.Ir.Function.{Instr, IrFunction}
use covenant_language.Opt.Dce.{
  defines, definer_operands, propagate, operand_total, live_walk, all_instructions, seeds,
}

cost : List Value → Instr → ℕ
cost live i = elim i.result [ none ↦ 0 | some r ↦ if contains r live then 0 else length i.operands ]

-- The operands that the walk may still push.
pending : List Value → List Instr → ℕ
unfolding cost
pending live [] = 0
pending live (i ∷ is) = cost live i + pending live is

pending-le-total : (live : List Value) (is : List Instr) → pending live is ≤ operand_total is
unfolding pending operand_total
pending-le-total live [] = omega arith
pending-le-total live (i ∷ is) = ground (arith, pending-le-total live is)

-- Popping a new value pushes no more than it takes off the operands still pending.
cost-visit :
    (v : Value) (live : List Value) (ops : List Value) (r : Option Value)
    → contains v live ≡ false
    → length (if defines v r then ops else [])
        + elim r [ none ↦ 0 | some x ↦ if contains x (v ∷ live) then 0 else length ops ]
      ≤ elim r [ none ↦ 0 | some x ↦ if contains x live then 0 else length ops ]
cost-visit v live ops none h = omega arith
cost-visit v live ops (some r) h = elim (Bool-cases (r == v)) [
  | inl e ↦ rw ((==_iff r v).0 e, h) (ground arith)
  | inr e ↦ ground arith
]

pending-visit :
    (v : Value) (live : List Value) (is : List Instr)
    → contains v live ≡ false
    → length (definer_operands v is) + pending (v ∷ live) is ≤ pending live is
unfolding definer_operands pending
pending-visit v live [] h = omega arith
pending-visit v live (i ∷ is) h = elim (Bool-cases (defines v i.result)) [
  | inl e ↦ rw e (
      ground (
        arith,
        length-append i.operands (definer_operands v is),
        cost-visit v live i.operands i.result h,
        pending-visit v live is h,
      ))
  | inr e ↦
      rw e (ground (arith, cost-visit v live i.operands i.result h, pending-visit v live is h))
]

-- What a pop pushes onto the frontier.
abbrev pushed : Value → List Instr → List Value → List Value
pushed v is frontier = reverse (definer_operands v is) ++ frontier

length-pushed :
    (v : Value) (is : List Instr) (frontier : List Value)
    → length (pushed v is frontier) ≡ length (definer_operands v is) + length frontier
length-pushed v is frontier = omega (
  arith,
  length-append (reverse (definer_operands v is)) frontier,
  length-reverse (definer_operands v is),
)

contains-pushed :
    (w v : Value) (is : List Instr) (frontier : List Value)
    → contains w (pushed v is frontier)
      ≡ (contains w (definer_operands v is) || contains w frontier)
contains-pushed w v is frontier = ground (
  arith,
  contains-append w (reverse (definer_operands v is)) frontier,
  contains-reverse w (definer_operands v is),
)

propagate-empties :
    (fuel : ℕ) (is : List Instr) (live frontier : List Value)
    → length frontier + pending live is < fuel
    → (propagate fuel is live frontier).1 ≡ []
unfolding propagate
propagate-empties zero is live frontier h = absurd (omega arith)
propagate-empties (suc fuel) is live [] h = refl
propagate-empties (suc fuel) is live (v ∷ frontier) h = elim (Bool-cases (contains v live)) [
  | inl seen ↦ rw (seen, propagate) (propagate-empties fuel is live frontier (omega arith))
  | inr unseen ↦
      rw (unseen, propagate)
        (propagate-empties fuel is (v ∷ live) (pushed v is frontier)
          (omega (arith, length-pushed v is frontier, pending-visit v live is unseen)))
]

module _ (is : List Instr) where
  abbrev Found : List Value → List Value → Value → Type 0
  Found live frontier v = (contains v live || contains v frontier) ≡ true

  -- What a live value's definers read is live or waits in the frontier.
  abbrev Closed : List Value → List Value → Type 0
  Closed live frontier =
      (v w : Value)
      → contains v live ≡ true
      → contains w (definer_operands v is) ≡ true
      → Found live frontier w

  Found-visit :
      (v : Value) (live frontier : List Value) (w : Value)
      → Found live (v ∷ frontier) w
      → Found (v ∷ live) (pushed v is frontier) w
  Found-visit v live frontier w h = ground (arith, contains-pushed w v is frontier)

  Closed-visit :
      (v : Value) (live frontier : List Value)
      → Closed live (v ∷ frontier)
      → Closed (v ∷ live) (pushed v is frontier)
  Closed-visit v live frontier c u w h n = elim (Bool-cases (v == u)) [
    | inl e ↦
        let n' : contains w (definer_operands v is) ≡ true =
          subst (λ x. contains w (definer_operands x is) ≡ true) (sym ((==_iff v u).0 e)) n in
        ground (arith, contains-pushed w v is frontier)
    | inr e ↦ Found-visit v live frontier w (c u w (ground arith) n)
  ]

  Found-skip :
      (v : Value) (live frontier : List Value)
      → contains v live ≡ true
      → (w : Value) → Found live (v ∷ frontier) w
      → Found live frontier w
  Found-skip v live frontier seen w h = elim (Bool-cases (v == w)) [
    | inl e ↦ subst (Found live frontier) ((==_iff v w).0 e) (ground arith)
    | inr e ↦ ground arith
  ]

  propagate-Closed :
      (fuel : ℕ) (live frontier : List Value)
      → Closed live frontier
      → let r = propagate fuel is live frontier in
        Closed r.0 r.1 × ((v : Value) → Found live frontier v → Found r.0 r.1 v)
  unfolding propagate
  propagate-Closed zero live frontier c = (c, λ v h. h)
  propagate-Closed (suc fuel) live [] c = (c, λ v h. h)
  propagate-Closed (suc fuel) live (v ∷ frontier) c = elim (Bool-cases (contains v live)) [
    | inl seen ↦
        let skip = Found-skip v live frontier seen in
        let ih = propagate-Closed fuel live frontier (λ u w h n. skip w (c u w h n)) in
        rw (seen, propagate) (ih.0, λ w h. ih.1 w (skip w h))
    | inr unseen ↦
        let ih =
          propagate-Closed fuel (v ∷ live) (pushed v is frontier)
            (Closed-visit v live frontier c) in
        rw (unseen, propagate) (ih.0, λ w h. ih.1 w (Found-visit v live frontier w h))
  ]

module _ (func : IrFunction) (must_keep : List (List Bool)) where
  -- The fuel that the pass gives the liveness walk empties its frontier.
  pub live_walk-ends : (live_walk func must_keep).1 ≡ []
  unfolding live_walk
  live_walk-ends =
      let is = all_instructions func.blocks in
      let frontier = reverse (seeds must_keep func.blocks) in
      propagate-empties (1 + length frontier + operand_total is) is [] frontier
        (omega (arith, pending-le-total [] is))

  abbrev Outcome : List Value → Type 0
  Outcome left =
      Closed (all_instructions func.blocks) (live_walk func must_keep).0 left
      × ((v : Value)
          → Found (all_instructions func.blocks) [] (reverse (seeds must_keep func.blocks)) v
          → Found (all_instructions func.blocks) (live_walk func must_keep).0 left v)

  walked : Outcome (live_walk func must_keep).1
  unfolding live_walk
  walked =
      let is = all_instructions func.blocks in
      let frontier = reverse (seeds must_keep func.blocks) in
      propagate-Closed is (1 + length frontier + operand_total is) [] frontier (λ v w h n. cc)

  facts : Outcome []
  facts = subst Outcome live_walk-ends walked

  -- The seeds are live, and so is all that a live value's definers read.
  pub live_walk-closed :
      (v w : Value)
      → contains v (live_walk func must_keep).0 ≡ true
      → contains w (definer_operands v (all_instructions func.blocks)) ≡ true
      → contains w (live_walk func must_keep).0 ≡ true
  live_walk-closed v w h n = ground (arith, facts.0 v w h n)

  pub live_walk-seeds :
      (v : Value)
      → contains v (seeds must_keep func.blocks) ≡ true
      → contains v (live_walk func must_keep).0 ≡ true
  live_walk-seeds v h = ground (arith, facts.1 v, contains-reverse v (seeds must_keep func.blocks))

-- An instruction that defines `v` has its operands among those of the definers of `v`.
pub definer_operands-mem :
    (d : Instr) (v w : Value) (is : List Instr)
    → Memᴰ d is
    → d.result ≡ some v
    → contains w d.operands ≡ true
    → contains w (definer_operands v is) ≡ true
unfolding definer_operands
definer_operands-mem d v w [] m e h = elim m [ ]
definer_operands-mem d v w (i ∷ is) (Memᴰ.head p) e h =
    let q : i.result ≡ some v = ap (λ (x : Instr). x.result) (sym p) ∙ e in
    let k : contains w i.operands ≡ true = ap (λ (x : Instr). contains w x.operands) (sym p) ∙ h in
    rw q (ground (arith, contains-append w i.operands (definer_operands v is)))
definer_operands-mem d v w (i ∷ is) (Memᴰ.tail m) e h = elim (Bool-cases (defines v i.result)) [
  | inl t ↦ rw t (
      ground (
        arith,
        contains-append w i.operands (definer_operands v is),
        definer_operands-mem d v w is m e h,
      ))
  | inr f ↦ rw f (definer_operands-mem d v w is m e h)
]
