-- ===== src/Opt/Dce/Reachable.antt =====
-- The block walk of crates/covenant-opt/src/dce.rs ends within its fuel, and finds exactly the
-- blocks to which the terminators lead from the entry.
use covenant_language.Base.{
  ℕ, zero, suc, ◌+◌, ◌*◌, ◌≤◌, ◌<◌, ◌≡◌, refl, ◌↔◌, inl, inr, true, false, ◌||◌, List, [], ◌∷◌,
  ◌++◌, arith, ◌==◌, if◌then◌else◌, ==_iff, length, length-append, contains, contains-append,
  Bool-cases, sym, subst, Memᴰ-keep_if, keep_if,
}
use mathlib.Core.List.{Memᴰ}
use covenant_language.Ir.Ident.{BlockId}
use covenant_language.Ir.Function.{IrBlock, IrFunction, find_block, Terminator}
use covenant_language.Opt.Dce.Paths.{Reach, Reach-successors_of, successors_of-Goes}
use covenant_language.Opt.Dce.{
  successors, successors_of, walk, walk_fuel, reachable_blocks, remove_unreachable,
}

-- The blocks whose id is not reached yet.
fresh : List BlockId → List IrBlock → ℕ
fresh reached [] = 0
fresh reached (b ∷ bs) = (if contains b.id reached then 0 else 1) + fresh reached bs

fresh-le-length : (reached : List BlockId) (bs : List IrBlock) → fresh reached bs ≤ length bs
unfolding fresh
fresh-le-length reached [] = omega arith
fresh-le-length reached (b ∷ bs) = ground (arith, fresh-le-length reached bs)

length-successors-le : (t : Terminator) → length (successors t) ≤ 3
unfolding successors
length-successors-le (Terminator.return _) = omega arith
length-successors-le _ = omega arith

fresh_mono :
    (bid : BlockId) (reached : List BlockId) (bs : List IrBlock)
    → fresh (bid ∷ reached) bs ≤ fresh reached bs
unfolding fresh
fresh_mono bid reached [] = omega arith
fresh_mono bid reached (b ∷ bs) = ground (arith, fresh_mono bid reached bs)

-- What a visit adds to the queue is paid for by the block that stops being fresh.
visit-fresh :
    (bid : BlockId) (reached : List BlockId) (bs : List IrBlock)
    → contains bid reached ≡ false
    → length (successors_of bs bid) + 3 * fresh (bid ∷ reached) bs ≤ 3 * fresh reached bs
unfolding fresh successors_of find_block
visit-fresh bid reached [] h = omega arith
visit-fresh bid reached (b ∷ bs) h = ground (
  arith,
  fresh_mono bid reached bs,
  length-successors-le b.terminator,
  visit-fresh bid reached bs,
)

walk-empties :
    (fuel : ℕ) (bs : List IrBlock) (reached queue : List BlockId)
    → length queue + 3 * fresh reached bs < fuel
    → (walk fuel bs reached queue).1 ≡ []
unfolding walk
walk-empties zero bs reached queue h = absurd (omega arith)
walk-empties (suc fuel) bs reached [] h = refl
walk-empties (suc fuel) bs reached (bid ∷ queue) h = elim (Bool-cases (contains bid reached)) [
  | inl seen ↦ rw (seen, walk) (walk-empties fuel bs reached queue (omega arith))
  | inr unseen ↦
      rw (unseen, walk)
        (walk-empties fuel bs (bid ∷ reached) (queue ++ successors_of bs bid) (
          omega
            (arith, length-append queue (successors_of bs bid), visit-fresh bid reached bs unseen)))
]

-- The fuel that the pass gives the walk empties its queue.
pub reachable_blocks-ends :
    (func : IrFunction) → (walk (walk_fuel func.blocks) func.blocks [] (func.entry ∷ [])).1 ≡ []
reachable_blocks-ends func =
    walk-empties (walk_fuel func.blocks) func.blocks [] (func.entry ∷ [])
      (omega (arith, fresh-le-length [] func.blocks))

module _ (func : IrFunction) where
  abbrev next : BlockId → List BlockId
  next = successors_of func.blocks

  abbrev AllReach : List BlockId → Type 0
  AllReach ids = (v : BlockId) → contains v ids ≡ true → Reach func v

  AllReach-cons :
      (bid : BlockId) (ids : List BlockId) → Reach func bid → AllReach ids → AllReach (bid ∷ ids)
  AllReach-cons bid ids r rs v h = elim (Bool-cases (bid == v)) [
    | inl e ↦ subst (Reach func) ((==_iff bid v).0 e) r
    | inr e ↦ rs v (ground arith)
  ]

  AllReach-next :
      (bid : BlockId) (queue : List BlockId) → AllReach (bid ∷ queue) → AllReach (queue ++ next bid)
  AllReach-next bid queue rs v h = elim (Bool-cases (contains v queue)) [
    | inl e ↦ rs v (ground arith)
    | inr e ↦
        Reach-successors_of func bid v (rs bid (ground arith))
          (ground (arith, contains-append v queue (next bid)))
  ]

  AllReach-tail : (bid : BlockId) (ids : List BlockId) → AllReach (bid ∷ ids) → AllReach ids
  AllReach-tail bid ids rs v h = rs v (ground arith)

  walk_sound :
      (fuel : ℕ) (reached queue : List BlockId)
      → AllReach reached
      → AllReach queue
      → AllReach (walk fuel func.blocks reached queue).0
  unfolding walk
  walk_sound zero reached queue r q = r
  walk_sound (suc fuel) reached [] r q = r
  walk_sound (suc fuel) reached (bid ∷ queue) r q = elim (Bool-cases (contains bid reached)) [
    | inl seen ↦ rw (seen, walk) (walk_sound fuel reached queue r (AllReach-tail bid queue q))
    | inr unseen ↦
        rw (unseen, walk)
          (walk_sound fuel (bid ∷ reached) (queue ++ next bid)
            (AllReach-cons bid reached (q bid (ground arith)) r) (AllReach-next bid queue q))
  ]

  abbrev Found : List BlockId → List BlockId → BlockId → Type 0
  Found reached queue v = (contains v reached || contains v queue) ≡ true

  -- Every successor of a reached id is reached or waits in the queue.
  abbrev Closed : List BlockId → List BlockId → Type 0
  Closed reached queue =
      (u v : BlockId)
      → contains u reached ≡ true
      → contains v (next u) ≡ true
      → Found reached queue v

  Found-visit :
      (bid : BlockId) (reached queue : List BlockId) (v : BlockId)
      → Found reached (bid ∷ queue) v
      → Found (bid ∷ reached) (queue ++ next bid) v
  Found-visit bid reached queue v h = ground (arith, contains-append v queue (next bid))

  Closed-visit :
      (bid : BlockId) (reached queue : List BlockId)
      → Closed reached (bid ∷ queue)
      → Closed (bid ∷ reached) (queue ++ next bid)
  Closed-visit bid reached queue c u v h n = elim (Bool-cases (bid == u)) [
    | inl e ↦
        let n' : contains v (next bid) ≡ true =
          subst (λ w. contains v (next w) ≡ true) (sym ((==_iff bid u).0 e)) n in
        ground (arith, contains-append v queue (next bid))
    | inr e ↦ Found-visit bid reached queue v (c u v (ground arith) n)
  ]

  Found-skip :
      (bid : BlockId) (reached queue : List BlockId)
      → contains bid reached ≡ true
      → (v : BlockId) → Found reached (bid ∷ queue) v
      → Found reached queue v
  Found-skip bid reached queue seen v h = elim (Bool-cases (bid == v)) [
    | inl e ↦ subst (Found reached queue) ((==_iff bid v).0 e) (ground arith)
    | inr e ↦ ground arith
  ]

  walk_complete :
      (fuel : ℕ) (reached queue : List BlockId)
      → Closed reached queue
      → let r = walk fuel func.blocks reached queue in
        Closed r.0 r.1 × ((v : BlockId) → Found reached queue v → Found r.0 r.1 v)
  unfolding walk
  walk_complete zero reached queue c = (c, λ v h. h)
  walk_complete (suc fuel) reached [] c = (c, λ v h. h)
  walk_complete (suc fuel) reached (bid ∷ queue) c = elim (Bool-cases (contains bid reached)) [
    | inl seen ↦
        let skip = Found-skip bid reached queue seen in
        let ih = walk_complete fuel reached queue (λ u v h n. skip v (c u v h n)) in
        rw (seen, walk) (ih.0, λ v h. ih.1 v (skip v h))
    | inr unseen ↦
        let ih =
          walk_complete fuel (bid ∷ reached) (queue ++ next bid)
            (Closed-visit bid reached queue c) in
        rw (unseen, walk) (ih.0, λ v h. ih.1 v (Found-visit bid reached queue v h))
  ]

  Reach-Found : {v : BlockId} → Reach func v → contains v (reachable_blocks func) ≡ true
  unfolding reachable_blocks
  Reach-Found r = go r
    where
      done :
          Closed (reachable_blocks func) []
          × ((v : BlockId) → Found [] (func.entry ∷ []) v → Found (reachable_blocks func) [] v)
      done =
          rw (reachable_blocks-ends func) at
            (walk_complete (walk_fuel func.blocks) [] (func.entry ∷ []) (λ u v h n. cc))

      go : {v : BlockId} → Reach func v → contains v (reachable_blocks func) ≡ true
      go Reach.entry = ground (arith, done.1 func.entry)
      go (Reach.follow {u} {v} b r e g) =
          ground (arith, done.0 u v (go r) (successors_of-Goes func.blocks u v b e g))

-- The walk reaches exactly the ids to which a path of terminators leads from the entry.
pub reachable_blocks_iff :
    (func : IrFunction) (v : BlockId) → (contains v (reachable_blocks func) ≡ true) ↔ Reach func v
reachable_blocks_iff func v = (sound v, Reach-Found func)
  where
    sound : (v : BlockId) → contains v (reachable_blocks func) ≡ true → Reach func v
    sound =
        unfold reachable_blocks in
        walk_sound func (walk_fuel func.blocks) [] (func.entry ∷ []) (λ u h. cc)
          (λ u h. subst (Reach func) ((==_iff func.entry u).0 (ground arith)) Reach.entry)

-- The block removal keeps each block to which control can come; where it reports a change, it keeps
-- no other, and where it reports none, it keeps the function as it is.
pub remove_unreachable_lem :
    (func : IrFunction) (b : IrBlock)
    → let removed = remove_unreachable func in
      (Memᴰ b func.blocks → Reach func b.id → Memᴰ b removed.0.blocks)
      × (removed.1 ≡ true → Memᴰ b removed.0.blocks → Memᴰ b func.blocks × Reach func b.id)
      × (removed.1 ≡ false → removed.0 ≡ func)
unfolding remove_unreachable
remove_unreachable_lem func b =
    elim (Bool-cases (length (reachable_blocks func) == length func.blocks)) [
      | inl same ↦ rw (same, remove_unreachable) (λ m r. m, λ h m. cc, λ h. refl)
      | inr differ ↦
          rw (differ, remove_unreachable)
            (
              λ m r. kept.1 (m, (reachable_blocks_iff func b.id).1 r),
              λ h m. ((kept.0 m).0, (reachable_blocks_iff func b.id).0 (kept.0 m).1),
              λ h. cc,
            )
    ]
  where
    kept :
        Memᴰ b (keep_if (λ c. contains c.id (reachable_blocks func)) func.blocks)
        ↔ (Memᴰ b func.blocks × (contains b.id (reachable_blocks func) ≡ true))
    kept = Memᴰ-keep_if (λ c. contains c.id (reachable_blocks func)) b func.blocks
