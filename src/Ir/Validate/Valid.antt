-- ===== src/Ir/Validate/Valid.antt =====
-- The validator of crates/covenant-ir/src/validate.rs against a declarative description: with blocks
-- stored at the positions of their ids, it returns, and is silent exactly on a valid module.
use covenant_language.Base.{
  ℕ, zero, suc, ◌+◌, ◌≤◌, ◌≡◌, ◌↔◌, refl, sym, ap, ◌∙◌, inl, inr, Bool, true, false, Option, none,
  some, String, List, [], ◌∷◌, ◌++◌, arith, ◌==◌, ==_iff, contains, length, get_elem?,
  if◌then◌else◌, All, Bool-cases,
}
use covenant_language.Ir.Ident.{Span, BlockId}
use covenant_language.Ir.Opcode.{Opcode}
use covenant_language.Ir.Opcode.Arity.{Bounds, operand_count}
use covenant_language.Ir.Function.{Instr, Terminator, IrBlock, IrFunction, find_block}
use covenant_language.Ir.Module.{IrModule}
use covenant_language.Ir.Validate.{
  Diagnostic, Diagnostics, ◌then_check◌, no_diagnostic, report, block_ids, in_bounds,
  validate_target, validate_merge, validate_terminator, validate_entry, check_bounds,
  validate_instrs, validate_blocks, validate_function, validate_functions, validate,
}

-- Every block stands at the position that its id names, from a first position.
abbrev pub Positional : ℕ → List IrBlock → Type 0
Positional n [] = Unit {0}
Positional n (b ∷ bs) = (b.id ≡ n) × Positional (suc n) bs

-- The number of operands lies in the bounds.
abbrev pub Within : Bounds → ℕ → Type 0
Within none n = Unit {0}
Within (some (lo, none)) n = lo ≤ n
Within (some (lo, some hi)) n = (lo ≤ n) × (n ≤ hi)

abbrev pub Arity : Instr → Type 0
Arity i = Within (operand_count i.opcode) (length i.operands)

-- A block has the id.
abbrev pub Exists : List IrBlock → BlockId → Type 0
Exists blocks target = (b : IrBlock) × (find_block target blocks ≡ some b)

-- The block of the id takes as many arguments.
abbrev pub Takes : List IrBlock → BlockId → ℕ → Type 0
Takes blocks target n = (b : IrBlock) × (find_block target blocks ≡ some b) × (length b.params ≡ n)

abbrev pub Targets : List IrBlock → Terminator → Type 0
Targets blocks (Terminator.jump t args) = Takes blocks t (length args)
Targets blocks (Terminator.branch _ t ts e es) =
    Takes blocks t (length ts) × Takes blocks e (length es)
Targets blocks (Terminator.fhe_branch _ t ts e es merge) =
    Takes blocks t (length ts) × (Takes blocks e (length es) × Exists blocks merge)
Targets blocks (Terminator.return _) = Unit {0}
Targets blocks Terminator.unreachable = Unit {0}
Targets blocks (Terminator.revert _ _) = Unit {0}

abbrev pub ValidBlock : List IrBlock → IrBlock → Type 0
ValidBlock blocks b = All Arity b.instructions × Targets blocks b.terminator

-- The entry exists, and every block has the right operand counts and jump targets.
abbrev pub ValidFunction : IrFunction → Type 0
ValidFunction f = Exists f.blocks f.entry × All (ValidBlock f.blocks) f.blocks

-- The part returns, with no diagnostic exactly where `P` holds.
abbrev pub Decides : Diagnostics → Type 0 → Type 0
Decides r P = (ds : List Diagnostic) × (r ≡ some ds) × ((ds ≡ []) ↔ P)

Decides-then :
    {P Q : Type 0} (r s : Diagnostics)
    → Decides r P
    → Decides s Q
    → Decides (r then_check s) (P × Q)
Decides-then r s (ds, e, p) (es, f, q) = (
  ds ++ es,
  rw (e, f) refl,
  (λ h. (p.0 (empty_left ds es h), q.0 (empty_right ds es h)), λ h. rw (p.1 h.0, q.1 h.1) refl),
)
  where
    empty_left : (xs ys : List Diagnostic) → xs ++ ys ≡ [] → xs ≡ []
    empty_left [] ys h = refl
    empty_left (x ∷ xs) ys h = cc

    empty_right : (xs ys : List Diagnostic) → xs ++ ys ≡ [] → ys ≡ []
    empty_right [] ys h = h
    empty_right (x ∷ xs) ys h = cc

abbrev silent : Decides no_diagnostic Unit
silent = ([], refl, (λ e. tt, λ p. refl))

-- A test that is silent where it succeeds.
Decides-test :
    {P : Type 0} (t : Bool) (d : Diagnostic)
    → ((t ≡ true) ↔ P)
    → Decides (if t then no_diagnostic else report d) P
Decides-test true d h = ([], refl, (λ e. h.0 refl, λ p. refl))
Decides-test false d h = (d ∷ [], refl, (λ e. cc, λ p. cc (h.1 p)))

in_bounds-Within :
    (lo n : ℕ) (hi : Option ℕ) → (in_bounds lo hi n ≡ true) ↔ Within (some (lo, hi)) n
in_bounds-Within lo n none = ground arith
in_bounds-Within lo n (some hi) = ground arith

-- An id in the set of ids is the id of a block found by it.
contains-find_block :
    (t : BlockId) (bs : List IrBlock) → contains t (block_ids bs) ≡ true → Exists bs t
unfolding block_ids find_block
contains-find_block t [] h = cc
contains-find_block t (b ∷ bs) h = elim (Bool-cases (b.id == t)) [
  | inl e ↦ (b, rw e refl)
  | inr e ↦ let (c, f) = contains-find_block t bs (rw e at h) in (c, rw e f)
]

find_block-contains :
    (t : BlockId) (b : IrBlock) (bs : List IrBlock)
    → find_block t bs ≡ some b
    → contains t (block_ids bs) ≡ true
unfolding block_ids find_block
find_block-contains t b [] h = cc
find_block-contains t b (c ∷ bs) h = elim (Bool-cases (c.id == t)) [
  | inl e ↦ rw e refl
  | inr e ↦ rw e (find_block-contains t b bs (rw e at h))
]

-- Indexing by an id finds the block of the id.
find_block-position :
    (n i : ℕ) (bs : List IrBlock) → Positional n bs → find_block (n + i) bs ≡ get_elem? bs i
unfolding find_block
find_block-position n i [] h = refl
find_block-position n zero (b ∷ bs) h = ground (arith, h.0)
find_block-position n (suc i) (b ∷ bs) h = ground (arith, h.0, find_block-position (suc n) i bs h.1)

get_elem?-find_block :
    (t : BlockId) (bs : List IrBlock) → Positional 0 bs → get_elem? bs t ≡ find_block t bs
get_elem?-find_block t bs h =
    sym (find_block-position 0 t bs h) ∙ ap (λ (k : ℕ). find_block k bs) (omega arith)

same_length : (b c : IrBlock) → some b ≡ some c → length b.params ≡ length c.params
same_length b c e = ap (λ (o : Option IrBlock). elim o [ none ↦ 0 | some x ↦ length x.params ]) e

module _ (blocks : List IrBlock) (h : Positional 0 blocks) where
  validate_target-Decides :
      (t : BlockId) (n : ℕ) (span : Span)
      → Decides (validate_target blocks t n span) (Takes blocks t n)
  unfolding validate_target
  validate_target-Decides t n span = elim (Bool-cases (contains t (block_ids blocks))) [
    | inl e ↦
        let (b, found) = contains-find_block t blocks e in
        let at_id : get_elem? blocks t ≡ some b = get_elem?-find_block t blocks h ∙ found in
        rw (e, at_id)
          (Decides-test _ _ (
            λ q. (b, found, (==_iff (length b.params) n).0 q),
            λ (c, other, k). (==_iff _ n).1 (same_length b c (sym found ∙ other) ∙ k),
          ))
    | inr e ↦
        let d = Diagnostic.block_arg_mismatch span 0 n in
        rw e (d ∷ [], refl, (λ q. cc, λ (c, f, k). cc (find_block-contains t c blocks f)))
  ]

  validate_merge-Decides :
      (t : BlockId) (span : Span) → Decides (validate_merge blocks t span) (Exists blocks t)
  unfolding validate_merge
  validate_merge-Decides t span =
      Decides-test _ _ (contains-find_block t blocks, λ e. find_block-contains t e.0 blocks e.1)

  validate_terminator-Decides :
      (t : Terminator) (span : Span)
      → Decides (validate_terminator blocks t span) (Targets blocks t)
  unfolding validate_terminator
  validate_terminator-Decides (Terminator.jump t args) span =
      validate_target-Decides t (length args) span
  validate_terminator-Decides (Terminator.branch _ t ts e es) span =
      Decides-then _ _ (validate_target-Decides t (length ts) span)
        (validate_target-Decides e (length es) span)
  validate_terminator-Decides (Terminator.fhe_branch _ t ts e es merge) span =
      Decides-then _ _ (validate_target-Decides t (length ts) span) (
        Decides-then _ _ (validate_target-Decides e (length es) span)
          (validate_merge-Decides merge span))
  validate_terminator-Decides _ span = silent

  module _ (debug : Opcode → String) where
    check_bounds-Decides :
        (b : Bounds) (i : Instr) → Decides (check_bounds debug b i) (Within b (length i.operands))
    check_bounds-Decides none i = silent
    check_bounds-Decides (some (lo, hi)) i =
        Decides-test _ _ (in_bounds-Within lo (length i.operands) hi)

    validate_instrs-Decides : (is : List Instr) → Decides (validate_instrs debug is) (All Arity is)
    unfolding validate_instrs
    validate_instrs-Decides [] = silent
    validate_instrs-Decides (i ∷ is) =
        Decides-then _ _ (check_bounds-Decides (operand_count i.opcode) i)
          (validate_instrs-Decides is)

    validate_blocks-Decides :
        (bs : List IrBlock) → Decides (validate_blocks debug blocks bs) (All (ValidBlock blocks) bs)
    unfolding validate_blocks
    validate_blocks-Decides [] = silent
    validate_blocks-Decides (b ∷ bs) =
        Decides-then _ _
          (Decides-then _ _ (validate_instrs-Decides b.instructions)
            (validate_terminator-Decides b.terminator b.span))
          (validate_blocks-Decides bs)

validate_function-Decides :
    (debug : Opcode → String) (f : IrFunction)
    → Positional 0 f.blocks
    → Decides (validate_function debug f) (ValidFunction f)
unfolding validate_function validate_entry
validate_function-Decides debug f h =
    Decides-then _ _
      (Decides-test _ _
        (contains-find_block f.entry f.blocks, λ e. find_block-contains f.entry e.0 f.blocks e.1))
      (validate_blocks-Decides f.blocks h debug f.blocks)

validate_functions-Decides :
    (debug : Opcode → String) (fs : List IrFunction)
    → All (λ (f : IrFunction). Positional 0 f.blocks) fs
    → Decides (validate_functions debug fs) (All ValidFunction fs)
unfolding validate_functions
validate_functions-Decides debug [] h = silent
validate_functions-Decides debug (f ∷ fs) h =
    Decides-then _ _ (validate_function-Decides debug f h.0)
      (validate_functions-Decides debug fs h.1)

-- Where every block of every function stands at the position of its id, the validator returns, and
-- it reports nothing exactly where every function is valid: its entry exists, each operand count is
-- in the opcode's bounds, each target exists and takes the arguments, each merge block exists.
pub validate-Decides :
    (debug : Opcode → String) (m : IrModule)
    → All (λ (f : IrFunction). Positional 0 f.blocks) m.functions
    → Decides (validate debug m) (All ValidFunction m.functions)
unfolding validate
validate-Decides debug m h = validate_functions-Decides debug m.functions h
