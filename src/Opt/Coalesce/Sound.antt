-- ===== src/Opt/Coalesce/Sound.antt =====
-- The coalescing of crates/covenant-opt/src/sload_coalesce.rs keeps what the function computes, on
-- executions in which only the opcodes that the pass watches change a field.
use covenant_language.Base.{◌≡◌, false, Option, some, List, [], ◌∷◌, ◌==◌, All}
use covenant_language.Ir.Ident.{Value, GlobalId}
use covenant_language.Ir.Opcode.{Opcode}
use covenant_language.Ir.Function.{Instr}
use covenant_language.Opt.Coalesce.{Cache}

module _ {D : Type 0} (meaning : Value → D) where
  abbrev pub Fields : Type 0
  Fields = GlobalId → D

  -- What an opcode may do to the fields: a load with a result reads its field and changes none; a
  -- store changes its own field at most; the four collection writes may change any.
  abbrev pub Changes : Opcode → Option Value → Fields → Fields → Type 0
  Changes (Opcode.sload id) (some r) f g = (meaning r ≡ f id) × (f ≡ g)
  Changes (Opcode.sstore id) r f g = (j : GlobalId) → (j == id) ≡ false → f j ≡ g j
  Changes Opcode.map_set r f g = Unit {0}
  Changes Opcode.map_delete r f g = Unit {0}
  Changes Opcode.list_append r f g = Unit {0}
  Changes Opcode.list_set r f g = Unit {0}
  Changes _ r f g = f ≡ g

  -- An execution of instructions from some contents of the fields.
  pub data Exec : List Instr → Fields → Type 0 where
    done : {f : Fields} → Exec [] f
    step :
        {i : Instr} {is : List Instr} {f g : Fields}
        → Changes i.opcode i.result f g
        → Exec is g
        → Exec (i ∷ is) f

  -- The cached values are those of the fields.
  abbrev Holds : Fields → Cache → Type 0
  Holds f = All (λ (e : GlobalId × Value). meaning e.1 ≡ f e.0)
