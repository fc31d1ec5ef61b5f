-- ===== src/Opt/Coalesce/Tests.antt =====
-- Instances of the laws of crates/covenant-opt/src/sload_coalesce.rs.
use covenant_language.Base.{◌≡◌, refl, false, if◌then◌else◌, ◌==◌, none, some, List, [], ◌∷◌}
use covenant_language.Ir.Ident.{Span, Value}
use covenant_language.Ir.Opcode.{Opcode}
use covenant_language.Ir.Function.{Instr}
use covenant_language.Opt.Coalesce.{scan_block}

abbrev no_span : Span
no_span = record { source = 0; start = 0; end = 0 }

abbrev load_into : Value → Instr
load_into r = record {
  result = some r;
  opcode = Opcode.sload 4;
  operands = [];
  from_lift = false;
  span = no_span;
}

abbrev store_three : Instr
store_three = record {
  result = none;
  opcode = Opcode.sstore 4;
  operands = 3 ∷ [];
  from_lift = false;
  span = no_span;
}

abbrev body : List Instr
body = load_into 1 ∷ load_into 2 ∷ store_three ∷ load_into 3 ∷ []

-- The second load goes, the one after the store stays.
scan_block-body : scan_block body [] [] ≡ (2, 1) ∷ []
unfolding scan_block
scan_block-body = refl

-- Value 3 means 8 and the others mean 5: the field goes from 5 to 8.
abbrev numbers : Value → Value
numbers v = if◌then◌else◌ (v == 3) 8 5

abbrev before_store : Value → Value
before_store v = 5

abbrev after_store : Value → Value
after_store v = if◌then◌else◌ (v == 4) 8 5
