-- ===== src/Opt/Dce/Observe/Tests.antt =====
-- A machine that obeys the laws of the effect model, and the elimination
-- (crates/covenant-opt/src/dce.rs) run on it.
use covenant_language.Base.{ℕ, suc, Option, none, some, String, List, str_eq, if◌then◌else◌}
use covenant_language.Ir.Ident.{Value}
use covenant_language.Ir.Opcode.{Opcode}
use covenant_language.Opt.Effect.{Effect}

-- A machine that counts the stores and aborts at the subtraction.
abbrev count_exec : Opcode → List Value → ℕ → Option ℕ
count_exec Opcode.sub_checked vs w = none
count_exec (Opcode.sstore _) vs w = some (suc w)
count_exec _ vs w = some w

-- The name of an operand-determined trap gives it back.
trap_named : String → Opcode
trap_named s =
    if str_eq s "Div"
    then Opcode.div
    else if str_eq s "Mod"
    then Opcode.modulo
    else if str_eq s "AddChecked"
    then Opcode.add_checked
    else if str_eq s "SubChecked"
    then Opcode.sub_checked
    else Opcode.mul_checked
