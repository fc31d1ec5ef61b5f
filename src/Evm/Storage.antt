-- ===== src/Evm/Storage.antt =====
-- crates/covenant-evm-backend/src/storage.rs (and the entries of artifact.rs): the storage slot of
-- each declared field. Slots are `u32`s, with the wrap of `+=`; a slot's 32 bytes are a list.
-- `show` is the decimal text of a `u32`, which the standard library formats.
pub mod Layout
pub mod Collisions
pub mod Tests
use Prim.Native.String.{◌++◌ as text_append}
use covenant_language.Base.{
  ℕ, zero, suc, ◌+◌, ◌%◌, ◌^◌, max, Bool, true, false, ◌||◌, Option, none, some, String, List, [],
  ◌∷◌, ◌++◌, ◌==◌, if◌then◌else◌, length, lookup,
}
use covenant_language.Types.Ty.{Ty}
use covenant_language.Ir.Ident.{GlobalId}
use covenant_language.Ir.Opcode.{Opcode}
use covenant_language.Ir.Function.{Instr, IrBlock, IrFunction}
use covenant_language.Ir.Module.{IrField, IrStruct, IrModule}
use covenant_language.Evm.Asm.{u32_be_bytes}

abbrev pub deployer_slot : ℕ
deployer_slot = 0xFFFFFFFE

abbrev pub reentrant_lock_slot : ℕ
reentrant_lock_slot = 0xFFFFFFFF

unfoldable pub contains_unknown : Ty → Bool
contains_unknown Ty.unknown = true
contains_unknown (Ty.list t) = contains_unknown t
contains_unknown (Ty.ciphertext t) = contains_unknown t
contains_unknown (Ty.map k v) = contains_unknown k || contains_unknown v
contains_unknown _ = false

unfoldable pub slot_advance : Ty → ℕ
slot_advance (Ty.list _) = 1
slot_advance (Ty.map _ _) = 1
slot_advance (Ty.struct _) = 4
slot_advance _ = 1

unfoldable pub slot_bytes : ℕ → List ℕ
unfolding u32_be_bytes
slot_bytes slot =
    0
    ∷ 0
    ∷ 0
    ∷ 0
    ∷ 0
    ∷ 0
    ∷ 0
    ∷ 0
    ∷ 0
    ∷ 0
    ∷ 0
    ∷ 0
    ∷ 0
    ∷ 0
    ∷ 0
    ∷ 0
    ∷ 0
    ∷ 0
    ∷ 0
    ∷ 0
    ∷ 0
    ∷ 0
    ∷ 0
    ∷ 0
    ∷ 0
    ∷ 0
    ∷ 0
    ∷ 0
    ∷ u32_be_bytes slot

pub record StorageEntry : Type 0 where
  pub name : String
  pub slot : List ℕ
  pub offset : ℕ
  pub size_bytes : ℕ
  pub ty_desc : String

-- `explicit_slot.unwrap_or(current)`.
abbrev pub explicit_or : Option ℕ → ℕ → ℕ
explicit_or (some n) current = n
explicit_or none current = current

-- `explicit_slot == Some(slot)`.
abbrev pub is_slot : Option ℕ → ℕ → Bool
is_slot (some n) slot = n == slot
is_slot none slot = false

-- The cursor moves past a field without a pinned slot only.
unfoldable pub advance : IrField → ℕ → ℕ
unfolding slot_advance
advance f current = elim f.explicit_slot [
  | some _ ↦ current
  | none ↦ (current + slot_advance f.ty) % 2 ^ 32
]

abbrev pub is_sload : GlobalId → Opcode → Bool
is_sload id (Opcode.sload g) = g == id
is_sload id _ = false

abbrev pub first_of_two : Option Ty → Option Ty → Option Ty
first_of_two (some t) o = some t
first_of_two none o = o

-- The type of the value that a load of the field yields, if that type is known.
unfoldable pub loaded_ty : IrFunction → GlobalId → Instr → Option Ty
loaded_ty f id i =
    if is_sload id i.opcode
    then elim i.result [
      | none ↦ none
      | some v ↦ elim (lookup v f.value_types) [
        | none ↦ none
        | some t ↦ if contains_unknown t then none else some t
      ]
    ]
    else none

unfoldable pub first_in_instrs : IrFunction → GlobalId → List Instr → Option Ty
first_in_instrs f id [] = none
first_in_instrs f id (i ∷ is) = first_of_two (loaded_ty f id i) (first_in_instrs f id is)

unfoldable pub first_in_blocks : IrFunction → GlobalId → List IrBlock → Option Ty
first_in_blocks f id [] = none
first_in_blocks f id (b ∷ bs) =
    first_of_two (first_in_instrs f id b.instructions) (first_in_blocks f id bs)

unfoldable pub first_in_functions : GlobalId → List IrFunction → Option Ty
first_in_functions id [] = none
first_in_functions id (f ∷ fs) =
    first_of_two (first_in_blocks f id f.blocks) (first_in_functions id fs)

unfoldable pub resolved_field_ty : IrModule → GlobalId → Ty → Ty
resolved_field_ty m id declared =
    if contains_unknown declared
    then elim (first_in_functions id m.functions) [ some t ↦ t | none ↦ declared ]
    else declared

unfoldable pub find_struct : ℕ → List IrStruct → Option IrStruct
find_struct sid [] = none
find_struct sid (s ∷ ss) = if s.id == sid then some s else find_struct sid ss

unfoldable pub struct_field_count : IrModule → ℕ → Option ℕ
struct_field_count m sid = elim (find_struct sid m.structs) [
  | none ↦ none
  | some s ↦ some (max (length s.fields) 1)
]

unfoldable pub stride_of : IrModule → Ty → ℕ
stride_of m (Ty.struct sid) = elim (struct_field_count m sid) [ some n ↦ n | none ↦ 1 ]
stride_of m _ = 1

module _ (show : ℕ → String) where
  unfoldable pub render_ty : IrModule → Ty → String
  render_ty m Ty.amount = "uint256"
  render_ty m Ty.address = "address"
  render_ty m Ty.bool = "bool"
  render_ty m Ty.bytes = "bytes"
  render_ty m Ty.text = "string"
  render_ty m Ty.hash = "bytes32"
  render_ty m Ty.pq_key = "pq_key"
  render_ty m (Ty.ciphertext t) = text_append "ciphertext<" (text_append (render_ty m t) ">")
  render_ty m (Ty.list t) = text_append "[" (
      text_append (render_ty m t)
        (text_append "; stride=" (text_append (show (stride_of m t)) "]")))
  render_ty m (Ty.map k v) =
      text_append "map<"
        (text_append (render_ty m k) (text_append ", " (text_append (render_ty m v) ">")))
  render_ty m (Ty.struct sid) = elim (find_struct sid m.structs) [
    | none ↦ "struct"
    | some s ↦ text_append "struct " (
        text_append s.name.name
          (text_append "(" (text_append (show (max (length s.fields) 1)) " words)")))
  ]
  render_ty m Ty.unit = "()"
  render_ty m _ = "_"

  unfoldable pub describe : IrModule → Ty → ℕ × String
  describe m Ty.amount = (32, "uint256")
  describe m Ty.time = (32, "uint256")
  describe m Ty.duration = (32, "uint256")
  describe m Ty.address = (20, "address")
  describe m Ty.bool = (1, "bool")
  describe m Ty.bytes = (32, "bytes")
  describe m Ty.text = (32, "string")
  describe m Ty.hash = (32, "bytes32")
  describe m Ty.pq_key = (32, "pq_key")
  describe m (Ty.ciphertext _) = (32, "ciphertext<_>")
  describe m (Ty.list t) = (32, render_ty m (Ty.list t))
  describe m (Ty.map k v) = (32, render_ty m (Ty.map k v))
  describe m (Ty.choice _) = (1, "choice")
  describe m _ = (32, "unknown")

  unfoldable pub layout_from : IrModule → ℕ → List IrField → List StorageEntry
  layout_from m current [] = []
  layout_from m current (f ∷ fs) =
      let slot_num = explicit_or f.explicit_slot current in
      let (size, desc) = describe m (resolved_field_ty m f.id f.ty) in
      record {
        name = f.name.name;
        slot = slot_bytes slot_num;
        offset = 0;
        size_bytes = size;
        ty_desc = desc;
      }
      ∷ layout_from m (advance f current) fs

  unfoldable pub compute_layout : IrModule → List StorageEntry
  compute_layout m = layout_from m 0 m.fields

unfoldable pub slot_from : ℕ → List IrField → GlobalId → ℕ
slot_from current [] id = current
slot_from current (f ∷ fs) id =
    if f.id == id then explicit_or f.explicit_slot current else slot_from (advance f current) fs id

unfoldable pub slot_for_global : IrModule → GlobalId → ℕ
slot_for_global m id = slot_from 0 m.fields id

abbrev pub Collision : Type 0
Collision = String × String × ℕ

-- An explicit slot on one of the two that the compiler manages.
unfoldable pub reserved : IrField → ℕ → List Collision
reserved f slot =
    if is_slot f.explicit_slot deployer_slot
    then (f.name.name, "<reserved: deployer-auth slot>", slot) ∷ []
    else if is_slot f.explicit_slot reentrant_lock_slot
    then (f.name.name, "<reserved: reentrancy-lock slot>", slot) ∷ []
    else []

unfoldable pub collisions_from : List (ℕ × String) → ℕ → List IrField → List Collision
unfolding reserved
collisions_from occupied current [] = []
collisions_from occupied current (f ∷ fs) =
    let slot = explicit_or f.explicit_slot current in
    let taken = lookup slot occupied in
    (reserved f slot ++ elim taken [ some prev ↦ (f.name.name, prev, slot) ∷ [] | none ↦ [] ])
    ++ collisions_from (elim taken [ some _ ↦ occupied | none ↦ (slot, f.name.name) ∷ occupied ])
        (advance f current) fs

unfoldable pub detect_slot_collisions : IrModule → List Collision
detect_slot_collisions m = collisions_from [] 0 m.fields
