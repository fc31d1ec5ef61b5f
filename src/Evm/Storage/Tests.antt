-- ===== src/Evm/Storage/Tests.antt =====
-- Instances of the laws of crates/covenant-evm-backend/src/storage.rs at a module of three fields.
use covenant_language.Base.{ℕ, ◌≡◌, ◌↔◌, refl, Option, none, some, String, List, [], ◌∷◌, map, All}
use covenant_language.Types.Ty.{Ty}
use covenant_language.Ir.Ident.{Span}
use covenant_language.Ir.Module.{IrField, IrModule}
use covenant_language.Evm.Storage.{
  StorageEntry, slot_bytes, compute_layout, slot_for_global, detect_slot_collisions, slot_from,
  advance, slot_advance, collisions_from, reserved, deployer_slot,
}
use covenant_language.Evm.Storage.Layout.{assigned, DistinctIds, compute_layout-slot_for_global}
use covenant_language.Evm.Storage.Collisions.{Distinct, Unreserved, detect_slot_collisions_iff}

abbrev no_span : Span
no_span = record { source = 0; start = 0; end = 0 }

abbrev field : ℕ → String → Ty → Option ℕ → IrField
field id name ty pin = record {
  id = id;
  name = record { name = name; span = no_span };
  ty = ty;
  span = no_span;
  explicit_slot = pin;
}

abbrev with_fields : List IrField → IrModule
with_fields fs = record {
  source_id = 0;
  name = record { name = "Token"; span = no_span };
  fields = fs;
  structs = [];
  functions = [];
}

abbrev token : IrModule
token = with_fields (
    field 0 "balances" (Ty.map Ty.address Ty.amount) none
    ∷ field 1 "config" (Ty.struct 0) none
    ∷ field 2 "proxy" Ty.address (some 9)
    ∷ field 3 "owner" Ty.address none
    ∷ [])

slots_of_token : map (λ f. slot_for_global token f.id) token.fields ≡ 0 ∷ 1 ∷ 9 ∷ 5 ∷ []
unfolding slot_for_global slot_from advance slot_advance
slots_of_token = refl

-- A pin on the slot of an earlier field, and one on the slot of the deployer.
clashes :
    detect_slot_collisions (
      with_fields (
        field 0 "a" Ty.bool none
        ∷ field 1 "b" Ty.bool (some 0)
        ∷ field 2 "c" Ty.bool (some deployer_slot)
        ∷ []))
    ≡ ("b", "a", 0) ∷ ("c", "<reserved: deployer-auth slot>", deployer_slot) ∷ []
unfolding detect_slot_collisions collisions_from reserved advance slot_advance
clashes = refl

token-DistinctIds : DistinctIds token.fields
token-DistinctIds = ((refl, (refl, (refl, tt))), ((refl, (refl, tt)), ((refl, tt), (tt, tt))))

-- A decimal text for the numbers of the example.
abbrev one_word : ℕ → String
one_word n = "1"

compute_layout-slot_for_global_example :
    map (λ (e : StorageEntry). e.slot) (compute_layout one_word token)
    ≡ map (λ f. slot_bytes (slot_for_global token f.id)) token.fields
compute_layout-slot_for_global_example =
    compute_layout-slot_for_global one_word token token-DistinctIds

abbrev some_slot : ℕ
some_slot = 258

detect_slot_collisions_iff_example :
    (detect_slot_collisions token ≡ [])
    ↔ (Distinct (assigned 0 token.fields) × All Unreserved token.fields)
detect_slot_collisions_iff_example = detect_slot_collisions_iff token
