-- ===== src/Evm/Storage/Layout.antt =====
-- The layout file and the code generator agree on the slots: `compute_layout` and `slot_for_global`
-- of crates/covenant-evm-backend/src/storage.rs.
use covenant_language.Base.{
  ℕ, ◌^◌, ◌<◌, ◌≡◌, refl, sym, ap, ap₂, ◌∙◌, false, String, List, [], ◌∷◌, map, arith, ◌==◌,
  ==-refl, All,
}
use covenant_language.Ir.Module.{IrField, IrModule}
use covenant_language.Evm.Storage.{
  StorageEntry, explicit_or, advance, slot_bytes, layout_from, compute_layout, slot_from,
  slot_for_global,
}

-- The slot numbers of the fields in turn, from a cursor.
unfoldable pub assigned : ℕ → List IrField → List ℕ
assigned current [] = []
assigned current (f ∷ fs) = explicit_or f.explicit_slot current ∷ assigned (advance f current) fs

-- The ids of the fields are distinct.
abbrev pub DistinctIds : List IrField → Type 0
DistinctIds [] = Unit {0}
DistinctIds (f ∷ fs) = All (λ (g : IrField). (f.id == g.id) ≡ false) fs × DistinctIds fs

slot_from-other :
    (current : ℕ) (f : IrField) (fs gs : List IrField)
    → All (λ (g : IrField). (f.id == g.id) ≡ false) gs
    → map (λ g. slot_from current (f ∷ fs) g.id) gs
      ≡ map (λ g. slot_from (advance f current) fs g.id) gs
unfolding slot_from
slot_from-other current f fs [] h = refl
slot_from-other current f fs (g ∷ gs) h = ap₂ ◌∷◌ (rw h.0) (slot_from-other current f fs gs h.1)

slot_from-assigned :
    (current : ℕ) (fs : List IrField)
    → DistinctIds fs
    → map (λ f. slot_from current fs f.id) fs ≡ assigned current fs
unfolding assigned
slot_from-assigned current [] h = refl
slot_from-assigned current (f ∷ fs) h =
    ap₂ ◌∷◌ (unfold slot_from in rw (==-refl f.id))
      (slot_from-other current f fs fs h.0 ∙ slot_from-assigned (advance f current) fs h.1)

layout_from-assigned :
    (show : ℕ → String) (m : IrModule) (current : ℕ) (fs : List IrField)
    → map (λ (e : StorageEntry). e.slot) (layout_from show m current fs)
      ≡ map slot_bytes (assigned current fs)
unfolding layout_from assigned
layout_from-assigned show m current [] = refl
layout_from-assigned show m current (f ∷ fs) =
    ap₂ ◌∷◌ refl (layout_from-assigned show m (advance f current) fs)

map-map :
    (f : ℕ → List ℕ) (g : IrField → ℕ) (fs : List IrField)
    → map f (map g fs) ≡ map (λ x. f (g x)) fs
map-map f g [] = refl
map-map f g (x ∷ xs) = ap₂ ◌∷◌ refl (map-map f g xs)

-- Where the field ids are distinct, the layout lists for each field, in order, the slot that
-- `slot_for_global` gives the code generator for it.
pub compute_layout-slot_for_global :
    (show : ℕ → String) (m : IrModule)
    → DistinctIds m.fields
    → map (λ (e : StorageEntry). e.slot) (compute_layout show m)
      ≡ map (λ f. slot_bytes (slot_for_global m f.id)) m.fields
unfolding compute_layout slot_for_global
compute_layout-slot_for_global show m h =
    layout_from-assigned show m 0 m.fields
    ∙ ap (map slot_bytes) (sym (slot_from-assigned 0 m.fields h))
    ∙ map-map slot_bytes (λ f. slot_from 0 m.fields f.id) m.fields

-- Different slot numbers have different bytes.
pub slot_bytes_injective : (a b : ℕ) → a < 2 ^ 32 → b < 2 ^ 32 → slot_bytes a ≡ slot_bytes b → a ≡ b
unfolding slot_bytes
slot_bytes_injective a b ha hb e = ground arith
