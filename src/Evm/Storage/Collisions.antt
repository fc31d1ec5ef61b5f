-- ===== src/Evm/Storage/Collisions.antt =====
-- `detect_slot_collisions` of crates/covenant-evm-backend/src/storage.rs reports nothing exactly where
-- the assigned slots are distinct and no pinned slot is a reserved one.
use covenant_language.Base.{
  ℕ, ◌≡◌, ◌↔◌, refl, inl, inr, false, none, String, List, [], ◌∷◌, ◌++◌, arith, ◌==◌, All, lookup,
  Bool-cases, Option-cases,
}
use covenant_language.Ir.Module.{IrField, IrModule}
use covenant_language.Evm.Storage.{
  explicit_or, advance, is_slot, reserved, collisions_from, detect_slot_collisions, deployer_slot,
  reentrant_lock_slot, Collision,
}
use covenant_language.Evm.Storage.Layout.{assigned}

abbrev pub Distinct : List ℕ → Type 0
Distinct [] = Unit {0}
Distinct (s ∷ ss) = All (λ t. (s == t) ≡ false) ss × Distinct ss

-- No field is pinned to a slot that the compiler manages.
abbrev pub Unreserved : IrField → Type 0
Unreserved f =
    (is_slot f.explicit_slot deployer_slot ≡ false)
    × (is_slot f.explicit_slot reentrant_lock_slot ≡ false)

abbrev Free : List (ℕ × String) → ℕ → Type 0
Free occupied s = lookup s occupied ≡ none

append-eq-nil : (xs ys : List Collision) → xs ++ ys ≡ [] → (xs ≡ []) × (ys ≡ [])
append-eq-nil [] ys h = (refl, h)
append-eq-nil (x ∷ xs) ys h = cc

reserved-nil : (f : IrField) (slot : ℕ) → reserved f slot ≡ [] → Unreserved f
unfolding reserved
reserved-nil f slot h = ground arith

nil-reserved : (f : IrField) (slot : ℕ) → Unreserved f → reserved f slot ≡ []
unfolding reserved
nil-reserved f slot h = ground arith

-- Free beside a new entry is free of the old ones, and other than it.
Free-cons :
    (s : ℕ) (name : String) (occupied : List (ℕ × String)) (ts : List ℕ)
    → All (Free ((s, name) ∷ occupied)) ts
      ↔ (All (λ t. (s == t) ≡ false) ts × All (Free occupied) ts)
Free-cons s name occupied [] = (λ h. (tt, tt), λ h. tt)
Free-cons s name occupied (t ∷ ts) = (
  λ h.
      let k = (Free-cons s name occupied ts).0 h.1 in
      elim (Bool-cases (s == t)) [
        | inl e ↦ cc (rw e at (h.0))
        | inr e ↦ ((e, k.0), (rw e at (h.0), k.1))
      ],
  λ h. (rw (h.0.0) (h.1.0), (Free-cons s name occupied ts).1 (h.0.1, h.1.1)),
)

abbrev Clean : List (ℕ × String) → ℕ → List IrField → Type 0
Clean occupied current fs =
    All (Free occupied) (assigned current fs) × Distinct (assigned current fs) × All Unreserved fs

Clean-collisions_from :
    (occupied : List (ℕ × String)) (current : ℕ) (fs : List IrField)
    → collisions_from occupied current fs ≡ []
    → Clean occupied current fs
unfolding collisions_from assigned
Clean-collisions_from occupied current [] h = (tt, tt, tt)
Clean-collisions_from occupied current (f ∷ fs) h =
    let s = explicit_or f.explicit_slot current in
    elim (Option-cases (lookup s occupied)) [
      | inl free ↦
          let (here, later) = append-eq-nil _ _ (rw free at h) in
          let ok = (append-eq-nil _ _ here).0 in
          let (frees, distinct, unreserved) =
            Clean-collisions_from ((s, f.name.name) ∷ occupied) (advance f current) fs later in
          let (others, old) = (Free-cons s f.name.name occupied _).0 frees in
          ((free, old), (others, distinct), (reserved-nil f s ok, unreserved))
      | inr (prev, taken) ↦
          let (here, later) = append-eq-nil _ _ (rw taken at h) in
          let clash = append-eq-nil (reserved f s) ((f.name.name, prev, s) ∷ []) here in
          cc (clash.1)
    ]

collisions_from-Clean :
    (occupied : List (ℕ × String)) (current : ℕ) (fs : List IrField)
    → Clean occupied current fs
    → collisions_from occupied current fs ≡ []
unfolding collisions_from assigned
collisions_from-Clean occupied current [] h = refl
collisions_from-Clean occupied current (f ∷ fs)
      ((free, old), (others, distinct), (ok, unreserved)) =
    let s = explicit_or f.explicit_slot current in
    rw (free, nil-reserved f s ok)
      (collisions_from-Clean ((s, f.name.name) ∷ occupied) (advance f current) fs
        ((Free-cons s f.name.name occupied _).1 (others, old), distinct, unreserved))

All-Free-nil : (ss : List ℕ) → All (Free []) ss
All-Free-nil [] = tt
All-Free-nil (s ∷ ss) = (refl, All-Free-nil ss)

-- No collision is reported exactly where no two fields are assigned one slot and no field is pinned
-- to the slot of the deployer or of the reentrancy lock.
pub detect_slot_collisions_iff :
    (m : IrModule)
    → (detect_slot_collisions m ≡ []) ↔ (Distinct (assigned 0 m.fields) × All Unreserved m.fields)
unfolding detect_slot_collisions
detect_slot_collisions_iff m = (
  λ h. let c = Clean-collisions_from [] 0 m.fields h in (c.1, c.2),
  λ h. collisions_from-Clean [] 0 m.fields (All-Free-nil _, h.0, h.1),
)
