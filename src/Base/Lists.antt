-- ===== src/Base/Lists.antt =====
-- Lists measured and indexed by native numbers, and membership as a Boolean test.
use Prim.Native.Nat.{ℕ, zero, suc, ◌+◌}
use mathlib.Core.Path.{◌≡◌, refl, ap, sym, subst, ◌∙◌}
use mathlib.Core.Bool.{Bool, true, false, ◌||◌}
use mathlib.Core.List.{List, [], ◌∷◌, ◌++◌, reverse, reverse-append, Memᴰ}
use mathlib.Core.List.Memᴰ
use mathlib.Core.Logic.{◌↔◌, ◌⊎◌, inl, inr}
use mathlib.Core.Option.{Option, none, some}
use native.Mathlib.Omega.{arith}
use covenant_language.Base.Tests.{◌==◌, if◌then◌else◌, Bool-cases}

module _ {ℓ} {A : Type ℓ} where
  abbrev pub length : List A → ℕ
  length [] = 0
  length (x ∷ xs) = suc (length xs)

  abbrev pub get_elem? : List A → ℕ → Option A
  get_elem? [] i = none
  get_elem? (x ∷ xs) zero = some x
  get_elem? (x ∷ xs) (suc i) = get_elem? xs i

  abbrev pub get_or : List A → ℕ → A → A
  get_or [] i d = d
  get_or (x ∷ xs) zero d = x
  get_or (x ∷ xs) (suc i) d = get_or xs i d

  abbrev pub drop : ℕ → List A → List A
  drop zero xs = xs
  drop (suc n) [] = []
  drop (suc n) (x ∷ xs) = drop n xs

  -- The elements that pass a Boolean test, in order.
  abbrev pub keep_if : (A → Bool) → List A → List A
  keep_if p [] = []
  keep_if p (x ∷ xs) = let rest = keep_if p xs in if p x then x ∷ rest else rest

  pub length-append : (xs ys : List A) → length (xs ++ ys) ≡ length xs + length ys
  length-append [] ys = omega arith
  length-append (x ∷ xs) ys = omega (arith, length-append xs ys)

  pub get_elem?-append_right :
      (xs ys : List A) (i : ℕ) → get_elem? (xs ++ ys) (length xs + i) ≡ get_elem? ys i
  get_elem?-append_right [] ys i = ground arith
  get_elem?-append_right (x ∷ xs) ys i = ground (arith, get_elem?-append_right xs ys i)

-- A predicate on every element; it computes to tuples.
abbrev pub All {ℓ κ} : {A : Type ℓ} → (A → Type κ) → List A → Type κ
All P [] = Unit
All P (x ∷ xs) = P x × All P xs

-- `HashSet<u32>::contains` and `Vec::contains` over numbers.
abbrev pub contains : ℕ → List ℕ → Bool
contains v [] = false
contains v (x ∷ xs) = x == v || contains v xs

-- A `HashMap<u32, A>` as an association list, the newest entry first.
abbrev pub lookup {ℓ} : {A : Type ℓ} → ℕ → List (ℕ × A) → Option A
lookup k [] = none
lookup k ((j, v) ∷ m) = if j == k then some v else lookup k m

pub contains-append :
    (v : ℕ) (xs ys : List ℕ) → contains v (xs ++ ys) ≡ (contains v xs || contains v ys)
contains-append v [] ys = refl
contains-append v (x ∷ xs) ys = ground (arith, contains-append v xs ys)

pub contains-reverse : (v : ℕ) (xs : List ℕ) → contains v (reverse xs) ≡ contains v xs
contains-reverse v [] = refl
contains-reverse v (x ∷ xs) = ground (
  arith,
  ap (contains v) (reverse-append (x ∷ []) xs),
  contains-append v (reverse xs) (x ∷ []),
  contains-reverse v xs,
)

pub length-reverse {ℓ} : {A : Type ℓ} (xs : List A) → length (reverse xs) ≡ length xs
length-reverse [] = refl
length-reverse (x ∷ xs) =
    rw (reverse-append (x ∷ []) xs)
      (omega (arith, length-append (reverse xs) (x ∷ []), length-reverse xs))

module _ {ℓ} {A : Type ℓ} (p : A → Bool) (a : A) where
  Memᴰ-keep : (xs : List A) → Memᴰ a xs → p a ≡ true → Memᴰ a (keep_if p xs)
  Memᴰ-keep [] m h = elim m [ ]
  Memᴰ-keep (x ∷ xs) (Memᴰ.head e) h = rw (ap p (sym e) ∙ h) (Memᴰ.head e)
  Memᴰ-keep (x ∷ xs) (Memᴰ.tail m) h = elim (Bool-cases (p x)) [
    | inl t ↦ rw t (Memᴰ.tail (Memᴰ-keep xs m h))
    | inr f ↦ rw f (Memᴰ-keep xs m h)
  ]

  Memᴰ-kept : (xs : List A) → Memᴰ a (keep_if p xs) → Memᴰ a xs × (p a ≡ true)
  Memᴰ-kept [] m = elim m [ ]
  Memᴰ-kept (x ∷ xs) m = elim (Bool-cases (p x)) [
    | inl t ↦ elim (Memᴰ.cases_cons (rw t at m)) [
      | inl e ↦ (Memᴰ.head e, ap p e ∙ t)
      | inr r ↦ let k = Memᴰ-kept xs r in (Memᴰ.tail k.0, k.1)
    ]
    | inr f ↦ let k = Memᴰ-kept xs (rw f at m) in (Memᴰ.tail k.0, k.1)
  ]

  -- `retain` keeps exactly the elements that pass.
  pub Memᴰ-keep_if : (xs : List A) → Memᴰ a (keep_if p xs) ↔ (Memᴰ a xs × (p a ≡ true))
  Memᴰ-keep_if xs = (Memᴰ-kept xs, λ h. Memᴰ-keep xs h.0 h.1)

-- A predicate on every element holds of each member.
pub All-Memᴰ {ℓ κ} :
    {A : Type ℓ} (P : A → Type κ) (a : A) (xs : List A) → All P xs → Memᴰ a xs → P a
All-Memᴰ P a [] h m = elim m [ ]
All-Memᴰ P a (x ∷ xs) h (Memᴰ.head e) = subst P (sym e) h.0
All-Memᴰ P a (x ∷ xs) h (Memᴰ.tail m) = All-Memᴰ P a xs h.1 m

pub All-append {ℓ κ} :
    {A : Type ℓ} (P : A → Type κ) (xs ys : List A) → All P xs → All P ys → All P (xs ++ ys)
All-append P [] ys h g = g
All-append P (x ∷ xs) ys h g = (h.0, All-append P xs ys h.1 g)

pub List-cases {ℓ} :
    {A : Type ℓ} (xs : List A) → (xs ≡ []) ⊎ ((y : A) × (ys : List A) × (xs ≡ y ∷ ys))
List-cases [] = inl refl
List-cases (y ∷ ys) = inr (y, ys, refl)
