-- ===== src/Runtime/Evm/Jumpdests.antt =====
-- `compute_jumpdests` of crates/covenant-evm-runtime/src/evm.rs: the jump destinations of a code are
-- the JUMPDESTs at which an instruction begins.
use mathlib.Core.Bool.{true≢false}
use covenant_language.Base.{
  sym, Bool-cases, ==_iff, ==-refl, &&-split, subst, ◌⊎◌, ◌||◌, inl, inr, refl, ap, ◌∙◌, ℕ, zero,
  suc, ◌+◌, ◌-◌, ◌≤◌, ◌<◌, ◌≡◌, ◌↔◌, Bool, true, false, ◌&&◌, List, [], ◌∷◌, ◌==◌, leb, contains,
  length, get_or, if◌then◌else◌, arith,
}

abbrev pub is_push : ℕ → Bool
is_push op = leb 0x60 op && leb op 0x7f

-- The distance to the next instruction.
unfoldable pub scan_width : ℕ → ℕ
scan_width op = if is_push op then 1 + (op - 0x60 + 1) else 1

-- The scan from one position on, with its rounds.
unfoldable pub scan : ℕ → List ℕ → ℕ → List ℕ
scan zero code i = []
scan (suc rounds) code i = elim (leb (length code) i) [
  | true ↦ []
  | false ↦
      let op = get_or code i 0 in
      let rest = scan rounds code (i + scan_width op) in if op == 0x5b then i ∷ rest else rest
]

unfoldable pub compute_jumpdests : List ℕ → List ℕ
compute_jumpdests code = scan (length code) code 0

-- An instruction begins at the second position when the code is read from the first one.
pub data Begins (code : List ℕ) : ℕ → ℕ → Type 0 where
  at_once : {i : ℕ} → Begins code i i
  later :
      {i d : ℕ}
      → i < length code
      → Begins code (i + scan_width (get_or code i 0)) d
      → Begins code i d

pub Begins-trans : (code : List ℕ) (i j d : ℕ) → Begins code i j → Begins code j d → Begins code i d
Begins-trans code i j d Begins.at_once g = g
Begins-trans code i j d (Begins.later l h) g = Begins.later l (Begins-trans code _ j d h g)

scan_width_pos : (op : ℕ) → 1 ≤ scan_width op
unfolding scan_width
scan_width_pos op = ground arith

scan-suc :
    (rounds : ℕ) (code : List ℕ) (i d : ℕ)
    → leb (length code) i ≡ false
    → contains d (scan (suc rounds) code i) ≡ (
        (get_or code i 0 == 0x5b && i == d)
        || contains d (scan rounds code (i + scan_width (get_or code i 0))))
unfolding scan
scan-suc rounds code i d h = elim (Bool-cases (get_or code i 0 == 0x5b)) [
  | inl e ↦ rw (h, e, scan) refl
  | inr e ↦ rw (h, e, scan) refl
]

scan_none : (code : List ℕ) (i : ℕ) → scan zero code i ≡ []
unfolding scan
scan_none code i = refl

scan_past :
    (rounds : ℕ) (code : List ℕ) (i : ℕ)
    → leb (length code) i ≡ true
    → scan (suc rounds) code i ≡ []
unfolding scan
scan_past rounds code i h = rw (h, scan) refl

||-cases : (a b : Bool) → (a || b) ≡ true → (a ≡ true) ⊎ (b ≡ true)
||-cases true b h = inl refl
||-cases false b h = inr h

scan-Begins :
    (rounds : ℕ) (code : List ℕ) (i d : ℕ)
    → contains d (scan rounds code i) ≡ true
    → Begins code i d × (d < length code) × (get_or code d 0 ≡ 0x5b)
scan-Begins zero code i d h =
    elim (true≢false (sym (ap (contains d) (sym (scan_none code i)) ∙ h))) [ ]
scan-Begins (suc rounds) code i d h = elim (Bool-cases (leb (length code) i)) [
  | inl past ↦ elim (true≢false (sym (rw (scan_past rounds code i past) at h))) [ ]
  | inr inside ↦ elim (||-cases _ _ (sym (scan-suc rounds code i d inside) ∙ h)) [
    | inl e ↦
        let both = &&-split _ _ e in
        let same = (==_iff i d).0 both.1 in
        let op = (==_iff (get_or code i 0) 0x5b).0 both.0 in
        (
          subst (Begins code i) same Begins.at_once,
          ground (arith, inside, same),
          sym (ap (λ j. get_or code j 0) same) ∙ op,
        )
    | inr e ↦
        let r = scan-Begins rounds code (i + scan_width (get_or code i 0)) d e in
        (Begins.later (ground (arith, inside)) r.0, r.1, r.2)
  ]
]

Begins-le : (code : List ℕ) (i d : ℕ) → Begins code i d → i ≤ d
Begins-le code i d Begins.at_once = omega arith
Begins-le code i d (Begins.later l h) = omega (arith, Begins-le code _ d h)

Begins-scan :
    (rounds : ℕ) (code : List ℕ) (i d : ℕ)
    → Begins code i d
    → d < length code
    → get_or code d 0 ≡ 0x5b
    → length code ≤ rounds + i
    → contains d (scan rounds code i) ≡ true
Begins-scan zero code i d b l o r = ground (arith, Begins-le code i d b, l, r)
Begins-scan (suc rounds) code i d Begins.at_once l o r =
    scan-suc rounds code i i (ground (arith, l)) ∙ rw (o, ==-refl i) refl
Begins-scan (suc rounds) code i d (Begins.later j h) l o r =
    let rest =
      Begins-scan rounds code (i + scan_width (get_or code i 0)) d h l o
        (omega (arith, scan_width_pos (get_or code i 0), r)) in
    scan-suc rounds code i d (ground (arith, j)) ∙ ground (arith, rest)

-- The set of jump destinations has exactly the JUMPDESTs at which an instruction begins, when the
-- code is read from its start and the data of each push is passed over.
pub compute_jumpdests_iff :
    (code : List ℕ) (d : ℕ)
    → (contains d (compute_jumpdests code) ≡ true)
      ↔ (Begins code 0 d × (d < length code) × (get_or code d 0 ≡ 0x5b))
unfolding compute_jumpdests
compute_jumpdests_iff code d = (
  scan-Begins (length code) code 0 d,
  λ h. Begins-scan (length code) code 0 d h.0 h.1 h.2 (omega arith),
)
