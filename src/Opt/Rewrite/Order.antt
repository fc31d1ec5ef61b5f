-- ===== src/Opt/Rewrite/Order.antt =====
-- Where the two values of a replacement (crates/covenant-opt/src/helpers.rs) are defined: an instruction
-- defines its result.
use covenant_language.Base.{◌≡◌, ◌⊎◌, inl, inr, some, All, List, [], ◌∷◌, ◌++◌}
use covenant_language.Ir.Ident.{Value}
use covenant_language.Ir.Function.{Instr, IrBlock}

abbrev pub Defines : Value → List Instr → Type 0
Defines r [] = ⊥
Defines r (i ∷ is) = (i.result ≡ some r) ⊎ Defines r is

-- An instruction that defines `e`, and behind it one that defines `r`.
abbrev pub Earlier : Value → Value → List Instr → Type 0
Earlier e r [] = ⊥
Earlier e r (i ∷ is) = ((i.result ≡ some e) × Defines r is) ⊎ Earlier e r is

-- In one of the blocks.
abbrev pub EarlierInBlock : Value → Value → List IrBlock → Type 0
EarlierInBlock e r [] = ⊥
EarlierInBlock e r (b ∷ bs) = Earlier e r b.instructions ⊎ EarlierInBlock e r bs

pub Defines-append : (v : Value) (xs ys : List Instr) → Defines v xs → Defines v (xs ++ ys)
Defines-append v [] ys d = absurd d
Defines-append v (x ∷ xs) ys (inl e) = inl e
Defines-append v (x ∷ xs) ys (inr d) = inr (Defines-append v xs ys d)

pub Defines-at_end :
    (v : Value) (xs : List Instr) (i : Instr) → i.result ≡ some v → Defines v (xs ++ i ∷ [])
Defines-at_end v [] i e = inl e
Defines-at_end v (x ∷ xs) i e = inr (Defines-at_end v xs i e)

pub Earlier-append : (e r : Value) (xs ys : List Instr) → Earlier e r xs → Earlier e r (xs ++ ys)
Earlier-append e r [] ys d = absurd d
Earlier-append e r (x ∷ xs) ys (inl (p, d)) = inl (p, Defines-append r xs ys d)
Earlier-append e r (x ∷ xs) ys (inr d) = inr (Earlier-append e r xs ys d)

pub Earlier-at_end :
    (e r : Value) (xs : List Instr) (i : Instr)
    → Defines e xs
    → i.result ≡ some r
    → Earlier e r (xs ++ i ∷ [])
Earlier-at_end e r [] i d p = absurd d
Earlier-at_end e r (x ∷ xs) i (inl q) p = inl (q, Defines-at_end r xs i p)
Earlier-at_end e r (x ∷ xs) i (inr d) p = inr (Earlier-at_end e r xs i d p)

-- The values of a table are defined by the instructions seen so far, and so are those of a plan, in
-- their order.
abbrev pub AllDefined : {K : Type 0} → List Instr → List (K × Value) → Type 0
AllDefined seen [] = Unit
AllDefined seen ((k, v) ∷ m) = Defines v seen × AllDefined seen m

abbrev pub AllEarlier : List Instr → List (Value × Value) → Type 0
AllEarlier seen = All (λ (e : Value × Value). Earlier e.1 e.0 seen)

abbrev pub InOrder : {K : Type 0} → List Instr → List (K × Value) × List (Value × Value) → Type 0
InOrder seen next = AllDefined seen next.0 × AllEarlier seen next.1

pub AllDefined-append :
    {K : Type 0} (xs ys : List Instr) (m : List (K × Value))
    → AllDefined xs m
    → AllDefined (xs ++ ys) m
AllDefined-append xs ys [] h = tt
AllDefined-append xs ys ((k, v) ∷ m) h = (Defines-append v xs ys h.0, AllDefined-append xs ys m h.1)

pub AllEarlier-append :
    (xs ys : List Instr) (m : List (Value × Value)) → AllEarlier xs m → AllEarlier (xs ++ ys) m
AllEarlier-append xs ys [] h = tt
AllEarlier-append xs ys (e ∷ m) h =
    (Earlier-append e.1 e.0 xs ys h.0, AllEarlier-append xs ys m h.1)

pub InOrder-append :
    {K : Type 0} (xs ys : List Instr) (next : List (K × Value) × List (Value × Value))
    → InOrder xs next
    → InOrder (xs ++ ys) next
InOrder-append xs ys next h =
    (AllDefined-append xs ys next.0 h.0, AllEarlier-append xs ys next.1 h.1)
