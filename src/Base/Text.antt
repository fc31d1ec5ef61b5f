-- ===== src/Base/Text.antt =====
-- Names and texts: the library's equality test under one name, with its law.
use Prim.Native.String.{String}
use mathlib.Core.Path.{◌≡◌}
use mathlib.Core.Bool.{Bool, true}
use mathlib.Core.Logic.{◌↔◌}
use mathlib.Core.List.{List, [], ◌∷◌}
use Prim.Native.Nat.{ℕ, suc}
use text.Mathlib.Text.{◌==◌ as text_eq}
use text.Mathlib.TextEquality.{eq_iff}
use covenant_language.Base.Tests.{if◌then◌else◌}

abbrev pub str_eq : String → String → Bool
str_eq = text_eq

pub str_eq_iff : (s t : String) → (str_eq s t ≡ true) ↔ (s ≡ t)
str_eq_iff s t = eq_iff s t

-- The position of a text in a table; past its end, the table's length.
abbrev pub position : String → List String → ℕ
position s [] = 0
position s (t ∷ ts) = if str_eq t s then 0 else suc (position s ts)
