-- ===== src/Base/Numbers.antt =====
-- `Number.parseInt(text, 10)` where the code wants a positive number.
use Prim.Native.Nat.{ℕ, ◌+◌, ◌-◌, ◌*◌}
use mathlib.Core.Bool.{Bool, true, false, ◌&&◌}
use mathlib.Core.List.{[], ◌∷◌}
use swiftlm_platform.Base.Tests.{if◌then◌else◌, leb, eqb}
use swiftlm_platform.Base.Texts.{Text, trim_start, is_space}

abbrev is_digit : ℕ → Bool
is_digit c = leb b'0' c && leb c b'9'

-- The digits at the front; what follows them is not read.
abbrev digits_from : ℕ → Text → ℕ
digits_from n [] = n
digits_from n (c ∷ s) = elim (is_digit c) [ true ↦ digits_from (n * 10 + (c - b'0')) s | false ↦ n ]

abbrev unsigned : Text → Text
unsigned [] = []
unsigned (c ∷ s) = if eqb c b'+' then s else c ∷ s

-- A text that is no positive number gives the fallback: no digits, zero, and a minus sign all do.
unfoldable pub positive_int : Text → ℕ → ℕ
unfolding trim_start is_space
positive_int value fallback =
    let n = digits_from 0 (unsigned (trim_start value)) in if leb 1 n then n else fallback
