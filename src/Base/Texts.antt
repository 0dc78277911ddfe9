-- ===== src/Base/Texts.antt =====
-- Texts as lists of UTF-16 code units, with JavaScript's string operations that the code uses.
use Prim.Native.Char.{code}
use Prim.Native.Nat.{ℕ, ◌+◌, ◌-◌}
use Prim.Native.String.{String}
use mathlib.Core.Path.{◌≡◌, refl, ap, ◌∙◌}
use native.Mathlib.Omega.{arith}
use mathlib.Core.Bool.{Bool, true, false, ◌&&◌, ◌||◌}
use mathlib.Core.List.{List, [], ◌∷◌, ◌++◌, map}
use native.Mathlib.Decide.{ℕ_discrete}
use swiftlm_platform.Base.Tests.{if◌then◌else◌, holds, eqb, leb}
use swiftlm_platform.Base.Lists.{take, All}

abbrev pub Text : Type 0
Text = List ℕ

abbrev pub Bytes : Type 0
Bytes = List ℕ

-- The code units of a literal (of one unit for each character).
abbrev pub codes : String → Text
codes String.[] = []
codes (String.◌∷◌ c s) = code c ∷ codes s

unfoldable pub text_discrete : Discrete Text
unfolding ℕ_discrete
text_discrete [] [] = yes refl
text_discrete [] (y ∷ ys) = no (cc)
text_discrete (x ∷ xs) [] = no (cc)
text_discrete (x ∷ xs) (y ∷ ys) = elim (ℕ_discrete x y) [
  | yes p ↦ elim (text_discrete xs ys) [ yes q ↦ yes (cc) | no q ↦ no (λ e. q (cc)) ]
  | no p ↦ no (λ e. p (cc))
]

infix 50 ◌==◌
abbrev pub ◌==◌ : Text → Text → Bool
a == b = holds (text_discrete a b)

-- An empty JavaScript string is falsy.
abbrev pub is_empty : Text → Bool
is_empty [] = true
is_empty (c ∷ s) = false

-- `a || b` on strings.
abbrev pub or_else : Text → Text → Text
or_else [] b = b
or_else (c ∷ s) b = c ∷ s

abbrev pub newline : ℕ
newline = 10

-- `parts.join("\n")`
abbrev pub join_lines : List Text → Text
join_lines [] = []
join_lines (s ∷ []) = s
join_lines (s ∷ t ∷ ts) = s ++ (newline ∷ join_lines (t ∷ ts))

-- `toUpperCase` and `toLowerCase` on ASCII letters.
abbrev upper_unit : ℕ → ℕ
upper_unit c = if leb b'a' c && leb c b'z' then c - 32 else c

abbrev lower_unit : ℕ → ℕ
lower_unit c = if leb b'A' c && leb c b'Z' then c + 32 else c

abbrev pub to_upper : Text → Text
to_upper = map upper_unit

abbrev pub to_lower : Text → Text
to_lower = map lower_unit

-- White space and line terminators, as `trim` and `\s` take them.
unfoldable pub is_space : ℕ → Bool
is_space c =
    (leb 9 c && leb c 13)
    || eqb c 32
    || eqb c 160
    || eqb c 5760
    || (leb 8192 c && leb c 8202)
    || eqb c 8232
    || eqb c 8233
    || eqb c 8239
    || eqb c 8287
    || eqb c 12288
    || eqb c 65279

unfoldable pub trim_start : Text → Text
trim_start [] = []
trim_start (c ∷ s) = let rest = trim_start s in if is_space c then rest else c ∷ s

pub trim_end : Text → Text
trim_end [] = []
trim_end (c ∷ s) = elim (trim_end s) [ [] ↦ if is_space c then [] else c ∷ [] | d ∷ r ↦ c ∷ d ∷ r ]

unfoldable pub trim : Text → Text
unfolding trim_start trim_end is_space
trim s = trim_end (trim_start s)

-- `text.split(c)` at one unit.
unfoldable pub split : ℕ → Text → List Text
split c [] = [] ∷ []
split c (x ∷ s) =
    let rest = split c s in
    if eqb x c then [] ∷ rest else elim rest [ [] ↦ (x ∷ []) ∷ [] | t ∷ ts ↦ (x ∷ t) ∷ ts ]

-- `s.slice(0, n)`
abbrev pub slice_to : ℕ → Text → Text
slice_to n s = take n s

abbrev pub starts_with : Text → Text → Bool
starts_with [] s = true
starts_with (p ∷ ps) [] = false
starts_with (p ∷ ps) (c ∷ s) = eqb p c && starts_with ps s

trim_end-plain : (s : Text) → All (λ c. is_space c ≡ false) s → trim_end s ≡ s
unfolding trim_end
trim_end-plain [] plain = refl
trim_end-plain (c ∷ []) plain = ground arith
trim_end-plain (c ∷ d ∷ s) plain = rw (trim_end-plain (d ∷ s) plain.1)

trim_start-plain : (s : Text) → All (λ c. is_space c ≡ false) s → trim_start s ≡ s
unfolding trim_start
trim_start-plain [] plain = refl
trim_start-plain (c ∷ s) plain = ground arith

-- A text without white space is left by `trim`, and so is one behind a blank.
pub trim-plain : (s : Text) → All (λ c. is_space c ≡ false) s → trim s ≡ s
unfolding trim
trim-plain s plain = ap trim_end (trim_start-plain s plain) ∙ trim_end-plain s plain

pub trim-blank : (s : Text) → trim (32 ∷ s) ≡ trim s
unfolding trim trim_start is_space
trim-blank s = refl

trim_end-append :
    (a s : Text) (x : ℕ) → trim_end (x ∷ s) ≡ x ∷ s → trim_end (a ++ (x ∷ s)) ≡ a ++ (x ∷ s)
unfolding trim_end
trim_end-append [] s x e = e
trim_end-append (c ∷ []) s x e = rw e refl
trim_end-append (c ∷ d ∷ a) s x e = rw (trim_end-append (d ∷ a) s x e) refl

-- Only the ends of a text matter to `trim`.
pub trim-append :
    (c : ℕ) (a : Text) (x : ℕ) (s : Text)
    → is_space c ≡ false
    → All (λ d. is_space d ≡ false) (x ∷ s)
    → trim ((c ∷ a) ++ (x ∷ s)) ≡ (c ∷ a) ++ (x ∷ s)
unfolding trim trim_start
trim-append c a x s first plain =
    rw first (trim_end-append (c ∷ a) s x (trim_end-plain (x ∷ s) plain))
