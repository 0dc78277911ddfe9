-- ===== src/Markdown/Escaping.antt =====
-- dashboard/public/markdown-enhancer.js: the addresses that get into the page.
use swiftlm_platform.Base.{
  ℕ, ◌≡◌, ◌≢◌, refl, inl, inr, Bool, true, false, ◌||◌, [], ◌∷◌, Text, codes, All, All-append,
  arith, Bool-cases, starts_with, to_lower, trim,
}
use swiftlm_platform.Markdown.{escaped, escape_html, is_safe, safe_href}

-- A unit that ends neither a tag nor an attribute.
abbrev pub IsHarmless : ℕ → Type 0
IsHarmless c = (c ≢ b'<') × (c ≢ b'>') × (c ≢ 34) × (c ≢ 39)

escaped-IsHarmless : (c : ℕ) → All IsHarmless (escaped c)
escaped-IsHarmless c = ground arith

escape_html-IsHarmless : (s : Text) → All IsHarmless (escape_html s)
unfolding escape_html
escape_html-IsHarmless [] = tt
escape_html-IsHarmless (c ∷ s) =
    All-append IsHarmless (escaped c) (escape_html s) (escaped-IsHarmless c)
      (escape_html-IsHarmless s)

-- A unit that is not escaped, in either case.
abbrev IsPlain : ℕ → Type 0
IsPlain c = (c ≢ b'&') × IsHarmless c

starts_with-escape_html :
    (p s : Text) → All IsPlain p → starts_with p s ≡ true → starts_with p (escape_html s) ≡ true
unfolding escape_html
starts_with-escape_html [] s plain h = refl
starts_with-escape_html (x ∷ p) [] plain h = h
starts_with-escape_html (x ∷ p) (c ∷ s) plain h =
    ground (arith, starts_with-escape_html p s plain.1, plain.0)

starts_with-to_lower :
    (p s : Text)
    → All IsPlain p
    → starts_with p (to_lower s) ≡ true
    → starts_with p (to_lower (escape_html s)) ≡ true
unfolding escape_html
starts_with-to_lower [] s plain h = refl
starts_with-to_lower (x ∷ p) [] plain h = h
starts_with-to_lower (x ∷ p) (c ∷ s) plain h =
    ground (arith, starts_with-to_lower p s plain.1, plain.0)

or_implies :
    (a b a' b' : Bool)
    → (a ≡ true → a' ≡ true)
    → (b ≡ true → b' ≡ true)
    → a || b ≡ true
    → a' || b' ≡ true
or_implies true b a' b' f g h = ground (arith, f refl)
or_implies false b a' b' f g h = ground (arith, g h)

is_safe-escape_html : (s : Text) → is_safe s ≡ true → is_safe (escape_html s) ≡ true
is_safe-escape_html s =
    or_implies _ _ _ _
      (or_implies _ _ _ _
        (or_implies _ _ _ _
          (or_implies _ _ _ _ (starts_with-to_lower (codes "http:") s (ground arith))
            (starts_with-to_lower (codes "https:") s (ground arith)))
          (starts_with-to_lower (codes "mailto:") s (ground arith)))
        (starts_with-escape_html (codes "/") s (ground arith)))
      (starts_with-escape_html (codes "#") s (ground arith))

-- Whatever an answer gives as the address of a link, the address that `safe_href` returns is one of HTTP
-- or mail, a path or an anchor, and holds no quote and no angle bracket.
pub safe_href-IsHarmless :
    (value : Text) → (is_safe (safe_href value) ≡ true) × All IsHarmless (safe_href value)
unfolding safe_href
safe_href-IsHarmless value = elim (Bool-cases (is_safe (trim value))) [
  | inl e ↦
      let safe = is_safe-escape_html (trim value) e in
      let plain = escape_html-IsHarmless (trim value) in rw e (safe, plain)
  | inr e ↦ rw e (refl, ground arith)
]
