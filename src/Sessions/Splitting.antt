-- ===== src/Sessions/Splitting.antt =====
-- How the cookies of dashboard/src/auth.js are cut: at dots, semicolons and equals signs.
use swiftlm_platform.Base.{
  split, ℕ, inl, inr, Bool-cases, Option-cases, ◌≡◌, ◌≢◌, refl, none, some, List, [], ◌∷◌, ◌++◌,
  Text, ◌==◌, All, arith, eqb, if◌then◌else◌,
}
use swiftlm_platform.Sessions.{Host, Cookies, cut_at, cookies, cookie, cookie_value}

pub cut_at-append :
    (c : ℕ) (a b : Text) → All (λ x. x ≢ c) a → cut_at c (a ++ (c ∷ b)) ≡ some (a, b)
cut_at-append c [] b free = ground arith
cut_at-append c (x ∷ a) b free = ground (arith, cut_at-append c a b free.1)

pub cut_at-free : (c : ℕ) (a : Text) → All (λ x. x ≢ c) a → cut_at c a ≡ none
cut_at-free c [] free = refl
cut_at-free c (x ∷ a) free = ground (arith, cut_at-free c a free.1)

split-full : (c : ℕ) (s : Text) → (t : Text) × (ts : List Text) × (split c s ≡ t ∷ ts)
unfolding split
split-full c [] = ([], [], refl)
split-full c (x ∷ s) =
    let (t, ts, e) = split-full c s in
    elim (Bool-cases (eqb x c)) [
      | inl q ↦ ([], split c s, ground arith)
      | inr q ↦ (x ∷ t, ts, ground (arith, e))
    ]

pub split-append : (c : ℕ) (a b : Text) → split c (a ++ (c ∷ b)) ≡ split c a ++ split c b
unfolding split
split-append c [] b = ground arith
split-append c (x ∷ a) b = ground (arith, split-append c a b, split-full c a)

pub split-free : (c : ℕ) (a : Text) → All (λ x. x ≢ c) a → split c a ≡ a ∷ []
unfolding split
split-free c [] free = refl
split-free c (x ∷ a) free = ground (arith, split-free c a free.1)

pub cookies-append :
    (h : Host) (xs ys : List Text) (cs ds : Cookies)
    → cookies h xs ≡ some cs
    → cookies h ys ≡ some ds
    → cookies h (xs ++ ys) ≡ some (cs ++ ds)
cookies-append h [] ys cs ds e f = ground arith
cookies-append h (x ∷ xs) ys cs ds e f = elim (Option-cases (cookie h x)) [
  | inl q ↦ absurd (ground arith)
  | inr (p, q) ↦ elim (Option-cases (cookies h xs)) [
    | inl r ↦ absurd (ground arith)
    | inr (rest, r) ↦ ground (arith, cookies-append h xs ys rest ds r f)
  ]
]

pub cookie_value-append :
    (name : Text) (found value : Text) (cs : Cookies)
    → cookie_value name found (cs ++ ((name, value) ∷ [])) ≡ value
cookie_value-append name found value [] = ground arith
cookie_value-append name found value (c ∷ cs) =
    cookie_value-append name (if c.0 == name then c.1 else found) value cs
