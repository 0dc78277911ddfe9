-- ===== src/NodeAuth/Nonces.antt =====
-- Lemmas on the nonce cache of dashboard/src/nodeAuth.js.
use swiftlm_platform.Base.{
  ℕ, ◌+◌, ◌≤◌, ◌<◌, ◌≡◌, refl, true, false, [], ◌∷◌, ◌++◌, arith, Text, inl, inr, ◌⊎◌, Bool-cases,
}
use swiftlm_platform.NodeAuth.{Cache, live, has, claim}

-- The cache holds the key until the bound, at least.
abbrev pub Holds : Text → ℕ → Cache → Type 0
Holds k bound [] = ⊥
Holds k bound (e ∷ es) = ((e.key ≡ k) × (bound ≤ e.expires_at)) ⊎ Holds k bound es

pub Holds-live :
    (k : Text) (bound now : ℕ) (seen : Cache)
    → now < bound
    → Holds k bound seen
    → Holds k bound (live now seen)
Holds-live k bound now [] lt h = h
Holds-live k bound now (e ∷ es) lt (inl h) = ground arith
Holds-live k bound now (e ∷ es) lt (inr h) = ground (arith, Holds-live k bound now es lt h)

Holds-append_left :
    (k : Text) (bound : ℕ) (xs ys : Cache) → Holds k bound xs → Holds k bound (xs ++ ys)
Holds-append_left k bound (e ∷ es) ys (inl h) = inl h
Holds-append_left k bound (e ∷ es) ys (inr h) = inr (Holds-append_left k bound es ys h)
Holds-append_left k bound [] ys h = elim h [ ]

Holds-append_right :
    (k : Text) (bound : ℕ) (xs ys : Cache) → Holds k bound ys → Holds k bound (xs ++ ys)
Holds-append_right k bound [] ys h = h
Holds-append_right k bound (e ∷ es) ys h = inr (Holds-append_right k bound es ys h)

pub has_of_Holds : (k : Text) (bound : ℕ) (seen : Cache) → Holds k bound seen → has k seen ≡ true
has_of_Holds k bound [] h = elim h [ ]
has_of_Holds k bound (e ∷ es) (inl h) = ground arith
has_of_Holds k bound (e ∷ es) (inr h) = ground (arith, has_of_Holds k bound es h)

-- A claim made before the bound does not lose the key.
pub Holds-claim :
    (k j : Text) (bound window now : ℕ) (seen : Cache)
    → now < bound
    → Holds k bound seen
    → Holds k bound (claim window j now seen).0
unfolding claim
Holds-claim k j bound window now seen lt h = elim (Bool-cases (has j (live now seen))) [
  | inl e ↦ rw e (Holds-live k bound now seen lt h)
  | inr e ↦ rw e (Holds-append_left k bound (live now seen) _ (Holds-live k bound now seen lt h))
]

-- A claim that succeeds records the key for a whole window.
pub Holds-claimed :
    (k : Text) (window now : ℕ) (seen : Cache)
    → (claim window k now seen).1 ≡ true
    → Holds k (now + window) (claim window k now seen).0
unfolding claim
Holds-claimed k window now seen ok = elim (Bool-cases (has k (live now seen))) [
  | inl e ↦ absurd (cc (rw e at ok))
  | inr e ↦ rw e (Holds-append_right k (now + window) (live now seen) _ (inl (refl, omega arith)))
]

pub claim_held :
    (k : Text) (bound window now : ℕ) (seen : Cache)
    → now < bound
    → Holds k bound seen
    → (claim window k now seen).1 ≡ false
unfolding claim
claim_held k bound window now seen lt h =
    rw (has_of_Holds k bound (live now seen) (Holds-live k bound now seen lt h))
