-- ===== src/NodeAuth/Bounds.antt =====
-- The size and the age of what the nonce cache of dashboard/src/nodeAuth.js keeps.
use swiftlm_platform.Base.{
  ℕ, ◌+◌, ◌≤◌, ◌<◌, ◌≡◌, ◌≢◌, refl, false, [], ◌∷◌, ◌++◌, arith, Text, inl, inr, All, Bool-cases,
  All-append,
}
use swiftlm_platform.NodeAuth.{Entry, Cache, live, has, claim}

-- An entry of the cache at a time.
abbrev pub Within : ℕ → ℕ → Entry → Type 0
Within w now e = (now < e.expires_at) × (e.expires_at ≤ now + w)

Within-claim_live :
    (w before now : ℕ) (seen : Cache)
    → before ≤ now
    → All (Within w before) seen
    → All (Within w now) (live now seen)
Within-claim_live w before now [] le h = tt
Within-claim_live w before now (e ∷ es) le h =
    ground (arith, Within-claim_live w before now es le h.1)

abbrev pub Distinct : Cache → Type 0
Distinct [] = Unit
Distinct (e ∷ es) = (has e.key es ≡ false) × Distinct es

has-live : (k : Text) (now : ℕ) (seen : Cache) → has k seen ≡ false → has k (live now seen) ≡ false
has-live k now [] h = refl
has-live k now (e ∷ es) h = ground (arith, has-live k now es)

Distinct-live : (now : ℕ) (seen : Cache) → Distinct seen → Distinct (live now seen)
Distinct-live now [] h = tt
Distinct-live now (e ∷ es) h = ground (arith, Distinct-live now es h.1, has-live e.key now es h.0)

has-append :
    (k : Text) (e : Entry) (seen : Cache)
    → has k seen ≡ false
    → k ≢ e.key
    → has k (seen ++ (e ∷ [])) ≡ false
has-append k e [] h ne = ground arith
has-append k e (x ∷ xs) h ne = ground (arith, has-append k e xs)

Distinct-append :
    (e : Entry) (seen : Cache)
    → Distinct seen
    → has e.key seen ≡ false
    → Distinct (seen ++ (e ∷ []))
Distinct-append e [] h new = (refl, tt)
Distinct-append e (x ∷ xs) h new =
    ground (arith, Distinct-append e xs h.1, has-append x.key e xs h.0)

-- The cache holds each key once, and holds it no longer than a window: every claim, whether it
-- succeeds or not, first forgets what has run out.
pub claim_invariant :
    (w before now : ℕ) (k : Text) (seen : Cache)
    → 0 < w
    → before ≤ now
    → All (Within w before) seen
    → Distinct seen
    → All (Within w now) (claim w k now seen).0 × Distinct (claim w k now seen).0
unfolding claim
claim_invariant w before now k seen pos le h d = elim (Bool-cases (has k (live now seen))) [
  | inl e ↦ rw e (Within-claim_live w before now seen le h, Distinct-live now seen d)
  | inr e ↦ rw e (
    All-append (Within w now) (live now seen) _ (Within-claim_live w before now seen le h)
        (omega arith),
    Distinct-append _ (live now seen) (Distinct-live now seen d) e,
  )
]
