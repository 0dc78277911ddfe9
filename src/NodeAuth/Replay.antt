-- ===== src/NodeAuth/Replay.antt =====
-- Replay protection of dashboard/src/nodeAuth.js: what `verify` accepts, and how often.
use swiftlm_platform.Base.{
  ℕ, ◌+◌, ◌≤◌, ◌<◌, ◌≡◌, ◌≢◌, ◌↔◌, refl, true, false, some, List, [], ◌∷◌, ◌++◌, arith, Text, inl,
  inr, ◌⊎◌, All, Bool-cases,
}
use swiftlm_platform.NodeAuth.{
  Instant, ceiling, Host, Request, Signature, Entry, Cache, Verdict, accepted, live, has, claim,
  nonce_key, verify, hex_bytes, signing_string,
}
use swiftlm_platform.NodeAuth.Nonces.{Holds, Holds-claim, Holds-claimed, claim_held}

-- One call of `verify` on the shared cache.
pub record Call : Type 0 where
  pub secret : Text
  pub request : Request
  pub signature : Signature
  pub now : ℕ

abbrev pub key_of : Call → Text
key_of c = nonce_key c.request.node_id c.signature.nonce

abbrev pub verify_call : Host → ℕ → Call → Cache → Cache × Verdict
verify_call h w c seen = verify h w c.secret c.request c.signature c.now seen

-- The cache after a history of calls.
abbrev pub after : Host → ℕ → List Call → Cache → Cache
after h w [] seen = seen
after h w (c ∷ cs) seen = after h w cs (verify_call h w c seen).0

-- `verify` leaves the cache alone, or makes one claim.
verify_cache :
    (h : Host) (w : ℕ) (c : Call) (seen : Cache)
    → ((verify_call h w c seen).0 ≡ seen)
      ⊎ ((verify_call h w c seen).0 ≡ (claim w (key_of c) c.now seen).0)
unfolding verify
verify_cache h w c seen = ground arith

verify_accepted-claim :
    (h : Host) (w : ℕ) (c : Call) (seen : Cache)
    → (verify_call h w c seen).1 ≡ accepted
    → ((verify_call h w c seen).0 ≡ (claim w (key_of c) c.now seen).0)
      × ((claim w (key_of c) c.now seen).1 ≡ true)
unfolding verify
verify_accepted-claim h w c seen = ground arith

Holds-verify :
    (h : Host) (w bound : ℕ) (k : Text) (c : Call) (seen : Cache)
    → c.now < bound
    → Holds k bound seen
    → Holds k bound (verify_call h w c seen).0
Holds-verify h w bound k c seen lt held = elim (verify_cache h w c seen) [
  | inl e ↦ rw e held
  | inr e ↦ rw e (Holds-claim k (key_of c) bound w c.now seen lt held)
]

Holds-after :
    (h : Host) (w bound : ℕ) (k : Text) (cs : List Call) (seen : Cache)
    → All (λ c. c.now < bound) cs
    → Holds k bound seen
    → Holds k bound (after h w cs seen)
Holds-after h w bound k [] seen early held = held
Holds-after h w bound k (c ∷ cs) seen early held =
    Holds-after h w bound k cs _ early.1 (Holds-verify h w bound k c seen early.0 held)

-- Once a message is accepted, no later message of that node with the same nonce is accepted for a
-- whole window, whatever was verified in between and whatever it is signed with.
pub no_replay_within_window :
    (h : Host) (w : ℕ) (first again : Call) (between : List Call) (seen : Cache)
    → (verify_call h w first seen).1 ≡ accepted
    → key_of again ≡ key_of first
    → All (λ c. c.now < first.now + w) between
    → again.now < first.now + w
    → (verify_call h w again (after h w between (verify_call h w first seen).0)).1 ≢ accepted
no_replay_within_window h w first again between seen ok same early soon e =
    let (recorded, fresh) = verify_accepted-claim h w first seen ok in
    let start = Holds-claimed (key_of first) w first.now seen fresh in
    let kept =
      Holds-after h w (first.now + w) (key_of first) between (verify_call h w first seen).0 early
        (rw recorded start) in
    let (_, retry) = verify_accepted-claim h w again _ e in
    let lost = claim_held (key_of first) (first.now + w) w again.now _ soon kept in
    cc (rw same at retry, lost)

has-live : (k : Text) (now : ℕ) (seen : Cache) → has k seen ≡ false → has k (live now seen) ≡ false
has-live k now [] h = refl
has-live k now (e ∷ es) h = ground (arith, has-live k now es)

live-append : (now : ℕ) (xs ys : Cache) → live now (xs ++ ys) ≡ live now xs ++ live now ys
live-append now [] ys = refl
live-append now (e ∷ es) ys = ground (arith, live-append now es ys)

has-append_old :
    (k : Text) (now : ℕ) (e : Entry) (seen : Cache)
    → has k seen ≡ false
    → e.expires_at ≤ now
    → has k (live now (seen ++ (e ∷ []))) ≡ false
has-append_old k now e [] h old = ground arith
has-append_old k now e (x ∷ xs) h old = ground (arith, has-append_old k now e xs)

-- A claim that succeeded succeeds again once its window is over.
claim_again :
    (k : Text) (w now later : ℕ) (seen : Cache)
    → (claim w k now seen).1 ≡ true
    → now + w ≤ later
    → (claim w k later (claim w k now seen).0).1 ≡ true
unfolding claim
claim_again k w now later seen ok over = elim (Bool-cases (has k (live now seen))) [
  | inl e ↦ absurd (cc (rw e at ok))
  | inr e ↦
      rw (
        e,
        has-append_old k later (record { key = k; expires_at = now + w }) (live now seen) e over,
      )
]

claim_fresh :
    (k : Text) (w now : ℕ) (seen : Cache)
    → (claim w k now seen).1 ≡ true
    → has k (live now seen) ≡ false
unfolding claim
claim_fresh k w now seen ok = ground arith

abbrev pub at_time : Call → ℕ → Call
at_time c later = record c { now = later }

-- When `verify` accepts a message, in terms of its parts.
pub verify-accepted_iff :
    (h : Host) (w : ℕ) (c : Call) (seen : Cache)
    → ((verify_call h w c seen).1 ≡ accepted) ↔ (
        (c.secret ≢ [])
        × (c.signature.timestamp ≢ [])
        × (c.signature.nonce ≢ [])
        × (c.signature.signature ≢ [])
        × ((x : Instant) × (h.number c.signature.timestamp ≡ some x)
            × (c.now ≤ x.whole + w)
            × (ceiling x ≤ c.now + w))
        × (hex_bytes (
              h.hmac_hex c.secret
                (signing_string h c.request c.signature.timestamp c.signature.nonce))
            ≡ hex_bytes c.signature.signature)
        × (has (key_of c) (live c.now seen) ≡ false))
unfolding verify
verify-accepted_iff h w c seen = (λ e. ground arith, λ g. ground arith)

-- A captured message can be replayed once the window of its nonce is over, for as long as its
-- timestamp is still in the window: at that very millisecond, or longer with a timestamp ahead.
pub replay_after_window :
    (h : Host) (w later : ℕ) (x : Instant) (first : Call) (seen : Cache)
    → (verify_call h w first seen).1 ≡ accepted
    → h.number first.signature.timestamp ≡ some x
    → first.now + w ≤ later
    → later ≤ x.whole + w
    → (verify_call h w (at_time first later) (verify_call h w first seen).0).1 ≡ accepted
replay_after_window h w later x first seen ok read over inside =
    let (recorded, fresh) = verify_accepted-claim h w first seen ok in
    let again = claim_again (key_of first) w first.now later seen fresh over in
    let (a, b, c, d, (y, r, lo, hi), same, _) = (verify-accepted_iff h w first seen).0 ok in
    (verify-accepted_iff h w (at_time first later) _).1 (
      a,
      b,
      c,
      d,
      (x, read, inside, ground arith),
      same,
      rw recorded (claim_fresh (key_of first) w later _ again),
    )
