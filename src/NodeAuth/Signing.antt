-- ===== src/NodeAuth/Signing.antt =====
-- What a signature of dashboard/src/nodeAuth.js covers, and that `verify` takes what `sign` makes.
use swiftlm_platform.Base.{
  ℕ, ◌+◌, ◌≤◌, ◌≡◌, ◌≢◌, refl, false, some, [], ◌∷◌, ◌++◌, arith, Text, newline, to_upper, All,
}
use swiftlm_platform.NodeAuth.{
  exactly, Host, Request, Cache, accepted, live, has, nonce_key, verify, signing_string, Body, sign,
  body_hash, window_ms, claim,
}

-- A text of one line.
abbrev pub OneLine : Text → Type 0
OneLine s = All (λ c. c ≢ newline) s

-- Two lines that are followed by a line break each, and then by any text.
line_break_unique :
    (a b : Text) (s t : Text)
    → OneLine a
    → OneLine b
    → a ++ (newline ∷ s) ≡ b ++ (newline ∷ t)
    → (a ≡ b) × (s ≡ t)
line_break_unique [] [] s t ha hb e = ground arith
line_break_unique [] (y ∷ b) s t ha hb e = ground arith
line_break_unique (x ∷ a) [] s t ha hb e = ground arith
line_break_unique (x ∷ a) (y ∷ b) s t ha hb e = ground (arith, line_break_unique a b s t ha.1 hb.1)

-- Two requests have one signing string only if they have the same method up to case, path, node,
-- timestamp, nonce and body hash, where these hold no line break.
pub signing_string-injective :
    (h : Host) (r q : Request) (t u n m : Text)
    → OneLine (to_upper r.method)
    → OneLine (to_upper q.method)
    → OneLine r.path
    → OneLine q.path
    → OneLine r.node_id
    → OneLine q.node_id
    → OneLine t
    → OneLine u
    → OneLine n
    → OneLine m
    → signing_string h r t n ≡ signing_string h q u m
    → (to_upper r.method ≡ to_upper q.method)
      × (r.path ≡ q.path)
      × (r.node_id ≡ q.node_id)
      × (t ≡ u)
      × (n ≡ m)
      × (body_hash h r.body ≡ body_hash h q.body)
unfolding signing_string
signing_string-injective h r q t u n m a a' b b' c c' d d' f f' e =
    let (e₁, r₁) = line_break_unique _ _ _ _ a a' e in
    let (e₂, r₂) = line_break_unique _ _ _ _ b b' r₁ in
    let (e₃, r₃) = line_break_unique _ _ _ _ c c' r₂ in
    let (e₄, r₄) = line_break_unique _ _ _ _ d d' r₃ in
    let (e₅, r₅) = line_break_unique _ _ _ _ f f' r₄ in (e₁, e₂, e₃, e₄, e₅, r₅)

-- What `sign` makes is accepted by `verify` under the same secret, while its timestamp is in the
-- window and its nonce has not been seen.
pub verify-sign :
    (h : Host) (w now t : ℕ) (secret timestamp nonce : Text) (r : Request) (seen : Cache)
    → secret ≢ []
    → timestamp ≢ []
    → nonce ≢ []
    → (sign h secret r timestamp nonce).signature ≢ []
    → h.number timestamp ≡ some (exactly t)
    → now ≤ t + w
    → t ≤ now + w
    → has (nonce_key r.node_id nonce) (live now seen) ≡ false
    → (verify h w secret r (sign h secret r timestamp nonce) now seen).1 ≡ accepted
unfolding verify sign
verify-sign h w now t secret timestamp nonce r seen a b c d read lo hi fresh = ground arith

-- A signed request is accepted, and its nonce is kept.
pub verify-sign_claims :
    (h : Host) (now t : ℕ) (secret timestamp nonce : Text) (r : Request) (seen : Cache)
    → secret ≢ []
    → timestamp ≢ []
    → nonce ≢ []
    → (sign h secret r timestamp nonce).signature ≢ []
    → h.number timestamp ≡ some (exactly t)
    → now ≤ t + window_ms
    → t ≤ now + window_ms
    → has (nonce_key r.node_id nonce) (live now seen) ≡ false
    → verify h window_ms secret r (sign h secret r timestamp nonce) now seen
      ≡ ((claim window_ms (nonce_key r.node_id nonce) now seen).0, accepted)
unfolding verify sign claim
verify-sign_claims h now t secret timestamp nonce r seen a b c d read lo hi fresh = ground arith

-- A value is signed as its JSON text.
pub sign-json :
    (h : Host) (secret method path id body timestamp nonce : Text)
    → sign h secret
        (record { method = method; path = path; node_id = id; body = Body.json body })
        timestamp
        nonce
      ≡ sign h secret
          (record { method = method; path = path; node_id = id; body = Body.text body })
          timestamp
          nonce
unfolding sign signing_string body_hash
sign-json h secret method path id body timestamp nonce = refl
