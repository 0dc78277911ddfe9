-- ===== src/NodeAuth.antt =====
-- dashboard/src/nodeAuth.js: the signatures between the dashboard and its nodes, and the nonce
-- cache. mlx-gateway/nodeAgent.mjs holds the same code. SHA-256 and HMAC-SHA-256 are those of
-- node:crypto, and `number` reads a header as a number; all three are parameters.
mod Bounds
mod Nonces
pub mod Replay
pub mod Signing
mod Tests
use swiftlm_platform.Base.{
  Bytes, ℕ, ◌+◌, ◌-◌, ◌*◌, Bool, true, false, not, ◌&&◌, ◌||◌, Option, none, some, List, [], ◌∷◌,
  ◌++◌, Text, codes, ◌==◌, is_empty, or_else, join_lines, to_upper, leb, ltb, eqb, if◌then◌else◌,
  filter, any, holds, text_discrete,
}

-- A number that is not negative: its whole part, and whether it has a fraction.
pub record Instant : Type 0 where
  pub whole : ℕ
  pub fraction : Bool

abbrev pub exactly : ℕ → Instant
exactly t = record { whole = t; fraction = false }

-- What the code takes from its host: the digests in hexadecimal, `Number(text)` (`none` for what is not
-- finite, and for a negative number, which lies outside every window of a clock past that window), and `toString("utf8")` of a buffer, which reads
-- bytes that are no UTF-8 as replacement characters.
pub record Host : Type 0 where
  pub hmac_hex : Text → Text → Text
  pub sha256_hex : Text → Text
  pub number : Text → Option Instant
  pub to_text : Bytes → Text

-- A request body: null or undefined, a string, or a value by its JSON text.
pub data Body : Type 0 where
  absent : Body
  text json : Text → Body

pub record Request : Type 0 where
  pub method : Text
  pub path : Text
  pub node_id : Text
  pub body : Body

-- The four headers; a header that is missing is the empty text, which is falsy too.
pub record Signature : Type 0 where
  pub node_id : Text
  pub timestamp : Text
  pub nonce : Text
  pub signature : Text

abbrev pub window_ms : ℕ
window_ms = 5 * 60 * 1000

abbrev body_text : Body → Text
body_text absent = []
body_text (text t) = t
body_text (json t) = t

pub body_hash : Host → Body → Text
body_hash h b = h.sha256_hex (body_text b)

pub signing_string : Host → Request → Text → Text → Text
signing_string h r timestamp nonce =
    join_lines
      (to_upper r.method ∷ r.path ∷ r.node_id ∷ timestamp ∷ nonce ∷ body_hash h r.body ∷ [])

-- The timestamp is the decimal text of the clock's milliseconds.
unfoldable pub sign : Host → Text → Request → Text → Text → Signature
sign h secret r timestamp nonce = record {
  node_id = r.node_id;
  timestamp = timestamp;
  nonce = nonce;
  signature = h.hmac_hex secret (signing_string h r timestamp nonce);
}

-- `Buffer.from(text, "hex")`: pairs of digits, up to the first that is none.
abbrev hex_digit : ℕ → Option ℕ
hex_digit c =
    if leb b'0' c && leb c b'9'
    then some (c - b'0')
    else if leb b'a' c && leb c b'f'
    then some (c - b'a' + 10)
    else if leb b'A' c && leb c b'F'
    then some (c - b'A' + 10)
    else none

unfoldable pub hex_bytes : Text → List ℕ
hex_bytes [] = []
hex_bytes (c ∷ []) = []
hex_bytes (c ∷ d ∷ s) =
    let rest = hex_bytes s in
    elim (hex_digit c) [
      | none ↦ []
      | some hi ↦ elim (hex_digit d) [ none ↦ [] | some lo ↦ (hi * 16 + lo) ∷ rest ]
    ]

pub safe_equal : Text → Text → Bool
safe_equal a b = holds (text_discrete (hex_bytes a) (hex_bytes b))

-- The nonces seen, in the order of insertion.
pub record Entry : Type 0 where
  pub key : Text
  pub expires_at : ℕ

abbrev pub Cache : Type 0
Cache = List Entry

abbrev pub live : ℕ → Cache → Cache
live now seen = filter (λ e. not (leb e.expires_at now)) seen

abbrev pub has : Text → Cache → Bool
has k seen = any (λ e. e.key == k) seen

unfoldable pub claim : ℕ → Text → ℕ → Cache → Cache × Bool
claim window k now seen =
    if has k (live now seen)
    then (live now seen, false)
    else (live now seen ++ (record { key = k; expires_at = now + window } ∷ []), true)

pub data Verdict : Type 0 where
  accepted missing_fields timestamp_out_of_window invalid_signature replayed_nonce : Verdict

-- The first whole number that is not below.
abbrev pub ceiling : Instant → ℕ
ceiling x = if x.fraction then x.whole + 1 else x.whole

-- `Math.abs(now - x) > window`, for whole milliseconds of the clock and of the window.
abbrev is_outside : ℕ → Instant → ℕ → Bool
is_outside window x now = ltb (x.whole + window) now || ltb (now + window) (ceiling x)

abbrev pub nonce_key : Text → Text → Text
nonce_key node_id nonce = node_id ++ (b':' ∷ nonce)

abbrev claimed : Cache × Bool → Cache × Verdict
claimed (seen, true) = (seen, accepted)
claimed (seen, false) = (seen, replayed_nonce)

abbrev fresh : ℕ → Option Instant → ℕ → Bool
fresh window none now = false
fresh window (some x) now = not (is_outside window x now)

unfoldable pub verify : Host → ℕ → Text → Request → Signature → ℕ → Cache → Cache × Verdict
unfolding claim safe_equal
verify h window secret r s now seen =
    if is_empty secret || is_empty s.timestamp || is_empty s.nonce || is_empty s.signature
    then (seen, missing_fields)
    else if not (fresh window (h.number s.timestamp) now)
    then (seen, timestamp_out_of_window)
    else if not
        (safe_equal (h.hmac_hex secret (signing_string h r s.timestamp s.nonce)) s.signature)
    then (seen, invalid_signature)
    else claimed (claim window (nonce_key r.node_id s.nonce) now seen)

-- Headers as pairs; a name is looked up as it is spelled.
abbrev header : List (Text × Text) → Text → Text
header [] name = []
header ((k, v) ∷ hs) name = if k == name then v else header hs name

unfoldable pub parse_signature_headers : List (Text × Text) → Signature
parse_signature_headers hs = record {
  node_id = or_else (header hs (codes "x-node-id")) (header hs (codes "X-Node-Id"));
  timestamp = or_else (header hs (codes "x-node-timestamp")) (header hs (codes "X-Node-Timestamp"));
  nonce = or_else (header hs (codes "x-node-nonce")) (header hs (codes "X-Node-Nonce"));
  signature = or_else (header hs (codes "x-node-signature")) (header hs (codes "X-Node-Signature"));
}
