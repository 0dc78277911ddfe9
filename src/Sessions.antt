-- ===== src/Sessions.antt =====
-- dashboard/src/auth.js and server.js: the administrator's session, a signed cookie. HMAC-SHA-256, the
-- text of a session (JSON in base64url) and the encoding of a URI's component are the runtime's.
pub mod Splitting
pub mod Admission
pub mod Keys
mod Tests
use swiftlm_platform.Base.{
  trim_start, is_space, to_lower, take, drop, slice_to, ◌||◌, split, ℕ, ◌+◌, ◌*◌, Bool, true, false,
  not, ◌&&◌, Option, none, some, List, [], ◌∷◌, ◌++◌, Text, codes, ◌==◌, is_empty, trim, eqb, leb,
  ltb, if◌then◌else◌, map, filter,
}

pub record Session : Type 0 where
  pub sub : Text
  pub exp : ℕ
  pub nonce : Text

-- `decode` and `decode_uri` are none where they throw.
pub record Host : Type 0 where
  pub hmac_hex : Text → Text → Text
  pub sha256 : Text → Text
  pub encode : Session → Text
  pub decode : Text → Option Session
  pub encode_uri : Text → Text
  pub decode_uri : Text → Option Text
  pub decimal : ℕ → Text

-- A candidate that is missing is the empty text.
unfoldable pub verify_admin_password : Host → Text → Text → Bool
verify_admin_password h candidate expected = h.sha256 candidate == h.sha256 expected

abbrev pub session_of : ℕ → Text → ℕ → Session
session_of hours nonce now = record {
  sub = codes "admin";
  exp = now + hours * 60 * 60 * 1000;
  nonce = nonce;
}

unfoldable pub create_session_cookie : Host → Text → ℕ → Text → ℕ → Text
create_session_cookie h secret hours nonce now =
    let payload = h.encode (session_of hours nonce now) in
    payload ++ (b'.' ∷ h.hmac_hex secret payload)

-- What stands before the first such unit, and what stands behind it.
abbrev pub cut_at : ℕ → Text → Option (Text × Text)
cut_at c [] = none
cut_at c (x ∷ s) =
    let rest = cut_at c s in
    if eqb x c then some ([], s) else elim rest [ none ↦ none | some (a, b) ↦ some (x ∷ a, b) ]

abbrev pub before : ℕ → Text → Text
before c s = elim (cut_at c s) [ none ↦ s | some (a, b) ↦ a ]

abbrev pub is_live : ℕ → Option Session → Bool
is_live now none = false
is_live now (some s) = (s.sub == codes "admin") && ltb now s.exp

abbrev pub signed : Host → Text → ℕ → Option (Text × Text) → Bool
signed h secret now none = false
signed h secret now (some (payload, rest)) =
    if before b'.' rest == h.hmac_hex secret payload then is_live now (h.decode payload) else false

-- The empty token is of no use, and neither is one without a dot.
unfoldable pub verify_session_cookie : Host → Text → Text → ℕ → Bool
verify_session_cookie h secret token now = signed h secret now (cut_at b'.' token)

abbrev pub Cookies : Type 0
Cookies = List (Text × Text)

abbrev valued : Text → Option Text → Option (Text × Text)
valued name none = none
valued name (some v) = some (name, v)

abbrev pub cookie : Host → Text → Option (Text × Text)
cookie h item = elim (cut_at b'=' item) [
  | none ↦ some (item, [])
  | some (name, value) ↦ valued name (h.decode_uri value)
]

abbrev pub add_cookie : Option (Text × Text) → Option Cookies → Option Cookies
add_cookie none cs = none
add_cookie (some c) none = none
add_cookie (some c) (some cs) = some (c ∷ cs)

abbrev pub cookies : Host → List Text → Option Cookies
cookies h [] = some []
cookies h (item ∷ items) = add_cookie (cookie h item) (cookies h items)

abbrev pub trimmed : List Text → List Text
trimmed pieces = filter (λ t. not (is_empty t)) (map trim pieces)

unfoldable pub parse_cookies : Host → Text → Option Cookies
unfolding split
parse_cookies h header = cookies h (trimmed (split b';' header))

-- The last cookie of the name.
abbrev pub cookie_value : Text → Text → Cookies → Text
cookie_value name found [] = found
cookie_value name found ((k, v) ∷ cs) = cookie_value name (if k == name then v else found) cs

abbrev cookie_name : Text
cookie_name = codes "swiftlm_admin"

-- None where a cookie cannot be decoded, which the server answers with status 500.
abbrev pub admitted : Host → Text → ℕ → Option Cookies → Option Bool
admitted h secret now none = none
admitted h secret now (some cs) =
    some (verify_session_cookie h secret (cookie_value cookie_name [] cs) now)

unfoldable pub admin_session : Host → Text → Text → ℕ → Option Bool
unfolding parse_cookies verify_session_cookie
admin_session h secret header now = admitted h secret now (parse_cookies h header)

abbrev pub cookie_pair : Host → Text → Text
cookie_pair h value = codes "swiftlm_admin=" ++ h.encode_uri value

unfoldable pub secure_cookie : Host → Bool → Text → ℕ → Text
secure_cookie h secure value max_age =
    cookie_pair h value
    ++ (codes "; Path=/; HttpOnly; SameSite=Strict; Max-Age="
        ++ (h.decimal max_age ++ (if secure then codes "; Secure" else [])))

-- What `.` does not take: the line terminators.
abbrev is_line_end : ℕ → Bool
is_line_end c = eqb c 10 || eqb c 13 || eqb c 8232 || eqb c 8233

abbrev on_one_line : Text → Bool
on_one_line [] = true
on_one_line (c ∷ s) = not (is_line_end c) && on_one_line s

abbrev starts_blank : Text → Bool
starts_blank [] = false
starts_blank (c ∷ s) = is_space c

abbrev credential_of : Text → Text
credential_of t =
    let rest = trim_start (drop 6 t) in
    if (to_lower (take 6 t) == codes "bearer") && starts_blank (drop 6 t) && on_one_line rest
    then trim rest
    else []

-- `/^Bearer\s+(.+)$/i` of the trimmed header, and its value; the empty text where it does not match.
unfoldable pub bearer_token : Text → Text
unfolding trim trim_start is_space
bearer_token header = credential_of (trim header)

pub record IssuedKey : Type 0 where
  pub id : Text
  pub value : Text
  pub prefix : Text

-- `random` is 32 random bytes in base64url.
unfoldable pub issue_api_key : Text → Text → IssuedKey
issue_api_key id random =
    let value = codes "sk-mlx-" ++ random in
    record { id = id; value = value; prefix = slice_to 15 value ++ (8230 ∷ []) }
