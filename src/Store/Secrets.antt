-- ===== src/Store/Secrets.antt =====
-- dashboard/src/db.js: how upstream credentials and node secrets are kept at rest. AES-256-GCM and
-- SHA-256 are those of node:crypto; the initial vector is drawn at random and is an argument.
use swiftlm_platform.Base.{
  ℕ, ◌≡◌, ◌≢◌, refl, Bool, true, not, ◌&&◌, Option, none, some, [], ◌∷◌, ◌++◌, Text, All, eqb,
  if◌then◌else◌, arith,
}
use swiftlm_platform.Store.{Result, ok, err, no_secret_key}

-- `seal` gives the tag and the cipher text, all in base64url; `unseal` is none where `final` throws.
pub record Cipher : Type 0 where
  pub key_of : Text → Text
  pub seal : Text → Text → Text → Text × Text
  pub unseal : Text → Text → Text → Text → Option Text

abbrev pub colon : ℕ
colon = b':'

unfoldable pub encryption_key : Cipher → Text → Option Text
encryption_key c [] = none
encryption_key c (s ∷ ss) = some (c.key_of (s ∷ ss))

abbrev v1 : Text
v1 = b'v' ∷ b'1' ∷ []

abbrev packed : Text → Text × Text → Text
packed iv (tag, sealed) = v1 ++ (colon ∷ iv ++ (colon ∷ tag ++ (colon ∷ sealed)))

unfoldable pub encrypt_node_key : Cipher → Text → Option Text → Option Text → Result (Option Text)
encrypt_node_key c iv none key = ok none
encrypt_node_key c iv (some []) key = ok none
encrypt_node_key c iv (some (v ∷ vs)) none = err no_secret_key
encrypt_node_key c iv (some (v ∷ vs)) (some key) = ok (some (packed iv (c.seal key iv (v ∷ vs))))

-- `([^:]+):rest`, and `([^:]+)$`
abbrev cut : Text → Option (Text × Text)
cut [] = none
cut (x ∷ xs) =
    let rest = cut xs in
    if eqb x colon then some ([], xs) else elim rest [ none ↦ none | some (a, b) ↦ some (x ∷ a, b) ]

abbrev no_colon : Text → Bool
no_colon [] = true
no_colon (x ∷ xs) = not (eqb x colon) && no_colon xs

abbrev field : Text → Option (Text × Text)
field s = elim (cut s) [
  | none ↦ none
  | some (a, b) ↦ elim a [ [] ↦ none | x ∷ xs ↦ some (x ∷ xs, b) ]
]

abbrev last_field : Text → Option Text
last_field [] = none
last_field (x ∷ xs) = if no_colon (x ∷ xs) then some (x ∷ xs) else none

-- The three groups of `^(v1):([^:]+):([^:]+):([^:]+)$` behind the version.
unpack : Text → Option (Text × Text × Text)
unpack s = elim (field s) [
  | none ↦ none
  | some (iv, r) ↦ elim (field r) [
    | none ↦ none
    | some (tag, sealed) ↦ elim (last_field sealed) [ none ↦ none | some e ↦ some (iv, tag, e) ]
  ]
]

abbrev opened : Cipher → Text → Option (Text × Text × Text) → Option Text
opened c key none = none
opened c key (some (iv, tag, sealed)) = c.unseal key iv tag sealed

abbrev decrypt_v1 : Cipher → Text → Option Text → Option Text
decrypt_v1 c s none = none
decrypt_v1 c s (some key) = opened c key (unpack s)

-- A value of another form is returned as it stands; the empty text is falsy.
abbrev strip_v1 : Text → Option Text
strip_v1 (a ∷ b ∷ d ∷ s) = if eqb a b'v' && eqb b b'1' && eqb d colon then some s else none
strip_v1 _ = none

abbrev decrypt_text : Cipher → Text → Option Text → Option Text
decrypt_text c [] key = none
decrypt_text c (x ∷ xs) key = elim (strip_v1 (x ∷ xs)) [
  | none ↦ some (x ∷ xs)
  | some s ↦ decrypt_v1 c s key
]

unfoldable pub decrypt_node_key : Cipher → Option Text → Option Text → Option Text
unfolding unpack
decrypt_node_key c none key = none
decrypt_node_key c (some s) key = decrypt_text c s key

-- Text in base64url of at least one byte.
abbrev pub IsToken : Text → Type 0
IsToken s = (s ≢ []) × All (λ x. x ≢ colon) s

cut_token : (s r : Text) → All (λ x. x ≢ colon) s → cut (s ++ (colon ∷ r)) ≡ some (s, r)
cut_token [] r h = refl
cut_token (x ∷ xs) r h = ground (arith, cut_token xs r h.1)

field_token : (s r : Text) → IsToken s → field (s ++ (colon ∷ r)) ≡ some (s, r)
field_token [] r h = absurd (h.0 refl)
field_token (x ∷ xs) r h = ground (arith, cut_token (x ∷ xs) r h.1)

no_colon_token : (s : Text) → All (λ x. x ≢ colon) s → no_colon s ≡ true
no_colon_token [] h = refl
no_colon_token (x ∷ xs) h = ground (arith, no_colon_token xs h.1)

last_field_token : (s : Text) → IsToken s → last_field s ≡ some s
last_field_token [] h = absurd (h.0 refl)
last_field_token (x ∷ xs) h = rw (no_colon_token (x ∷ xs) h.1)

unpack_packed :
    (iv tag sealed : Text)
    → IsToken iv
    → IsToken tag
    → IsToken sealed
    → unpack (iv ++ (colon ∷ tag ++ (colon ∷ sealed))) ≡ some (iv, tag, sealed)
unfolding unpack
unpack_packed iv tag sealed i t e = ground (
  arith,
  field_token iv (tag ++ (colon ∷ sealed)) i,
  field_token tag sealed t,
  last_field_token sealed e,
)

-- What is encrypted under a key is decrypted under it, where the cipher opens what it sealed and
-- its texts are base64url.
pub decrypt-encrypt :
    (c : Cipher) (iv key value : Text)
    → value ≢ []
    → IsToken iv
    → IsToken (c.seal key iv value).0
    → IsToken (c.seal key iv value).1
    → c.unseal key iv (c.seal key iv value).0 (c.seal key iv value).1 ≡ some value
    → (s : Text) × (encrypt_node_key c iv (some value) (some key) ≡ ok (some s))
      × (decrypt_node_key c (some s) (some key) ≡ some value)
unfolding encrypt_node_key decrypt_node_key
decrypt-encrypt c iv key [] h i t e o = absurd (h refl)
decrypt-encrypt c iv key (v ∷ vs) h i t e o = (
  _,
  refl,
  ground (arith, unpack_packed iv (c.seal key iv (v ∷ vs)).0 (c.seal key iv (v ∷ vs)).1 i t e),
)
