-- ===== src/Sessions/Keys.antt =====
-- dashboard/src/auth.js: an API key in a request's header.
use swiftlm_platform.Base.{
  ◌≡◌, refl, ap, ◌∙◌, true, false, [], ◌∷◌, ◌++◌, Text, codes, All, All-append, arith, trim,
  trim-plain, trim-append, is_space, trim_start, text_discrete,
}
use swiftlm_platform.Sessions.{on_one_line, credential_of, bearer_token, issue_api_key}

visible_line : (s : Text) → All (λ c. is_space c ≡ false) s → on_one_line s ≡ true
unfolding is_space
visible_line [] plain = refl
visible_line (c ∷ s) plain = ground (arith, visible_line s plain.1, plain.0)

key_plain :
    (random : Text)
    → All (λ c. is_space c ≡ false) random
    → All (λ c. is_space c ≡ false) (codes "sk-mlx-" ++ random)
unfolding is_space
key_plain random plain =
    All-append (λ c. is_space c ≡ false) (codes "sk-mlx-") random (ground arith) plain

read_key :
    (random : Text)
    → All (λ c. is_space c ≡ false) random
    → All (λ c. is_space c ≡ false) (codes "sk-mlx-" ++ random)
    → credential_of (codes "Bearer " ++ (codes "sk-mlx-" ++ random)) ≡ codes "sk-mlx-" ++ random
unfolding trim_start is_space text_discrete
read_key random plain p = rw (visible_line random plain) (trim-plain (codes "sk-mlx-" ++ random) p)

-- A key that was issued comes back from the header in which a client sends it. Base64url has no white
-- space and no line terminator.
pub bearer_token-issue_api_key :
    (id random : Text)
    → All (λ c. is_space c ≡ false) random
    → bearer_token (codes "Bearer " ++ (issue_api_key id random).value)
      ≡ (issue_api_key id random).value
unfolding bearer_token issue_api_key
bearer_token-issue_api_key id random plain =
    let key = codes "sk-mlx-" ++ random in
    let p = key_plain random plain in
    let bare : trim (codes "Bearer " ++ key) ≡ codes "Bearer " ++ key =
      trim-append b'B' (codes "earer ") b's' (codes "k-mlx-" ++ random) p.0 p in
    ap credential_of bare ∙ read_key random plain p
