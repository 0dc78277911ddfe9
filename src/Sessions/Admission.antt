-- ===== src/Sessions/Admission.antt =====
-- dashboard/src/auth.js: whom a session cookie lets in, and for how long.
use swiftlm_platform.Base.{
  split, ℕ, ◌≡◌, ◌≢◌, ◌+◌, ◌*◌, refl, ap, false, some, List, [], ◌∷◌, ◌++◌, Text, codes, All,
  All-append, arith, trim-plain, trim-blank, is_space, ltb, text_discrete,
}
use swiftlm_platform.Sessions.{
  Host, Cookies, session_of, create_session_cookie, verify_session_cookie, parse_cookies, trimmed,
  cookie_pair, admin_session,
}
use swiftlm_platform.Sessions.Splitting.{
  cut_at-append, cut_at-free, split-append, split-free, cookies-append, cookie_value-append,
}

-- A text without this unit.
abbrev pub Without : ℕ → Text → Type 0
Without c s = All (λ x. x ≢ c) s

verify_session_cookie-create :
    (h : Host) (secret : Text) (hours : ℕ) (nonce : Text) (issued now : ℕ)
    → h.decode (h.encode (session_of hours nonce issued)) ≡ some (session_of hours nonce issued)
    → Without b'.' (h.encode (session_of hours nonce issued))
    → Without b'.' (h.hmac_hex secret (h.encode (session_of hours nonce issued)))
    → verify_session_cookie h secret (create_session_cookie h secret hours nonce issued) now
      ≡ ltb now (session_of hours nonce issued).exp
unfolding verify_session_cookie create_session_cookie text_discrete
verify_session_cookie-create h secret hours nonce issued now reads free free' =
    let p = h.encode (session_of hours nonce issued) in
    let cut = cut_at-append b'.' p (h.hmac_hex secret p) free in
    let whole = cut_at-free b'.' (h.hmac_hex secret p) free' in ground (arith, cut, whole, reads)

-- A piece of a cookie header that neither semicolon nor white space cuts.
abbrev pub Unbroken : Text → Type 0
Unbroken s = Without b';' s × All (λ c. is_space c ≡ false) s

trimmed-append : (xs ys : List Text) → trimmed (xs ++ ys) ≡ trimmed xs ++ trimmed ys
trimmed-append [] ys = refl
trimmed-append (x ∷ xs) ys = ground (arith, trimmed-append xs ys)

parse_cookies-append :
    (h : Host) (a b : Text) (cs ds : Cookies)
    → parse_cookies h a ≡ some cs
    → parse_cookies h b ≡ some ds
    → parse_cookies h (a ++ (b';' ∷ b)) ≡ some (cs ++ ds)
unfolding parse_cookies
parse_cookies-append h a b cs ds e f = rw (split-append b';' a b) (
    rw (trimmed-append (split b';' a) (split b';' b))
      (cookies-append h (trimmed (split b';' a)) (trimmed (split b';' b)) cs ds e f))

name-Unbroken : Unbroken (codes "swiftlm_admin=")
unfolding is_space
name-Unbroken = (omega arith, ground arith)

parse_cookies-pair :
    (h : Host) (value : Text)
    → Unbroken (h.encode_uri value)
    → h.decode_uri (h.encode_uri value) ≡ some value
    → parse_cookies h (32 ∷ cookie_pair h value) ≡ some ((codes "swiftlm_admin", value) ∷ [])
unfolding parse_cookies
parse_cookies-pair h value (whole, plain) reads =
    let name = codes "swiftlm_admin=" in
    let w = All-append (λ x. x ≢ b';') name (h.encode_uri value) name-Unbroken.0 whole in
    let p = All-append (λ c. is_space c ≡ false) name (h.encode_uri value) name-Unbroken.1 plain in
    rw (split-free b';' (32 ∷ cookie_pair h value) (omega arith, w)) (
      rw (trim-blank (cookie_pair h value))
        (rw (trim-plain (cookie_pair h value) p) (rw reads refl)))

-- A session that the server has signed lets its holder in until it expires, and from then on no more:
-- behind any other cookies that can be decoded, the request is admitted exactly while the clock is
-- before the moment of the session's end. (A percent escape of another cookie that cannot be decoded
-- throws, and the request fails.) The encodings are undone by their decodings, the signature and the encoded session hold
-- no dot, and the encoded value no semicolon and no white space.
pub admin_session-create :
    (h : Host) (secret : Text) (hours : ℕ) (nonce others : Text) (cs : Cookies) (issued now : ℕ)
    → h.decode (h.encode (session_of hours nonce issued)) ≡ some (session_of hours nonce issued)
    → Without b'.' (h.encode (session_of hours nonce issued))
    → Without b'.' (h.hmac_hex secret (h.encode (session_of hours nonce issued)))
    → h.decode_uri (h.encode_uri (create_session_cookie h secret hours nonce issued))
      ≡ some (create_session_cookie h secret hours nonce issued)
    → Unbroken (h.encode_uri (create_session_cookie h secret hours nonce issued))
    → parse_cookies h others ≡ some cs
    → admin_session h secret
        (others ++ (b';' ∷ 32 ∷ cookie_pair h (create_session_cookie h secret hours nonce issued)))
        now
      ≡ some (ltb now (issued + hours * 60 * 60 * 1000))
unfolding admin_session
admin_session-create h secret hours nonce others cs issued now reads free free' reads_uri whole
      rest =
    let token = create_session_cookie h secret hours nonce issued in
    let pair = parse_cookies-pair h token whole reads_uri in
    rw
      (parse_cookies-append h others (32 ∷ cookie_pair h token) cs
        ((codes "swiftlm_admin", token) ∷ []) rest pair)
      (rw (cookie_value-append (codes "swiftlm_admin") [] token cs)
        (ap some (verify_session_cookie-create h secret hours nonce issued now reads free free')))
