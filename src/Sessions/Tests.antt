-- ===== src/Sessions/Tests.antt =====
-- Runs and instances of the theorems on the administrator's session.
use swiftlm_platform.Base.{
  split, ◌≡◌, refl, true, false, some, [], ◌∷◌, ◌++◌, Text, codes, text_discrete, ℕ_discrete, trim,
  arith,
}
use swiftlm_platform.Sessions.{
  Host, session_of, create_session_cookie, verify_session_cookie, cookie_pair, admin_session,
  parse_cookies,
}
use swiftlm_platform.Sessions.Admission.{admin_session-create}

-- One session, one encoding and one signature stand in for all.
abbrev host : Host
host = record {
  hmac_hex = λ s v. codes "ab";
  sha256 = λ t. t;
  encode = λ s. codes "p";
  decode = λ t. some (session_of 1 (codes "n") 5);
  encode_uri = λ t. t;
  decode_uri = λ t. some t;
  decimal = λ n. codes "1";
}

abbrev others : Text
others = codes "a=b; c"

running_sessions : Unit {0}
unfolding create_session_cookie verify_session_cookie parse_cookies split admin_session
    text_discrete ℕ_discrete trim
running_sessions = tt

signed_out : admin_session host (codes "k") (codes "swiftlm_admin=") 10 ≡ some false
unfolding running_sessions
signed_out = refl

admin_session-create_example :
    admin_session host
      (codes "k")
      (others
        ++ (b';' ∷ 32 ∷ cookie_pair host (create_session_cookie host (codes "k") 1 (codes "n") 5)))
      10
    ≡ some true
unfolding running_sessions
admin_session-create_example =
    admin_session-create host (codes "k") 1 (codes "n") others
      ((codes "a", codes "b") ∷ (codes "c", []) ∷ []) 5 10 refl (omega arith) (omega arith) refl
      (omega arith, ground arith) refl
