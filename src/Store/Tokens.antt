-- ===== src/Store/Tokens.antt =====
-- dashboard/src/db.js: the one-time enrollment tokens, kept by their digests.
use swiftlm_platform.Base.{
  ℕ, ◌+◌, Bool, true, false, not, ◌&&◌, ◌||◌, Option, none, some, [], ◌∷◌, ◌++◌, Text, ◌==◌, any,
  find, filter, leb, ltb, update_where, if◌then◌else◌,
}
use swiftlm_platform.Store.{Store, EnrollmentToken, ok, err, unique, foreign_key, Outcome, has_node}

abbrev pub token_row : Text → Text → Option Text → ℕ → ℕ → EnrollmentToken
token_row id digest label now ttl = record {
  id = id;
  token_digest = digest;
  label = label;
  created_at = now;
  expires_at = now + ttl;
  used_at = none;
  node_id = none;
}

unfoldable pub create_enrollment_token :
    Text → Text → Option Text → ℕ → ℕ → Store → Outcome EnrollmentToken
create_enrollment_token id digest label ttl now s =
    if any (λ t. (t.id == id) || (t.token_digest == digest)) s.enrollment_tokens
    then (s, err unique)
    else (
      record s {
        enrollment_tokens = s.enrollment_tokens ++ (token_row id digest label now ttl ∷ []);
      },
      ok (token_row id digest label now ttl),
    )

abbrev pub is_unused : EnrollmentToken → Bool
is_unused t = elim t.used_at [ none ↦ true | some u ↦ false ]

abbrev pub can_delete : Text → EnrollmentToken → Bool
can_delete id t = (t.id == id) && is_unused t

unfoldable pub delete_enrollment_token : Text → Store → Store × Bool
delete_enrollment_token id s = (
  record s { enrollment_tokens = filter (λ t. not (can_delete id t)) s.enrollment_tokens },
  any (can_delete id) s.enrollment_tokens,
)

unfoldable pub peek_enrollment_token : Text → Store → Option EnrollmentToken
peek_enrollment_token digest s = find (λ t. t.token_digest == digest) s.enrollment_tokens

abbrev pub can_consume : Text → ℕ → EnrollmentToken → Bool
can_consume digest now t = (t.token_digest == digest) && (is_unused t && ltb now t.expires_at)

-- One UPDATE that takes a token only if it is unused and has not expired. The clock is read twice.
unfoldable pub consume_enrollment_token : Text → Text → ℕ → ℕ → Store → Outcome Bool
consume_enrollment_token digest node_id used now s =
    if any (can_consume digest now) s.enrollment_tokens && not (has_node node_id s.nodes)
    then (s, err foreign_key)
    else (
      record s {
        enrollment_tokens =
            update_where (can_consume digest now)
              (λ t. record t { used_at = some used; node_id = some node_id }) s.enrollment_tokens;
      },
      ok (any (can_consume digest now) s.enrollment_tokens),
    )

abbrev is_stale : ℕ → EnrollmentToken → Bool
is_stale now t = is_unused t && leb t.expires_at now

unfoldable pub prune_expired_enrollment_tokens : ℕ → Store → Store
prune_expired_enrollment_tokens now s = record s {
  enrollment_tokens = filter (λ t. not (is_stale now t)) s.enrollment_tokens;
}
