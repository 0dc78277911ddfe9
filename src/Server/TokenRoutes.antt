-- ===== src/Server/TokenRoutes.antt =====
-- dashboard/src/server.js: the administrator's handlers of enrollment tokens.
pub mod Lifetime
use swiftlm_platform.Base.{
  ℕ, ◌+◌, ◌*◌, Bool, true, false, not, Option, none, some, List, [], ◌∷◌, Text, codes, ◌==◌,
  is_empty, leb, map, slice_to, take, reverse, order_by, trim, if◌then◌else◌,
}
use swiftlm_platform.Store.{Store, EnrollmentToken, ok, err, Outcome}
use swiftlm_platform.Store.Tokens.{
  create_enrollment_token, delete_enrollment_token, prune_expired_enrollment_tokens, is_unused,
}

pub data TokenState : Type 0 where
  used expired pending : TokenState

unfoldable pub enrollment_token_state : ℕ → EnrollmentToken → TokenState
enrollment_token_state now t =
    if not (is_unused t) then used else if leb t.expires_at now then expired else pending

-- What `Number` makes of the time to live in a request: none, 0 or not a number; a negative one; or so
-- many minutes, counted in milliseconds.
pub data Minutes : Type 0 where
  missing below_zero : Minutes
  milliseconds : ℕ → Minutes

abbrev minute : ℕ
minute = 60 * 1000

abbrev clamp : ℕ → ℕ
clamp ms = if leb ms minute then minute else if leb (60 * minute) ms then 60 * minute else ms

abbrev pub ttl_ms : Minutes → ℕ
ttl_ms missing = 10 * minute
ttl_ms below_zero = minute
ttl_ms (milliseconds ms) = clamp ms

abbrev pub label_of : Text → Option Text
label_of label =
    if is_empty (slice_to 80 (trim label)) then none else some (slice_to 80 (trim label))

-- 201 with the raw token, which is not stored, or 500 where the database throws.
pub data Reply : Type 0 where
  issued : EnrollmentToken → Text → Reply
  failed : Reply

abbrev issue : Text → Outcome EnrollmentToken → Store × Reply
issue raw (s, ok t) = (s, issued t raw)
issue raw (s, err e) = (s, failed)

unfoldable pub create_token :
    (Text → Text) → Text → Text → Text → Minutes → ℕ → ℕ → Store → Store × Reply
unfolding prune_expired_enrollment_tokens create_enrollment_token trim
create_token digest_of id raw label ttl pruned_at now s = issue raw (
    create_enrollment_token id (digest_of raw) (label_of label) (ttl_ms ttl) now
      (prune_expired_enrollment_tokens pruned_at s))

-- 200, or 404 for a token that is not there or has been used.
unfoldable pub delete_token : Text → Store → Store × ℕ
unfolding delete_enrollment_token
delete_token id s =
    let (s', deleted) = delete_enrollment_token id s in (s', if deleted then 200 else 404)

-- The latest 100, each with its state.
unfoldable pub list_tokens : ℕ → ℕ → Store → Store × List (EnrollmentToken × TokenState)
unfolding prune_expired_enrollment_tokens enrollment_token_state
list_tokens pruned_at now s =
    let s' = prune_expired_enrollment_tokens pruned_at s in
    (
      s',
      map (λ t. (t, enrollment_token_state now t))
          (take 100 (reverse (order_by (λ t. t.created_at) s'.enrollment_tokens))),
    )
