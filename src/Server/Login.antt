-- ===== src/Server/Login.antt =====
-- dashboard/src/server.js: the login of the administrator, with the limit on attempts by address.
-- `password_ok` stands for `verifyAdminPassword`, which compares SHA-256 digests.
pub mod Lockout
use swiftlm_platform.Base.{
  ℕ, ◌+◌, ◌*◌, Bool, true, false, not, ◌&&◌, ◌||◌, Option, none, some, List, [], ◌∷◌, Text, codes,
  ◌==◌, leb, ltb, if◌then◌else◌, or_else,
}

pub record Attempt : Type 0 where
  pub count : ℕ
  pub blocked_until : ℕ

-- `loginAttempts`: an address that has no entry reads as no attempt.
abbrev pub Attempts : Type 0
Attempts = List (Text × Attempt)

abbrev pub fresh : Attempt
fresh = record { count = 0; blocked_until = 0 }

unfoldable pub attempt_of : Text → Attempts → Attempt
attempt_of ip [] = fresh
attempt_of ip ((j, a) ∷ m) = if j == ip then a else attempt_of ip m

pub set_attempt : Text → Attempt → Attempts → Attempts
set_attempt ip a [] = (ip, a) ∷ []
set_attempt ip a ((j, b) ∷ m) = if j == ip then (ip, a) ∷ m else (j, b) ∷ set_attempt ip a m

pub delete_attempt : Text → Attempts → Attempts
delete_attempt ip [] = []
delete_attempt ip ((j, b) ∷ m) =
    let rest = delete_attempt ip m in if j == ip then rest else (j, b) ∷ rest

abbrev pub block_ms : ℕ
block_ms = 5 * 60 * 1000

abbrev pub failed : ℕ → Attempt → Attempt
failed now a =
    if leb 8 (a.count + 1)
    then record { count = 0; blocked_until = now + block_ms }
    else record a { count = a.count + 1 }

-- 200 with a session cookie, 401, or 429.
pub data Reply : Type 0 where
  logged_in invalid_password too_many_attempts : Reply

unfoldable pub login : Text → Bool → ℕ → Attempts → Attempts × Reply
login ip password_ok now m =
    if ltb now (attempt_of ip m).blocked_until
    then (m, too_many_attempts)
    else if not password_ok
    then (set_attempt ip (failed now (attempt_of ip m)) m, invalid_password)
    else (delete_attempt ip m, logged_in)
