-- ===== src/Server/Login/Lockout.antt =====
-- The limit on login attempts of dashboard/src/server.js.
use swiftlm_platform.Base.{
  ℕ, ◌+◌, ◌≤◌, ◌<◌, ◌≡◌, ◌≢◌, refl, Bool, false, List, [], ◌∷◌, Text, ◌==◌, ltb, if◌then◌else◌,
  arith, All, ◌∙◌, Bool-cases, inl, inr,
}
use swiftlm_platform.Server.Login.{
  Attempt, Attempts, attempt_of, set_attempt, delete_attempt, fresh, login, Reply,
  too_many_attempts, block_ms, failed,
}

attempt_of-set :
    (ip j : Text) (a : Attempt) (m : Attempts)
    → attempt_of j (set_attempt ip a m) ≡ (if ip == j then a else attempt_of j m)
unfolding attempt_of set_attempt
attempt_of-set ip j a [] = refl
attempt_of-set ip j a ((i, b) ∷ m) = ground (arith, attempt_of-set ip j a m)

attempt_of-delete :
    (ip j : Text) (m : Attempts)
    → attempt_of j (delete_attempt ip m) ≡ (if ip == j then fresh else attempt_of j m)
unfolding attempt_of delete_attempt
attempt_of-delete ip j [] = ground arith
attempt_of-delete ip j ((i, b) ∷ m) = ground (arith, attempt_of-delete ip j m)

pub record Try : Type 0 where
  pub ip : Text
  pub password_ok : Bool
  pub now : ℕ

abbrev pub try_login : Try → Attempts → Attempts × Reply
try_login t m = login t.ip t.password_ok t.now m

abbrev pub after : List Try → Attempts → Attempts
after [] m = m
after (t ∷ ts) m = after ts (try_login t m).0

-- What one attempt does to the entry of any address.
attempt_of-login :
    (t : Try) (j : Text) (m : Attempts)
    → attempt_of j (try_login t m).0 ≡ (
        if t.ip == j
        then if ltb t.now (attempt_of j m).blocked_until
          then attempt_of j m
          else if t.password_ok
          then fresh
          else failed t.now (attempt_of j m)
        else attempt_of j m)
unfolding login
attempt_of-login t j m =
    ground (
      arith,
      attempt_of-set t.ip j (failed t.now (attempt_of t.ip m)) m,
      attempt_of-delete t.ip j m,
    )

-- An entry that is blocked stays as it is until its time is up, whatever anybody tries.
stays_blocked :
    (ip : Text) (until : ℕ) (ts : List Try) (m : Attempts)
    → All (λ t. t.now < until) ts
    → (attempt_of ip m).blocked_until ≡ until
    → (attempt_of ip (after ts m)).blocked_until ≡ until
stays_blocked ip until [] m h e = e
stays_blocked ip until (t ∷ ts) m h e =
    stays_blocked ip until ts (try_login t m).0 h.1 (ground (arith, attempt_of-login t ip m))

login-blocked :
    (ip : Text) (password_ok : Bool) (now : ℕ) (m : Attempts)
    → now < (attempt_of ip m).blocked_until
    → (login ip password_ok now m).1 ≡ too_many_attempts
unfolding login
login-blocked ip password_ok now m l = ground arith

-- How often an address is among the tries.
abbrev pub tries_of : Text → List Try → ℕ
tries_of ip [] = 0
tries_of ip (t ∷ ts) = if t.ip == ip then 1 + tries_of ip ts else tries_of ip ts

-- Up to seven wrong passwords of an address are counted, between the tries of any other addresses.
failures_counted :
    (ip : Text) (ts : List Try) (m : Attempts)
    → All (λ t. t.ip ≡ ip → t.password_ok ≡ false) ts
    → (attempt_of ip m).blocked_until ≡ 0
    → (attempt_of ip m).count + tries_of ip ts ≤ 7
    → (attempt_of ip (after ts m)).count ≡ (attempt_of ip m).count + tries_of ip ts
      × (attempt_of ip (after ts m)).blocked_until ≡ 0
failures_counted ip [] m h b l = (omega arith, b)
failures_counted ip (t ∷ ts) m h b l =
    let m₁ = (try_login t m).0 in
    let entry = attempt_of-login t ip m in
    elim (Bool-cases (t.ip == ip)) [
      | inl b' ↦
          let e : t.ip ≡ ip = ground arith in
          let wrong = h.0 e in
          let more : attempt_of ip m₁
              ≡ record (attempt_of ip m) { count = (attempt_of ip m).count + 1 } =
            ground (arith, entry, e, wrong) in
          let rest =
            failures_counted ip ts m₁ h.1 (ground (arith, more)) (ground (arith, more, e)) in
          (ground (arith, rest, more, e), rest.1)
      | inr ne ↦
          let same : attempt_of ip m₁ ≡ attempt_of ip m = ground (arith, entry, ne) in
          let rest =
            failures_counted ip ts m₁ h.1 (ground (arith, same)) (ground (arith, same, ne)) in
          (ground (arith, rest, same, ne), rest.1)
    ]

blocked_until-eighth :
    (ip : Text) (failed_at : ℕ) (m : Attempts)
    → (attempt_of ip m).count ≡ 7
    → (attempt_of ip m).blocked_until ≡ 0
    → (attempt_of ip (login ip false failed_at m).0).blocked_until ≡ failed_at + block_ms
unfolding login
blocked_until-eighth ip failed_at m c b =
    ground (arith, attempt_of-set ip ip (failed failed_at (attempt_of ip m)) m)

-- An address that was not heard of before, or not since its last login, and then brings eight wrong
-- passwords and no right one, is refused, whatever password it brings, at every moment less than five
-- minutes after the eighth; what other addresses try before, and what anybody tries behind it within
-- that time, does not matter.
pub eighth_failure_blocks :
    (ip : Text) (failed_at : ℕ) (password_ok : Bool) (now : ℕ) (before behind : List Try)
    (m : Attempts)
    → attempt_of ip m ≡ fresh
    → All (λ t. t.ip ≡ ip → t.password_ok ≡ false) before
    → tries_of ip before ≡ 7
    → All (λ t. t.now < failed_at + block_ms) behind
    → now < failed_at + block_ms
    → (login ip password_ok now (after behind (login ip false failed_at (after before m)).0)).1
      ≡ too_many_attempts
eighth_failure_blocks ip failed_at password_ok now before behind m new wrong seven h l =
    let m₀ = after before m in
    let m₁ = (login ip false failed_at m₀).0 in
    let (count, free) =
      failures_counted ip before m wrong (ground (arith, new)) (ground (arith, new, seven)) in
    let c : (attempt_of ip m₀).count ≡ 7 = ground (arith, new) in
    let e =
      stays_blocked ip (failed_at + block_ms) behind m₁ h
        (blocked_until-eighth ip failed_at m₀ c free) in
    login-blocked ip password_ok now (after behind m₁) (ground (arith, e))

-- The tries of other addresses leave the entry of an address as it is.
pub others_do_not_count :
    (ip : Text) (ts : List Try) (m : Attempts)
    → All (λ t. t.ip ≢ ip) ts
    → attempt_of ip (after ts m) ≡ attempt_of ip m
others_do_not_count ip [] m h = refl
others_do_not_count ip (t ∷ ts) m h =
    others_do_not_count ip ts (try_login t m).0 h.1 ∙ ground (arith, attempt_of-login t ip m)
