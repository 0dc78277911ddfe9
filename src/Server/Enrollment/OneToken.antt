-- ===== src/Server/Enrollment/OneToken.antt =====
-- One enrollment token of dashboard/src/server.js enrolls one node.
use swiftlm_platform.Base.{
  ℕ, ◌≡◌, refl, sym, ap, ◌∙◌, inl, inr, Bool, true, false, Option, none, some, List, [], ◌∷◌, Text,
  ◌==◌, find, filter, arith, trim, codes, Bool-cases, starts_with, any-filter-false,
}
use swiftlm_platform.Store.{Store, Node, EnrollmentToken, ok, err, Outcome}
use swiftlm_platform.Store.Steps
use swiftlm_platform.Store.SingleUse.{DistinctDigests, Spent, consume-Spent, Spent-run, Spent-prune}
use swiftlm_platform.Store.Nodes.{
  create_node, insert_with_model, insert_node, insert_node_model, set_node_secret,
}
use swiftlm_platform.Store.Tokens.{
  prune_expired_enrollment_tokens, peek_enrollment_token, consume_enrollment_token, is_unused,
}
use swiftlm_platform.Store.Deletion.{delete_node}
use swiftlm_platform.Server.{Config}
use swiftlm_platform.Server.Input.{Url, NodeBody, NodeFields, read_node}
use swiftlm_platform.Server.NodeRoutes.{node_input}
use swiftlm_platform.Server.Enrollment.{
  Draws, Reply, enroll, enrolled, used_token, with_token, give_secret, claim_token, keep_or_undo,
  undo,
}

abbrev pub is_enrolled : Reply → Bool
is_enrolled (enrolled id secret) = true
is_enrolled _ = false

enrolled-undo : (id : Text) (o : Outcome Bool) → is_enrolled (undo id o).1 ≡ false
enrolled-undo id (s, ok deleted) = refl
enrolled-undo id (s, err e) = refl

Spent-keep_or_undo :
    (digest id secret : Text) (o : Outcome Bool)
    → (o.1 ≡ ok true → Spent digest o.0.enrollment_tokens)
    → is_enrolled (keep_or_undo id secret o).1 ≡ true
    → Spent digest (keep_or_undo id secret o).0.enrollment_tokens
Spent-keep_or_undo digest id secret (s, err e) k h = cc
Spent-keep_or_undo digest id secret (s, ok true) k h = k refl
Spent-keep_or_undo digest id secret (s, ok false) k h =
    ground (arith, enrolled-undo id (delete_node id true s))

Spent-claim_token :
    (digest : Text) (d : Draws) (o : Outcome Bool)
    → DistinctDigests o.0.enrollment_tokens
    → is_enrolled (claim_token digest d o).1 ≡ true
    → Spent digest (claim_token digest d o).0.enrollment_tokens
Spent-claim_token digest d (s, err e) u h = cc
Spent-claim_token digest d (s, ok changed) u h =
    Spent-keep_or_undo digest d.node_id d.secret
      (consume_enrollment_token digest d.node_id d.used_at d.consumed_at s)
      (consume-Spent digest d.node_id d.used_at d.consumed_at s u) h

tokens-set_node_secret :
    (cfg : Config) (iv id secret : Text) (now : ℕ) (s : Store)
    → (set_node_secret cfg.vault iv id secret now s).0.enrollment_tokens ≡ s.enrollment_tokens
unfolding set_node_secret
tokens-set_node_secret cfg iv id secret now s = ground arith

Spent-give_secret :
    (cfg : Config) (digest : Text) (d : Draws) (o : Outcome Node)
    → DistinctDigests o.0.enrollment_tokens
    → is_enrolled (give_secret cfg digest d o).1 ≡ true
    → Spent digest (give_secret cfg digest d o).0.enrollment_tokens
Spent-give_secret cfg digest d (s, err e) u h = cc
Spent-give_secret cfg digest d (s, ok n) u h =
    Spent-claim_token digest d
      (set_node_secret cfg.vault d.secret_iv d.node_id d.secret d.enrolled_at s)
      (rw (tokens-set_node_secret cfg d.secret_iv d.node_id d.secret d.enrolled_at s) u) h

tokens-create_node :
    (cfg : Config) (d : Draws) (f : NodeFields) (s : Store)
    → (create_node cfg.vault d.key_iv d.row_id
        (node_input d.node_id f)
        d.created_at
        s).0.enrollment_tokens
      ≡ s.enrollment_tokens
unfolding create_node insert_with_model insert_node insert_node_model
tokens-create_node cfg d f s = ground arith

Spent-with_token :
    (cfg : Config) (digest : Text) (d : Draws) (f : Option NodeFields) (s : Store)
    (t : Option EnrollmentToken)
    → DistinctDigests s.enrollment_tokens
    → is_enrolled (with_token cfg digest d f s t).1 ≡ true
    → Spent digest (with_token cfg digest d f s t).0.enrollment_tokens
Spent-with_token cfg digest d f s none u h = cc
Spent-with_token cfg digest d none s (some t) u h = ground arith
Spent-with_token cfg digest d (some f) s (some t) u h = ground (
  arith,
  Spent-give_secret cfg digest d
      (create_node cfg.vault d.key_iv d.row_id (node_input d.node_id f) d.created_at s)
      (rw (tokens-create_node cfg d f s) u),
)

distinct-filter :
    (p : EnrollmentToken → Bool) (ts : List EnrollmentToken)
    → DistinctDigests ts
    → DistinctDigests (filter p ts)
distinct-filter p [] u = u
distinct-filter p (t ∷ ts) u = ground (
  arith,
  distinct-filter p ts u.1,
  any-filter-false (λ (x : EnrollmentToken). x.token_digest == t.token_digest) p ts u.0,
)

distinct-prune :
    (now : ℕ) (s : Store)
    → DistinctDigests s.enrollment_tokens
    → DistinctDigests (prune_expired_enrollment_tokens now s).enrollment_tokens
unfolding prune_expired_enrollment_tokens
distinct-prune now s u = distinct-filter _ s.enrollment_tokens u

-- A spent token is looked up as used.
used_lookup :
    (digest : Text) (ts : List EnrollmentToken)
    → Spent digest ts
    → (t : EnrollmentToken) × (find (λ x. x.token_digest == digest) ts ≡ some t)
      × (is_unused t ≡ false)
used_lookup digest [] h = cc
used_lookup digest (t ∷ ts) h = elim (Bool-cases (t.token_digest == digest)) [
  | inl e ↦ (t, ground arith, ground arith)
  | inr e ↦
      let (u, f, g) = used_lookup digest ts (ground arith, ground arith) in (u, ground arith, g)
]

refused_again :
    (cfg : Config) (digest_of : Text → Text) (parse : Text → Option Url) (token : Text)
    (body : NodeBody) (d : Draws) (s : Store)
    → Spent (digest_of (trim token)) s.enrollment_tokens
    → starts_with (codes "enroll_") (trim token) ≡ true
    → (enroll cfg digest_of parse token body d s).1 ≡ used_token
unfolding enroll peek_enrollment_token
refused_again cfg digest_of parse token body d s h p =
    let s₁ = prune_expired_enrollment_tokens d.pruned_at s in
    let (t, e, used) =
      used_lookup (digest_of (trim token)) s₁.enrollment_tokens
        (Spent-prune cfg.vault (digest_of (trim token)) d.pruned_at s h) in
    ground arith

pub enroll-prefixed :
    (cfg : Config) (digest_of : Text → Text) (parse : Text → Option Url) (token : Text)
    (body : NodeBody) (d : Draws) (s : Store)
    → starts_with (codes "enroll_") (trim token) ≡ true
    → enroll cfg digest_of parse token body d s
      ≡ with_token cfg
          (digest_of (trim token))
          d
          (read_node parse (codes "none") body)
          (prune_expired_enrollment_tokens d.pruned_at s)
          (peek_enrollment_token
            (digest_of (trim token))
            (prune_expired_enrollment_tokens d.pruned_at s))
unfolding enroll
enroll-prefixed cfg digest_of parse token body d s p = ground arith

Spent-enroll :
    (cfg : Config) (digest_of : Text → Text) (parse : Text → Option Url) (token : Text)
    (body : NodeBody) (d : Draws) (s : Store)
    → DistinctDigests s.enrollment_tokens
    → is_enrolled (enroll cfg digest_of parse token body d s).1 ≡ true
    → (Spent
        (digest_of (trim token))
        (enroll cfg digest_of parse token body d s).0.enrollment_tokens)
      × (starts_with (codes "enroll_") (trim token) ≡ true)
unfolding enroll
Spent-enroll cfg digest_of parse token body d s u h =
    let digest = digest_of (trim token) in
    let s₁ = prune_expired_enrollment_tokens d.pruned_at s in
    let f = read_node parse (codes "none") body in
    let t = peek_enrollment_token digest s₁ in
    elim (Bool-cases (starts_with (codes "enroll_") (trim token))) [
      | inl e ↦
          let q = enroll-prefixed cfg digest_of parse token body d s e in
          (
            rw q (
                Spent-with_token cfg digest d f s₁ t (distinct-prune d.pruned_at s u)
                  (ap (λ (r : Store × Reply). is_enrolled r.1) (sym q) ∙ h)),
            e,
          )
      | inr e ↦ ground arith
    ]

-- The digests of the tokens are distinct, as the column is UNIQUE. After an enrollment that
-- succeeded, every enrollment with the same token is told that the token is
-- used, whatever the database goes through in between.
pub enrolls_once :
    (cfg : Config) (digest_of : Text → Text) (parse : Text → Option Url) (token : Text)
    (body again : NodeBody) (d e : Draws) (between : List Steps.Op) (s : Store)
    → DistinctDigests s.enrollment_tokens
    → is_enrolled (enroll cfg digest_of parse token body d s).1 ≡ true
    → (enroll cfg digest_of parse token again e
        (Steps.run cfg.vault between (enroll cfg digest_of parse token body d s).0)).1
      ≡ used_token
enrolls_once cfg digest_of parse token body again d e between s u h =
    let (spent, p) = Spent-enroll cfg digest_of parse token body d s u h in
    refused_again cfg digest_of parse token again e _
      (Spent-run cfg.vault (digest_of (trim token)) between _ spent) p
