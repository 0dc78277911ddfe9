-- ===== src/Server/Input/Ids.antt =====
-- The ids of nodes that dashboard/src/server.js allows.
use swiftlm_platform.Base.{
  ◌≡◌, ◌≢◌, ap, sym, ◌∙◌, true, [], ◌∷◌, Text, All, arith, Bool-cases, inl, inr, trim,
}
use swiftlm_platform.Server.Input.{is_node_id, is_id_unit, all, safe_node_id}

all-Whole : (s : Text) → all is_id_unit s ≡ true → All (λ x. x ≢ b'/') s
all-Whole [] e = tt
all-Whole (c ∷ s) e = (ground arith, all-Whole s (ground arith))

is_node_id-whole : (s : Text) → is_node_id s ≡ true → All (λ x. x ≢ b'/') s
is_node_id-whole [] e = tt
is_node_id-whole (c ∷ s) e = (ground arith, all-Whole s (ground arith))

-- An id that is allowed is one segment of a path.
pub safe_node_id-whole : (id : Text) → safe_node_id id ≡ id → All (λ x. x ≢ b'/') id
unfolding safe_node_id
safe_node_id-whole id safe = elim (Bool-cases (is_node_id (trim id))) [
  | inl e ↦
      let same : trim id ≡ id = ground (arith, safe) in
      is_node_id-whole id (ap is_node_id (sym same) ∙ e)
  | inr e ↦ let empty : [] ≡ id = ground (arith, safe) in rw (← empty) tt
]
