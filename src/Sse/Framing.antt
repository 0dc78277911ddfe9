-- ===== src/Sse/Framing.antt =====
-- The loop over the buffer in dashboard/src/proxy.js: its fuel suffices, and it can be resumed.
use swiftlm_platform.Base.{
  take-append, ℕ, zero, suc, ◌+◌, ◌≤◌, ◌≡◌, refl, sym, ◌∙◌, none, some, [], ◌∷◌, ◌++◌, Text, length,
  take, drop, arith, Option-cases, inl, inr, length-append,
}
use swiftlm_platform.Sse.{index_of_break, drain}

pub index_bound : (b : Text) (i : ℕ) → index_of_break b ≡ some i → i + 2 ≤ length b
unfolding index_of_break
index_bound [] i e = absurd (ground arith)
index_bound (c ∷ []) i e = absurd (ground arith)
index_bound (c ∷ d ∷ s) zero e = omega arith
index_bound (c ∷ d ∷ s) (suc i) e = ground (arith, index_bound (d ∷ s) i)

index-append : (b c : Text) (i : ℕ) → index_of_break b ≡ some i → index_of_break (b ++ c) ≡ some i
unfolding index_of_break
index-append [] c i e = absurd (ground arith)
index-append (x ∷ []) c i e = absurd (ground arith)
index-append (x ∷ y ∷ s) c zero e = ground arith
index-append (x ∷ y ∷ s) c (suc i) e = ground (arith, index-append (y ∷ s) c i)

drop-append : (i : ℕ) (b c : Text) → i ≤ length b → drop i (b ++ c) ≡ drop i b ++ c
drop-append zero b c h = refl
drop-append (suc i) [] c h = absurd (omega arith)
drop-append (suc i) (x ∷ b) c h = drop-append i b c (omega arith)

pub length-drop : (i : ℕ) (b : Text) → i ≤ length b → length (drop i b) + i ≡ length b
length-drop zero b h = omega arith
length-drop (suc i) [] h = absurd (omega arith)
length-drop (suc i) (x ∷ b) h = omega (arith, length-drop i b (omega arith))

pub drain_rest_le : (f : ℕ) (b : Text) → length (drain f b).1 ≤ length b
unfolding drain
drain_rest_le zero b = omega arith
drain_rest_le (suc f) b = elim (Option-cases (index_of_break b)) [
  | inl e ↦ rw (e, drain) (omega arith)
  | inr (i, e) ↦
      rw (e, drain)
        (omega (arith, drain_rest_le f (drop (i + 2) b), length-drop (i + 2) b (index_bound b i e)))
]

pub drain-none : (f : ℕ) (b : Text) → index_of_break b ≡ none → drain f b ≡ ([], b)
unfolding drain
drain-none zero b e = refl
drain-none (suc f) b e = rw (e, drain) refl

pub drain-some :
    (f : ℕ) (b : Text) (i : ℕ)
    → index_of_break b ≡ some i
    → drain (suc f) b ≡ (take i b ∷ (drain f (drop (i + 2) b)).0, (drain f (drop (i + 2) b)).1)
unfolding drain
drain-some f b i e = rw (e, drain) refl

-- More fuel changes nothing once it covers the length.
pub drain_fuel : (f g : ℕ) (b : Text) → length b ≤ f → length b ≤ g → drain f b ≡ drain g b
drain_fuel zero g b h k = elim (Option-cases (index_of_break b)) [
  | inl e ↦ drain-none zero b e ∙ sym (drain-none g b e)
  | inr (i, e) ↦ absurd (omega (arith, index_bound b i e))
]
drain_fuel (suc f) zero b h k = elim (Option-cases (index_of_break b)) [
  | inl e ↦ drain-none (suc f) b e ∙ sym (drain-none zero b e)
  | inr (i, e) ↦ absurd (omega (arith, index_bound b i e))
]
drain_fuel (suc f) (suc g) b h k = elim (Option-cases (index_of_break b)) [
  | inl e ↦ drain-none (suc f) b e ∙ sym (drain-none (suc g) b e)
  | inr (i, e) ↦
      let short = length-drop (i + 2) b (index_bound b i e) in
      let same = drain_fuel f g (drop (i + 2) b) (omega (arith, short)) (omega (arith, short)) in
      rw (drain-some f b i e, drain-some g b i e, same) refl
]

-- The buffer can be drained before more text arrives: the events and what is left are the same.
pub drain-append :
    (f g : ℕ) (b c : Text)
    → length b ≤ f
    → length (b ++ c) ≤ g
    → drain g (b ++ c)
      ≡ ((drain f b).0 ++ (drain g ((drain f b).1 ++ c)).0, (drain g ((drain f b).1 ++ c)).1)
drain-append zero g b c h k = elim (Option-cases (index_of_break b)) [
  | inl e ↦ rw (drain-none zero b e) refl
  | inr (i, e) ↦ absurd (omega (arith, index_bound b i e))
]
drain-append (suc f) zero b c h k = elim (Option-cases (index_of_break b)) [
  | inl e ↦ rw (drain-none (suc f) b e) refl
  | inr (i, e) ↦ absurd (omega (arith, index_bound b i e, length-append b c))
]
drain-append (suc f) (suc g) b c h k = elim (Option-cases (index_of_break b)) [
  | inl e ↦ rw (drain-none (suc f) b e) refl
  | inr (i, e) ↦ resumed f g i b c h k e (drain-append f g (drop (i + 2) b) c)
]
  where
    resumed :
        (f g i : ℕ) (b c : Text)
        → length b ≤ suc f
        → length (b ++ c) ≤ suc g
        → index_of_break b ≡ some i
        → (length (drop (i + 2) b) ≤ f
            → length (drop (i + 2) b ++ c) ≤ g
            → drain g (drop (i + 2) b ++ c) ≡ (
              (drain f (drop (i + 2) b)).0 ++ (drain g ((drain f (drop (i + 2) b)).1 ++ c)).0,
              (drain g ((drain f (drop (i + 2) b)).1 ++ c)).1,
            ))
        → drain (suc g) (b ++ c) ≡ (
          (drain (suc f) b).0 ++ (drain (suc g) ((drain (suc f) b).1 ++ c)).0,
          (drain (suc g) ((drain (suc f) b).1 ++ c)).1,
        )
    resumed f g i b c h k e ih =
        let bound = index_bound b i e in
        let short = length-drop (i + 2) b bound in
        let both = length-append b c in
        let tail = length-append (drop (i + 2) b) c in
        let small = drain_rest_le f (drop (i + 2) b) in
        let left = length-append (drain f (drop (i + 2) b)).1 c in
        let step = ih (omega (arith, short)) (omega (arith, short, both, tail)) in
        rw
          (
            drain-some g (b ++ c) i (index-append b c i e),
            drain-some f b i e,
            take-append i b c (omega (arith, bound)),
            drop-append (i + 2) b c bound,
            step,
            drain_fuel (suc g) g ((drain f (drop (i + 2) b)).1 ++ c)
                (omega (arith, short, both, left, small)) (omega (arith, short, both, left, small)),
          )
          refl

-- What is left holds no complete event.
pub drain_rest : (f : ℕ) (b : Text) → length b ≤ f → index_of_break (drain f b).1 ≡ none
drain_rest zero b h = elim (Option-cases (index_of_break b)) [
  | inl e ↦ rw (drain-none zero b e) e
  | inr (i, e) ↦ absurd (omega (arith, index_bound b i e))
]
drain_rest (suc f) b h = elim (Option-cases (index_of_break b)) [
  | inl e ↦ rw (drain-none (suc f) b e) e
  | inr (i, e) ↦
      let short = length-drop (i + 2) b (index_bound b i e) in
      rw (drain-some f b i e) (drain_rest f (drop (i + 2) b) (omega (arith, short)))
]
