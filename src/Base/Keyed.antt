-- ===== src/Base/Keyed.antt =====
-- Lists of rows that are looked up by a key.
use Prim.Native.Nat.{◌+◌}
use mathlib.Core.Path.{◌≡◌}
use mathlib.Core.Bool.{Bool}
use mathlib.Core.List.{List, [], ◌∷◌, ◌++◌}
use mathlib.Core.Option.{Option, none, some}
use native.Mathlib.Omega.{arith}
use swiftlm_platform.Base.Tests.{if◌then◌else◌}
use swiftlm_platform.Base.Texts.{Text, ◌==◌}
use swiftlm_platform.Base.Lists.{find, update_where, count_where}

abbrev pub map_some {ℓ κ} : {A : Type ℓ} {B : Type κ} → (A → B) → Option A → Option B
map_some f none = none
map_some f (some a) = some (f a)

abbrev pub or_row {ℓ} : {A : Type ℓ} → Option A → Option A → Option A
or_row none b = b
or_row (some a) b = some a

module _ {ℓ} {A : Type ℓ} (key : A → Text) where
  -- An update that keeps the keys.
  pub find-update_where :
      (id k : Text) (f : A → A) (xs : List A)
      → ((x : A) → key (f x) ≡ key x)
      → find (λ x. key x == id) (update_where (λ x. key x == k) f xs)
        ≡ (if k == id then map_some f (find (λ x. key x == id) xs) else find (λ x. key x == id) xs)
  find-update_where id k f [] same = ground arith
  find-update_where id k f (x ∷ xs) same = ground (arith, same x, find-update_where id k f xs same)

  pub find-append :
      (id : Text) (xs : List A) (y : A)
      → find (λ x. key x == id) (xs ++ (y ∷ []))
        ≡ or_row (find (λ x. key x == id) xs) (if key y == id then some y else none)
  find-append id [] y = ground arith
  find-append id (x ∷ xs) y = ground (arith, find-append id xs y)

module _ {ℓ} {A : Type ℓ} (p : A → Bool) where
  pub count-append :
      (xs : List A) (y : A)
      → count_where p (xs ++ (y ∷ [])) ≡ count_where p xs + (if p y then 1 else 0)
  count-append [] y = ground arith
  count-append (x ∷ xs) y = ground (arith, count-append xs y)
