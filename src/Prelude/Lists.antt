-- ===== src/Prelude/Lists.antt =====
-- Lists as the program reads them: the first that fits, the one at an index, membership of texts.
use Prim.Native.Nat.{ℕ, zero, suc}
use Prim.Native.String.{String}
use mathlib.Core.Path.{◌≡◌, refl, subst}
use mathlib.Core.Bool.{Bool, true, false, ◌||◌, ◌&&◌}
use mathlib.Core.List.{List, [], ◌∷◌, ◌++◌}
use mathlib.Core.Option.{Option, none, some}
use mathlib.Core.Logic.{inl, inr}
use native.Mathlib.Omega.{arith}
use text.Mathlib.Text.{◌==◌}
use cluster_api_provider_ucl.Prelude.Tests.{if◌then◌else◌, nat_eq, Bool-cases}

module _ {ℓ} {A : Type ℓ} where
  abbrev pub length : List A → ℕ
  length [] = 0
  length (x ∷ xs) = suc (length xs)

  abbrev pub get_elem? : List A → ℕ → Option A
  get_elem? [] i = none
  get_elem? (x ∷ xs) zero = some x
  get_elem? (x ∷ xs) (suc i) = get_elem? xs i

  -- The first item that passes, as a loop with `break` finds it.
  abbrev pub find_first : (A → Bool) → List A → Option A
  find_first p [] = none
  find_first p (x ∷ xs) = if p x then some x else find_first p xs

  -- Every item has the property.
  abbrev pub All {κ} : (A → Type κ) → List A → Type κ
  All P [] = Unit
  All P (x ∷ xs) = P x × All P xs

  pub All-append {κ} : (P : A → Type κ) (xs ys : List A) → All P xs → All P ys → All P (xs ++ ys)
  All-append P [] ys hx hy = hy
  All-append P (x ∷ xs) ys hx hy = (hx.0, All-append P xs ys hx.1 hy)

  pub find_first-some : (p : A → Bool) (xs : List A) {a : A} → find_first p xs ≡ some a → p a ≡ true
  find_first-some p [] h = cc
  find_first-some p (x ∷ xs) {a} h = ground (arith, find_first-some p xs {a = a})

  pub find_first-none :
      (p : A → Bool) (xs : List A) → All (λ x. p x ≡ false) xs → find_first p xs ≡ none
  find_first-none p [] h = refl
  find_first-none p (x ∷ xs) h = ground (arith, find_first-none p xs)

  -- The first that passes after some that do not.
  pub find_first-append :
      (p : A → Bool) (xs : List A) (a : A) (ys : List A)
      → All (λ x. p x ≡ false) xs
      → p a ≡ true
      → find_first p (xs ++ a ∷ ys) ≡ some a
  find_first-append p [] a ys h q = rw q refl
  find_first-append p (x ∷ xs) a ys h q = rw h.0 (find_first-append p xs a ys h.1 q)

  pub All-mono {κ κ'} :
      {P : A → Type κ} {Q : A → Type κ'} (xs : List A) → ((x : A) → P x → Q x) → All P xs → All Q xs
  All-mono [] f h = tt
  All-mono (x ∷ xs) f h = (f x h.0, All-mono xs f h.1)

  same_item : {a b : A} → some a ≡ some b → a ≡ b
  same_item p = cc

  -- What every item has, the item that is found has.
  pub find_first-All {κ} :
      (T : A → Type κ) (p : A → Bool) (xs : List A) {a : A}
      → All T xs
      → find_first p xs ≡ some a
      → T a
  find_first-All T p [] h e = cc
  find_first-All T p (x ∷ xs) {a} h e = elim (Bool-cases (p x)) [
    | inl q ↦ subst T (same_item (rw q at e)) h.0
    | inr q ↦ find_first-All T p xs h.1 (rw q at e)
  ]

abbrev pub contains : List String → String → Bool
contains [] a = false
contains (x ∷ xs) a = x == a || contains xs a

-- Equality of lists of code points.
abbrev pub codes_eq : List ℕ → List ℕ → Bool
codes_eq [] [] = true
codes_eq (a ∷ as') (b ∷ bs) = nat_eq a b && codes_eq as' bs
codes_eq _ _ = false

-- A Go map from texts as an association list with one entry for each key.
abbrev pub lookup {ℓ} : {V : Type ℓ} → String → List (String × V) → Option V
lookup k [] = none
lookup k ((j, v) ∷ m) = if j == k then some v else lookup k m

-- A write to such a map.
abbrev pub insert {ℓ} : {V : Type ℓ} → String → V → List (String × V) → List (String × V)
insert k v [] = (k, v) ∷ []
insert k v ((j, w) ∷ m) = if j == k then (k, v) ∷ m else (j, w) ∷ insert k v m

-- `delete(m, k)`.
abbrev pub remove {ℓ} : {V : Type ℓ} → String → List (String × V) → List (String × V)
remove k [] = []
remove k ((j, v) ∷ m) = let rest = remove k m in if j == k then rest else (j, v) ∷ rest
