-- ===== src/Controller/Finalizers/Waits.antt =====
-- The loop over the finalizers does not end with all machines gone while the first of them remains.
use mathlib.Core.Path.{subst}
use cluster_api_provider_ucl.Prelude.{
  ℕ, zero, suc, ◌+◌, ◌<◌, ◌≡◌, ◌≢◌, refl, sym, ap, ◌∙◌, String, Bool, true, false, Option-cases,
  inl, inr, Option, none, some, List, [], ◌∷◌, ◌++◌, All, length, get_elem?, arith,
}
use cluster_api_provider_ucl.Prelude.Text.{has_suffix}
use cluster_api_provider_ucl.Go.{ok, pure, ◌>>=◌}
use cluster_api_provider_ucl.Go.Inversion.{bind-ok}
use cluster_api_provider_ucl.Cloud.{Environment, get_ucloud_machine}
use cluster_api_provider_ucl.Scope.{ClusterScope, State, Op, call, with_cluster}
use cluster_api_provider_ucl.Scope.Cluster
use cluster_api_provider_ucl.Controller.Finalizers.{
  machine_suffix, marked_machine, missing, check_mark, check_marks, machines_gone,
}

get_elem?-length :
    {A : Type 0} (xs : List A) (i : ℕ) (a : A) → get_elem? xs i ≡ some a → i < length xs
get_elem?-length [] i a p = cc
get_elem?-length (x ∷ xs) zero a p = omega arith
get_elem?-length (x ∷ xs) (suc i) a p = omega (arith, get_elem?-length xs i a p)

suc_add : (i k : ℕ) → suc i + k ≡ suc (i + k)
suc_add i k = omega arith

zero_add : (i : ℕ) → 0 + i ≡ i
zero_add i = omega arith

add_zero : (i : ℕ) → i + 0 ≡ i
add_zero i = omega arith

add_suc : (i k : ℕ) → i + suc k ≡ i + 1 + k
add_suc i k = omega arith

same_slice : {xs ys zs : List String} → ok (some xs) ≡ ok (some ys) → xs ≡ zs → ys ≡ zs
same_slice p q = cc

no_slice : {B : Type 0} {xs : List String} → ok none ≡ ok (some xs) → B
no_slice p = cc

some-injective : {A : Type 0} {a b : A} → some a ≡ some b → a ≡ b
some-injective p = cc

get_elem?-before :
    {A : Type 0} (xs : List A) (i k : ℕ) (a : A)
    → get_elem? xs (i + k) ≡ some a
    → get_elem? xs i ≢ none
get_elem?-before [] i k a p = cc
get_elem?-before (x ∷ xs) zero k a p = λ q. cc
get_elem?-before (x ∷ xs) (suc i) k a p = get_elem?-before xs i k a (rw suc_add at p)

-- The item between two parts stands at the length of the first part.
pub get_elem?-append :
    {A : Type 0} (xs : List A) (a : A) (ys : List A) → get_elem? (xs ++ a ∷ ys) (length xs) ≡ some a
get_elem?-append [] a ys = refl
get_elem?-append (x ∷ xs) a ys = get_elem?-append xs a ys

nothing_below : (j : ℕ) → j < 0 → ⊥
nothing_below j l = omega arith

-- What stands before that place has what every item of the first part has.
get_elem?-All :
    {A : Type 0} (P : A → Type 0) (xs ys : List A) (j : ℕ) (b : A)
    → All P xs
    → j < length xs
    → get_elem? (xs ++ ys) j ≡ some b
    → P b
get_elem?-All P [] ys j b h l p = absurd (nothing_below j l)
get_elem?-All P (x ∷ xs) ys zero b h l p = subst P (some-injective p) h.0
get_elem?-All P (x ∷ xs) ys (suc j) b h l p = get_elem?-All P xs ys j b h.1 (omega arith) p

module _ (E : Environment) (sc : ClusterScope) where
  -- The finalizer marks a machine, and the API server never answers that its object is missing.
  pub record Remains (mark : String) : Type 0 where
    pub marks : has_suffix mark machine_suffix ≡ true
    pub present :
        (w : E.World)
        → missing E (E.invoke (get_ucloud_machine (Cluster.namespace sc) (marked_machine mark)) w).0
          ≡ false

  check_mark-Remains :
      (mark : String) (slice : List String) (s : State E.World)
      → Remains mark
      → (check_mark E sc mark slice s).0 ≡ ok none
  unfolding check_mark call ◌>>=◌
  check_mark-Remains mark slice s r = rw r.marks (rw (r.present s.world) refl)

  -- A finalizer that marks no machine leaves the slice as it is.
  check_mark-slice :
      (mark : String) (slice slice' : List String) (s : State E.World)
      → has_suffix mark machine_suffix ≡ false
      → (check_mark E sc mark slice s).0 ≡ ok (some slice')
      → slice' ≡ slice
  unfolding check_mark ◌>>=◌
  check_mark-slice mark slice slice' s e p = same_slice (rw e at p) refl

  -- The rest of a round, by what the look at a finalizer gave.
  abbrev after_look : ℕ → ℕ → Option (List String) → Op E Bool
  after_look rounds i next = elim next [
    | none ↦ pure false
    | some slice' ↦ check_marks E sc rounds (i + 1) slice'
  ]

  stopped :
      (rounds i : ℕ) (next : Option (List String)) (s : State E.World)
      → ok next ≡ ok none
      → (after_look rounds i next s).0 ≢ ok true
  unfolding ◌>>=◌
  stopped rounds i none s q p = cc
  stopped rounds i (some slice') s q p = cc

  went_on :
      (rounds i : ℕ) (next : Option (List String)) (s : State E.World)
      → (after_look rounds i next s).0 ≡ ok true
      → (slice : List String) × (next ≡ some slice)
        × ((check_marks E sc rounds (i + 1) slice s).0 ≡ ok true)
  unfolding ◌>>=◌
  went_on rounds i none s p = cc
  went_on rounds i (some slice) s p = (slice, refl, p)

  -- One round, by the element that it reads.
  abbrev turn : ℕ → ℕ → List String → Option String → Op E Bool
  turn rounds i slice o = elim o [
    | none ↦ pure true
    | some mark ↦ check_mark E sc mark slice >>= after_look rounds i
  ]

  look :
      (rounds i : ℕ) (slice : List String) (mark : String) (s : State E.World)
      → get_elem? slice i ≡ some mark
      → check_marks E sc (suc rounds) i slice s
        ≡ (check_mark E sc mark slice >>= after_look rounds i) s
  unfolding check_marks
  look rounds i slice mark s e = ap (λ o. turn rounds i slice o s) e

  check_marks-Remains :
      (mark : String) (r : Remains mark) (rounds i k : ℕ) (slice : List String) (s : State E.World)
      → get_elem? slice (i + k) ≡ some mark
      → ((j : ℕ) (f : String)
          → j < i + k
          → get_elem? slice j ≡ some f
          → has_suffix f machine_suffix ≡ false)
      → k < rounds
      → (check_marks E sc rounds i slice s).0 ≢ ok true
  check_marks-Remains mark r zero i k slice s e others l p = omega arith
  check_marks-Remains mark r (suc rounds) i zero slice s e others l p =
      let looked = bind-ok _ _ s true (rw (look rounds i slice mark s (rw add_zero at e)) at p) in
      stopped rounds i looked.value _ (sym looked.first ∙ check_mark-Remains mark slice s r)
        looked.rest
  check_marks-Remains mark r (suc rounds) i (suc k) slice s e others l p =
      elim (Option-cases (get_elem? slice i)) [
        | inl n ↦ get_elem?-before slice i (suc k) mark e n
        | inr (g, q) ↦
            let looked = bind-ok _ _ s true (rw (look rounds i slice g s q) at p) in
            let on = went_on rounds i looked.value _ looked.rest in
            let kept =
              check_mark-slice g slice on.0 s (others i g (omega arith) q)
                (looked.first ∙ ap ok on.1) in
            check_marks-Remains mark r rounds (i + 1) k on.0 _ (rw (kept, ← add_suc) e)
              (λ j f m t. others j f (omega arith) (rw kept at t)) (omega arith) on.2
      ]

  pub machines_gone-Remains :
      (before : List String) (mark : String) (after : List String) (s : State E.World)
      → s.ucloud_cluster.meta.finalizers ≡ before ++ mark ∷ after
      → All (λ f. has_suffix f machine_suffix ≡ false) before
      → Remains mark
      → (machines_gone E sc s).0 ≢ ok true
  unfolding machines_gone with_cluster
  machines_gone-Remains before mark after s e others r =
      check_marks-Remains mark r (length s.ucloud_cluster.meta.finalizers) 0 (length before)
        s.ucloud_cluster.meta.finalizers s
        (rw (e, zero_add (length before)) (get_elem?-append before mark after))
        (λ j f l p.
          get_elem?-All (λ f. has_suffix f machine_suffix ≡ false) before (mark ∷ after) j f others
            (omega arith) (rw e at p))
        (rw e (
          get_elem?-length (before ++ mark ∷ after) (length before) mark
            (get_elem?-append before mark after)))
