-- ===== src/Controller/Finalizers/Skips.antt =====
-- The loop over the finalizers ranges over a slice that `RemoveFinalizer` shifts.
use mathlib.Core.Path.{subst}
use cluster_api_provider_ucl.Prelude.{
  ℕ, zero, suc, ◌+◌, ◌<◌, ◌≡◌, ◌≢◌, refl, sym, ap, ◌∙◌, String, true, false, some, List, [], ◌∷◌,
  ◌++◌, All, All-mono, length, get_elem?, arith,
}
use cluster_api_provider_ucl.Prelude.Text.{has_suffix}
use cluster_api_provider_ucl.Go.{ok, ◌>>=◌}
use cluster_api_provider_ucl.Cloud.{Environment, Call, get_ucloud_machine}
use cluster_api_provider_ucl.Scope.{ClusterScope, State, call, with_cluster}
use cluster_api_provider_ucl.Scope.Cluster
use cluster_api_provider_ucl.Scope.Calls.{reply_to, after_call}
use cluster_api_provider_ucl.Controller.Finalizers.{
  machine_suffix, marked_machine, missing, set_finalizers, remove_mark, check_mark, check_marks,
  machines_gone,
}
use cluster_api_provider_ucl.Controller.Finalizers.Waits.{get_elem?-append}

-- What a slice reads after its first item was cut out in place: the others, and the last of them twice.
abbrev pub shifted : String → List String → List String
shifted x [] = x ∷ []
shifted x (y ∷ ys) = y ∷ shifted y ys

length-shifted : (x : String) (xs : List String) → length (shifted x xs) ≡ suc (length xs)
length-shifted x [] = refl
length-shifted x (y ∷ ys) = ap suc (length-shifted y ys)

shifted-All :
    (P : String → Type 0) (x : String) (xs : List String) → P x → All P xs → All P (shifted x xs)
shifted-All P x [] p h = (p, tt)
shifted-All P x (y ∷ ys) p h = (h.0, shifted-All P y ys h.0 h.1)

length-append : (xs ys : List String) → length (xs ++ ys) ≡ length xs + length ys
length-append [] ys = omega arith
length-append (x ∷ xs) ys = omega (arith, length-append xs ys)

-- The items after a first part, and after the item that follows it.
get_elem?-after :
    (xs : List String) (a : String) (ys : List String) (j : ℕ)
    → get_elem? (xs ++ a ∷ ys) (length xs + 1 + j) ≡ get_elem? ys j
get_elem?-after [] a ys j = ap (get_elem? (a ∷ ys)) (one_more j)
  where
    one_more : (j : ℕ) → 0 + 1 + j ≡ suc j
    one_more j = omega arith
get_elem?-after (x ∷ xs) a ys j =
    ap (get_elem? (x ∷ xs ++ a ∷ ys)) (carry (length xs) j) ∙ get_elem?-after xs a ys j
  where
    carry : (n j : ℕ) → suc n + 1 + j ≡ suc (n + 1 + j)
    carry n j = omega arith

-- There is an item at each index below the length, with what all items have.
record Stands (P : String → Type 0) (xs : List String) (j : ℕ) : Type 0 where
  item : String
  stands : get_elem? xs j ≡ some item
  has : P item

nothing_below : (j : ℕ) → j < 0 → ⊥
nothing_below j l = omega arith

get_elem?-Stands :
    (P : String → Type 0) (xs ys : List String) (j : ℕ)
    → All P xs
    → j < length xs
    → Stands P (xs ++ ys) j
get_elem?-Stands P [] ys j h l = absurd (nothing_below j l)
get_elem?-Stands P (x ∷ xs) ys zero h l = record { item = x; stands = refl; has = h.0 }
get_elem?-Stands P (x ∷ xs) ys (suc j) h l =
    let i = get_elem?-Stands P xs ys j h.1 (omega arith) in
    record { item = i.item; stands = i.stands; has = i.has }

append_nil : (xs : List String) → xs ++ [] ≡ xs
append_nil [] = refl
append_nil (x ∷ xs) = ap (λ l. x ∷ l) (append_nil xs)

-- The finalizer marks no machine.
abbrev pub IsOther : String → Type 0
IsOther f = has_suffix f machine_suffix ≡ false

-- `RemoveFinalizer` of a finalizer that the object has once cuts it out of the object's finalizers in
-- place, so that a slice of them that was taken before is shifted.
pub record ShiftsSlice (E : Environment) : Type 0 where
  pub shifts :
      (mark : String) (before after : List String)
      → All (λ f. f ≢ mark) before
      → All (λ f. f ≢ mark) after
      → E.remove_finalizer mark (before ++ mark ∷ after) (before ++ mark ∷ after)
        ≡ (before ++ after, before ++ shifted mark after)

suc_add : (i k : ℕ) → suc i + k ≡ suc (i + k)
suc_add i k = omega arith

zero_add : (i : ℕ) → 0 + i ≡ i
zero_add i = omega arith

add_zero : (i : ℕ) → i + 0 ≡ i
add_zero i = omega arith

add_suc : (i k : ℕ) → i + 1 + k ≡ i + suc k
add_suc i k = omega arith

module _ (E : Environment) (sc : ClusterScope) where
  pass_one :
      (rounds i : ℕ) (slice : List String) (f : String) (s : State E.World)
      → get_elem? slice i ≡ some f
      → IsOther f
      → check_marks E sc (suc rounds) i slice s ≡ check_marks E sc rounds (i + 1) slice s
  unfolding check_marks check_mark ◌>>=◌
  pass_one rounds i slice f s here other = rw (check_marks, here, check_mark, other) refl

  -- The loop passes over finalizers that mark no machine.
  pass :
      (k rounds i : ℕ) (slice : List String) (s : State E.World)
      → ((j : ℕ) → j < k → Stands IsOther slice (i + j))
      → check_marks E sc (k + rounds) i slice s ≡ check_marks E sc rounds (i + k) slice s
  pass zero rounds i slice s items =
      ap (λ n. check_marks E sc n i slice s) (zero_add rounds)
      ∙ ap (λ n. check_marks E sc rounds n slice s) (sym (add_zero i))
  pass (suc k) rounds i slice s items =
      let now = items 0 (omega arith) in
      let here = ap (get_elem? slice) (sym (add_zero i)) ∙ now.stands in
      ap (λ n. check_marks E sc n i slice s) (suc_add k rounds)
      ∙ pass_one (k + rounds) i slice now.item s here now.has
      ∙ (pass k rounds (i + 1) slice s
          (λ j l. subst (Stands IsOther slice) (sym (add_suc i j)) (items (suc j) (omega arith))))
      ∙ ap (λ n. check_marks E sc rounds n slice s) (add_suc i k)

  -- The lookup of the machine that a finalizer marks.
  abbrev pub lookup_call : String → Call
  lookup_call mark = get_ucloud_machine (Cluster.namespace sc) (marked_machine mark)

  -- The state after that lookup, with other finalizers on the cluster.
  abbrev pub after_lookup : String → List String → State E.World → State E.World
  after_lookup mark finalizers s = record (after_call E (lookup_call mark) s) {
    ucloud_cluster = set_finalizers finalizers s.ucloud_cluster;
  }

  -- The round in which a machine is found to be gone.
  pass_gone :
      (rounds i : ℕ) (slice : List String) (gone : String) (s : State E.World)
      (kept slice' : List String)
      → get_elem? slice i ≡ some gone
      → has_suffix gone machine_suffix ≡ true
      → missing E (reply_to E (lookup_call gone) s) ≡ true
      → E.remove_finalizer gone s.ucloud_cluster.meta.finalizers slice ≡ (kept, slice')
      → check_marks E sc (suc rounds) i slice s
        ≡ check_marks E sc rounds (i + 1) slice' (after_lookup gone kept s)
  unfolding check_marks check_mark remove_mark call ◌>>=◌
  pass_gone rounds i slice gone s kept slice' here marks lost removed =
      rw (check_marks, here, check_mark, marks, lost, remove_mark, removed) refl

  -- The rest of the loop over a shifted slice of which no item marks a machine.
  pass_shifted :
      (before : List String) (next last : String) (rest : List String) (s : State E.World)
      → All IsOther (last ∷ rest)
      → check_marks E sc
          (suc (suc (length rest)))
          (length before + 1)
          (before ++ next ∷ last ∷ shifted last rest)
          s
        ≡ (ok true, s)
  unfolding check_marks ◌>>=◌
  pass_shifted before next last rest s others =
      ap (λ n. check_marks E sc n (length before + 1) slice s)
        (sym (add_zero (suc (suc (length rest)))))
      ∙ pass (suc (suc (length rest))) 0 (length before + 1) slice s items
    where
      tail : List String
      tail = last ∷ shifted last rest

      slice : List String
      slice = before ++ next ∷ tail

      tail-All : All IsOther tail
      tail-All = (others.0, shifted-All IsOther last rest others.0 others.1)

      items : (j : ℕ) → j < suc (suc (length rest)) → Stands IsOther slice (length before + 1 + j)
      items j l =
          let i = get_elem?-Stands IsOther tail [] j tail-All (rw (length-shifted last rest) l) in
          record {
            item = i.item;
            stands =
                get_elem?-after before next tail j
                ∙ ap (λ xs. get_elem? xs j) (sym (append_nil tail))
                ∙ i.stands;
            has = i.has;
          }

  not_gone : (gone f : String) → has_suffix gone machine_suffix ≡ true → IsOther f → f ≢ gone
  not_gone gone f marks other p = cc

  -- Say that `RemoveFinalizer` cuts a finalizer out in place, and that of a cluster's finalizers one marks
  -- a machine whose object is missing, those before it mark no machine, right after it stands any other
  -- finalizer, and then one or more that mark no machine, up to the end. Then the loop reports that all
  -- machines are gone after the single lookup of the missing one. It has not looked at the finalizer that
  -- stood next, although that is still on the cluster and may mark a machine that is there.
  pub machines_gone-skips :
      ShiftsSlice E
      → (before : List String) (gone next last : String) (rest : List String) (s : State E.World)
      → s.ucloud_cluster.meta.finalizers ≡ before ++ gone ∷ next ∷ last ∷ rest
      → All IsOther before
      → has_suffix gone machine_suffix ≡ true
      → missing E (reply_to E (lookup_call gone) s) ≡ true
      → next ≢ gone
      → All IsOther (last ∷ rest)
      → machines_gone E sc s ≡ (ok true, after_lookup gone (before ++ next ∷ last ∷ rest) s)
  unfolding machines_gone with_cluster
  machines_gone-skips law before gone next last rest s are others marks lost unlike ends =
      ap (λ fs. check_marks E sc (length fs) 0 fs s) are
      ∙ ap (λ n. check_marks E sc n 0 slice s) (length-append before (gone ∷ next ∷ last ∷ rest))
      ∙ pass (length before) (suc (suc (suc (length rest)))) 0 slice s (λ j l.
        subst (Stands IsOther slice) (sym (zero_add j))
          (get_elem?-Stands IsOther before _ j others l))
      ∙ ap (λ n. check_marks E sc (suc (suc (suc (length rest)))) n slice s)
          (zero_add (length before))
      ∙ pass_gone (suc (suc (length rest))) (length before) slice gone s
          (before ++ next ∷ last ∷ rest) (before ++ next ∷ last ∷ shifted last rest)
          (get_elem?-append before gone (next ∷ last ∷ rest)) marks lost removed
      ∙ pass_shifted before next last rest _ ends
    where
      slice : List String
      slice = before ++ gone ∷ next ∷ last ∷ rest

      removed :
          E.remove_finalizer gone s.ucloud_cluster.meta.finalizers slice
          ≡ (before ++ next ∷ last ∷ rest, before ++ next ∷ last ∷ shifted last rest)
      removed =
          ap (λ fs. E.remove_finalizer gone fs slice) are
          ∙ law.shifts gone before (next ∷ last ∷ rest)
              (All-mono before (λ f. not_gone gone f marks) others)
              (unlike, All-mono (last ∷ rest) (λ f. not_gone gone f marks) ends)
