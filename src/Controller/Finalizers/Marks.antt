-- ===== src/Controller/Finalizers/Marks.antt =====
-- The finalizer that a machine leaves on its cluster, and how the cluster's reconciler reads it.
use Prim.Native.Char.{Char, code}
use text.Mathlib.TextLemmas.{cons-append}
use cluster_api_provider_ucl.Prelude.{
  String, ◌<>◌, ◌≡◌, ◌≢◌, ◌⊎◌, refl, ap, ◌∙◌, Bool, true, false, Bool-cases, inl, inr, List, [],
  ◌∷◌, nat_eq, ◌||◌, if◌then◌else◌,
}
use cluster_api_provider_ucl.Prelude.Text.{has_suffix, split, push_char}
use cluster_api_provider_ucl.Controller.Finalizers.{
  machine_suffix, machine_mark, marked_machine, head_or_empty,
}

-- The text has no dot.
abbrev pub dotless : String → Bool
dotless String.[] = true
dotless (String.◌∷◌ c s) = if nat_eq (code c) b'.' then false else dotless s

-- What comes before the first dot.
abbrev pub before_dot : String → String
before_dot String.[] = ""
before_dot (String.◌∷◌ c s) = if nat_eq (code c) b'.' then "" else String.◌∷◌ c (before_dot s)

head-push_char :
    (c : Char) (ws : List String) → head_or_empty (push_char c ws) ≡ String.◌∷◌ c (head_or_empty ws)
head-push_char c [] = refl
head-push_char c (w ∷ ws) = refl

or_true : (a b : Bool) → b ≡ true → (a || b) ≡ true
or_true true b p = refl
or_true false b p = p

no_dot : {B : Type 0} → false ≡ true → B
no_dot p = cc

has_suffix-machine_mark :
    (name : String) → has_suffix (name <> machine_suffix) machine_suffix ≡ true
unfolding has_suffix
has_suffix-machine_mark String.[] = refl
has_suffix-machine_mark (String.◌∷◌ c s) = rw cons-append (or_true _ _ (has_suffix-machine_mark s))

head-split : (name : String) → head_or_empty (split (name <> machine_suffix) b'.') ≡ before_dot name
unfolding split
head-split String.[] = refl
head-split (String.◌∷◌ c s) = elim (Bool-cases (nat_eq (code c) b'.')) [
  | inl e ↦ rw (cons-append, e) refl
  | inr e ↦
      rw (cons-append, e)
        (head-push_char c (split (s <> machine_suffix) b'.') ∙ ap (String.◌∷◌ c) (head-split s))
]

before_dot-whole : (name : String) → dotless name ≡ true → before_dot name ≡ name
before_dot-whole String.[] p = refl
before_dot-whole (String.◌∷◌ c s) p = elim (Bool-cases (nat_eq (code c) b'.')) [
  | inl e ↦ no_dot (rw e at p)
  | inr e ↦ rw e (ap (String.◌∷◌ c) (before_dot-whole s (rw e at p)))
]

tail_same : {c : Char} {s t : String} → String.◌∷◌ c s ≡ String.◌∷◌ c t → s ≡ t
tail_same p = cc

not_empty : {c : Char} {s : String} → String.[] ≢ String.◌∷◌ c s
not_empty p = cc

before_dot-cut : (name : String) → dotless name ≡ false → before_dot name ≢ name
before_dot-cut String.[] p q = cc
before_dot-cut (String.◌∷◌ c s) p q = elim (Bool-cases (nat_eq (code c) b'.')) [
  | inl e ↦ not_empty (rw e at q)
  | inr e ↦ before_dot-cut s (rw e at p) (tail_same (rw e at q))
]

by_dot :
    (name : String)
    → ((dotless name ≡ true) × (before_dot name ≡ name))
      ⊎ ((dotless name ≡ false) × (before_dot name ≢ name))
by_dot name = elim (Bool-cases (dotless name)) [
  | inl d ↦ inl (d, before_dot-whole name d)
  | inr d ↦ inr (d, before_dot-cut name d)
]

-- The finalizer that a machine's reconciler leaves on the cluster is recognised by the reconciler of the
-- cluster, and the name that is read from it is the part of the machine's name before its first dot:
-- the machine's name, if that has no dot, and another name, if it has one.
pub marked_machine-machine_mark :
    (name : String)
    → (has_suffix (machine_mark name) machine_suffix ≡ true)
      × (marked_machine (machine_mark name) ≡ before_dot name)
      × (((dotless name ≡ true) × (before_dot name ≡ name))
          ⊎ ((dotless name ≡ false) × (before_dot name ≢ name)))
unfolding marked_machine
marked_machine-machine_mark name = (has_suffix-machine_mark name, head-split name, by_dot name)
