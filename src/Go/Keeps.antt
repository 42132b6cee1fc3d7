-- ===== src/Go/Keeps.antt =====
-- What operations keep, one rule for each way to build one.
use cluster_api_provider_ucl.Prelude.{
  ◌≡◌, refl, Bool, true, false, if◌then◌else◌, String, List, [], ◌∷◌, Option, none, some,
}
use cluster_api_provider_ucl.Go.{
  Error, Exec, Result, ok, err, panic, pure, fail, crash, wrapping, continue, ◌>>=◌,
}

-- Whether it returns, fails or panics, `m` keeps `P`.
pub record Keeps {S A : Type 0} (P : S → Type 0) (m : Exec S A) : Type 0 where
  pub at : (s : S) → P s → P (m s).1

module _ {S A : Type 0} {P : S → Type 0} where
  -- A choice keeps what both sides keep, each under what the test has told.
  pub Keeps-if :
      (test : Bool) (then_do else_do : Exec S A)
      → (test ≡ true → Keeps P then_do)
      → (test ≡ false → Keeps P else_do)
      → Keeps P (if test then then_do else else_do)
  Keeps-if true _ _ kept _ = kept refl
  Keeps-if false _ _ _ kept = kept refl

  -- A choice by what a search has found.
  pub Keeps-option :
      {B : Type 0} (found : Option B) (with_it : B → Exec S A) (without : Exec S A)
      → ((b : B) → Keeps P (with_it b))
      → Keeps P without
      → Keeps P (elim found [ none ↦ without | some b ↦ with_it b ])
  Keeps-option none with_it without kept missing = missing
  Keeps-option (some b) with_it without kept missing = kept b

  -- A choice by whether a list is empty.
  pub Keeps-list :
      {B : Type 0} (xs : List B) (with_it : B → List B → Exec S A) (without : Exec S A)
      → ((b : B) (bs : List B) → Keeps P (with_it b bs))
      → Keeps P without
      → Keeps P (elim xs [ [] ↦ without | b ∷ bs ↦ with_it b bs ])
  Keeps-list [] with_it without kept missing = missing
  Keeps-list (b ∷ bs) with_it without kept missing = kept b bs

  -- What leaves the state alone keeps everything.
  Keeps-still : (m : Exec S A) → ((s : S) → (m s).1 ≡ s) → Keeps P m
  Keeps-still m same = record { at = λ s held. rw same held }

  pub Keeps-crash : (why : String) → Keeps P (crash {A = A} why)
  unfolding crash
  Keeps-crash why = Keeps-still _ (λ _. refl)

  pub Keeps-pure : (a : A) → Keeps P (pure a)
  unfolding pure
  Keeps-pure a = Keeps-still _ (λ _. refl)

  pub Keeps-fail : (e : Error) → Keeps P (fail {A = A} e)
  unfolding fail
  Keeps-fail e = Keeps-still _ (λ _. refl)

  pub Keeps-wrapping :
      (format : String) (args : List String) (m : Exec S A)
      → Keeps P m
      → Keeps P (wrapping format args m)
  unfolding wrapping
  Keeps-wrapping format args m kept = record { at = λ s held. kept.at s held }

module _ {S A B : Type 0} {P : S → Type 0} (action : Exec S A) (rest : A → Exec S B) where
  after_action :
      (result : Result A)
      → ((value : A) → Keeps P (rest value))
      → (s : S) → P s
      → P (continue result rest s).1
  after_action (ok value) kept s held = (kept value).at s held
  after_action (err e) kept s held = held
  after_action (panic why) kept s held = held

  -- A sequence: first the action, then what its value leads to.
  pub Keeps-bind : Keeps P action → ((value : A) → Keeps P (rest value)) → Keeps P (action >>= rest)
  unfolding ◌>>=◌
  Keeps-bind first kept = record {
    at = λ s held. after_action (action s).0 kept (action s).1 (first.at s held);
  }
