-- ===== src/Go/Leads.antt =====
-- What operations establish when they return a value, one rule for each way to build one.
use mathlib.Core.Path.{subst}
use cluster_api_provider_ucl.Prelude.{
  ◌≡◌, refl, Bool, true, false, if◌then◌else◌, String, List, Option, none, some, All, find_first,
  find_first-All,
}
use cluster_api_provider_ucl.Go.{
  Error, Exec, Result, ok, err, panic, pure, fail, crash, wrapping, wrapped, ◌>>=◌,
}
use cluster_api_provider_ucl.Go.Keeps.{Keeps}
use cluster_api_provider_ucl.Go.Inversion.{bind-ok}

-- From a state with `P`, a value that `m` returns has `R` with the state that it leaves.
pub record Leads {S A : Type 0} (P : S → Type 0) (m : Exec S A) (R : A → S → Type 0) : Type 0 where
  pub at : (s : S) (a : A) → P s → (m s).0 ≡ ok a → R a (m s).1

pub ok-injective : {A : Type 0} {a b : A} → ok a ≡ ok b → a ≡ b
ok-injective p = cc

unwrapped :
    {A : Type 0} (format : String) (args : List String) (r : Result A) (a : A)
    → wrapped format args r ≡ ok a
    → r ≡ ok a
unwrapped format args (ok b) a e = e
unwrapped format args (err x) a e = cc
unwrapped format args (panic why) a e = cc

module _ {S A : Type 0} {P : S → Type 0} {R : A → S → Type 0} where
  pub Leads-pure : (a : A) → ((s : S) → P s → R a s) → Leads P (pure a) R
  unfolding pure
  Leads-pure a k = record { at = λ s b h e. subst (λ c. R c s) (ok-injective e) (k s h) }

  pub Leads-fail : (e : Error) → Leads P (fail e) R
  unfolding fail
  Leads-fail e = record { at = λ s a h p. cc }

  pub Leads-crash : (why : String) → Leads P (crash {A = A} why) R
  unfolding crash
  Leads-crash why = record { at = λ s a h p. cc }

  pub Leads-if :
      (test : Bool) (then_do else_do : Exec S A)
      → (test ≡ true → Leads P then_do R)
      → (test ≡ false → Leads P else_do R)
      → Leads P (if test then then_do else else_do) R
  Leads-if true _ _ leads _ = leads refl
  Leads-if false _ _ _ leads = leads refl

-- What every end of `m` keeps, its values keep.
pub Leads-Keeps : {S A : Type 0} {P : S → Type 0} (m : Exec S A) → Keeps P m → Leads P m (λ _. P)
Leads-Keeps m kept = record { at = λ s a h e. kept.at s h }

pub Leads-bind :
    {S A B : Type 0} {P : S → Type 0} {R : A → S → Type 0} {T : B → S → Type 0} (m : Exec S A)
    (f : A → Exec S B)
    → Leads P m R
    → ((a : A) → Leads (R a) (f a) T)
    → Leads P (m >>= f) T
unfolding ◌>>=◌
Leads-bind m f first then_ = record {
  at = λ s b h e.
      let p = bind-ok m f s b e in
      rw p.first ((then_ p.value).at (m s).1 b (first.at s p.value h p.first) p.rest);
}

module _ {S A : Type 0} {P : S → Type 0} {R : A → S → Type 0} where
  pub Leads-wrapping :
      (format : String) (args : List String) (m : Exec S A)
      → Leads P m R
      → Leads P (wrapping format args m) R
  unfolding wrapping
  Leads-wrapping format args m leads = record {
    at = λ s a h e. leads.at s a h (unwrapped format args (m s).0 a e);
  }

-- Nothing is asked and nothing is promised.
pub Leads-any : {S A : Type 0} (m : Exec S A) → Leads (λ _. Unit {0}) m (λ _ _. Unit {0})
Leads-any m = record { at = λ s a h e. tt }

-- A weaker start.
pub Leads-from :
    {S A : Type 0} {P P' : S → Type 0} {R : A → S → Type 0} (m : Exec S A)
    → ((s : S) → P' s → P s)
    → Leads P m R
    → Leads P' m R
Leads-from m k leads = record { at = λ s a h e. leads.at s a (k s h) e }

-- What `m` keeps and what it establishes.
pub Leads-with :
    {S A : Type 0} {P : S → Type 0} {R : A → S → Type 0} (m : Exec S A)
    → Keeps P m
    → Leads (λ _. Unit {0}) m R
    → Leads P m (λ a s. P s × R a s)
Leads-with m kept leads = record { at = λ s a h e. (kept.at s h, leads.at s a tt e) }

-- A start that tells a fact.
pub Leads-fact :
    {S A X : Type 0} {R : A → S → Type 0} (m : Exec S A)
    → (X → Leads (λ _. Unit {0}) m R)
    → Leads (λ _. X) m R
Leads-fact m k = record { at = λ s a x e. (k x).at s a tt e }

module _ {S B : Type 0} {T : B → Type 0} where
  picked :
      (o : Option B) (without : Exec S B)
      → ((b : B) → o ≡ some b → T b)
      → Leads (λ _. Unit {0}) without (λ b _. T b)
      → Leads (λ _. Unit {0}) (elim o [ some b ↦ pure b | none ↦ without ]) (λ b _. T b)
  picked none without k made = made
  picked (some b) without k made = Leads-pure b (λ s h. k b refl)

  -- A search through what `m` lists, all of which has `T`, and else what is made.
  pub Leads-search :
      {A : Type 0} (m : Exec S A) (test : B → Bool) (items : A → List B) (without : Exec S B)
      → Leads (λ _. Unit {0}) m (λ a _. All T (items a))
      → Leads (λ _. Unit {0}) without (λ b _. T b)
      → Leads
          (λ _. Unit {0})
          (m >>= λ a. elim (find_first test (items a)) [ some b ↦ pure b | none ↦ without ])
          (λ b _. T b)
  Leads-search m test items without listed made = Leads-bind _ _ listed (λ a. Leads-fact _ (λ all.
      picked (find_first test (items a)) without (λ b e. find_first-All T test (items a) all e)
        made))
