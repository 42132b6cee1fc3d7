-- ===== src/Go/Inversion.antt =====
-- What a sequence that returned a value has done before.
use cluster_api_provider_ucl.Prelude.{◌≡◌, refl}
use cluster_api_provider_ucl.Go.{Exec, Result, ok, err, panic, continue, pure, ◌>>=◌}

module _ {S A B : Type 0} where
  -- The first part returned `value`, with which the second returned `b`.
  pub record Passed (m : Exec S A) (f : A → Exec S B) (s : S) (b : B) : Type 0 where
    pub value : A
    pub first : (m s).0 ≡ ok value
    pub rest : (f value (m s).1).0 ≡ ok b

  continue-ok :
      (m : Exec S A) (f : A → Exec S B) (s : S) (b : B) (r : Result A)
      → (m s).0 ≡ r
      → (continue r f (m s).1).0 ≡ ok b
      → Passed m f s b
  continue-ok m f s b (ok a) e p = record { value = a; first = e; rest = p }
  continue-ok m f s b (err x) e p = cc
  continue-ok m f s b (panic w) e p = cc

  pub bind-ok :
      (m : Exec S A) (f : A → Exec S B) (s : S) (b : B) → ((m >>= f) s).0 ≡ ok b → Passed m f s b
  unfolding ◌>>=◌
  bind-ok m f s b p = continue-ok m f s b (m s).0 refl p

module _ {S A : Type 0} where
  pub pure-ok : {a b : A} (s : S) → (pure a s).0 ≡ ok b → a ≡ b
  unfolding ◌>>=◌
  pure-ok s p = cc
