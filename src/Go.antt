-- ===== src/Go.antt =====
-- What a call of a Go function leaves: a value, an error, or a panic; and methods that change an
-- object. What was written before an error or a panic stays written, so the state comes back too.
pub mod Keeps
pub mod Inversion
pub mod Leads
use cluster_api_provider_ucl.Prelude.{ℤ, String, List}

-- The names that the program gives to the SDK's client errors.
pub data ClientErrorName : Type 0 where
  err_invalid_request err_network err_send_request : ClientErrorName

-- An error keeps how it was built: by code outside of this repository (with its text), by
-- `errors.Errorf` or `errors.New` from a format and texts, by `errors.Errorf` with another error as
-- its last argument, by `errors.Wrap` and `errors.Wrapf`, or by the constructors of the SDK's errors.
pub data Error : Type 0 where
  external : String → Error
  errorf : String → List String → Error
  errorf_of : String → List String → Error → Error
  wrap : Error → String → List String → Error
  client_error : ClientErrorName → Error → Error
  server_code_error : ℤ → String → Error
  server_status_error : ℤ → String → Error

-- `panic` names the operation that failed.
pub data Result {ℓ} (A : Type ℓ) : Type ℓ where
  ok : A → Result A
  err : Error → Result A
  panic : String → Result A

abbrev pub Exec {ℓ} : Type ℓ → Type ℓ → Type ℓ
Exec S A = S → Result A × S

module _ {ℓ} {S A : Type ℓ} where
  pub pure : A → Exec S A
  pure a s = (ok a, s)

  pub fail : Error → Exec S A
  fail e s = (err e, s)

  -- A run-time panic of Go.
  pub crash : String → Exec S A
  crash why s = (panic why, s)

  pub gets : (S → A) → Exec S A
  gets f s = (ok (f s), s)

module _ {ℓ} {S : Type ℓ} where
  pub modify : (S → S) → Exec S Unit
  modify f s = (ok tt, f s)

module _ {ℓ} {S A B : Type ℓ} where
  abbrev pub continue : Result A → (A → Exec S B) → Exec S B
  continue (ok a) f s = f a s
  continue (err e) f s = (err e, s)
  continue (panic w) f s = (panic w, s)

  infixl 10 ◌>>=◌ ◌>>◌
  -- Opening this opens `pure`, `fail`, `crash`, `gets` and `modify` too.
  unfoldable pub ◌>>=◌ : Exec S A → (A → Exec S B) → Exec S B
  unfolding pure fail crash gets modify
  ◌>>=◌ m f s = continue (m s).0 f (m s).1

  abbrev pub ◌>>◌ : Exec S A → Exec S B → Exec S B
  m >> n = m >>= λ _. n

-- `if err != nil { return errors.Wrapf(err, format, args) }`.
abbrev pub wrapped {ℓ} : {A : Type ℓ} → String → List String → Result A → Result A
wrapped format args (ok a) = ok a
wrapped format args (err e) = err (wrap e format args)
wrapped format args (panic w) = panic w

module _ {ℓ} {S A : Type ℓ} where
  unfoldable pub wrapping : String → List String → Exec S A → Exec S A
  wrapping format args m s = (wrapped format args (m s).0, (m s).1)
