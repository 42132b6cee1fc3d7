-- ===== src/Service/Ulb/Formatted.antt =====
-- An error that is formatted again changes nothing else, and values pass.
use cluster_api_provider_ucl.Prelude.{◌≡◌, String, []}
use cluster_api_provider_ucl.Go.{Exec, Result, ok, err, panic, errorf_of}
use cluster_api_provider_ucl.Go.Keeps.{Keeps}
use cluster_api_provider_ucl.Go.Leads.{Leads}
use cluster_api_provider_ucl.Service.Ulb.{formatted}

module _ {S A : Type 0} (P : S → Type 0) (format : String) where
  after_formatted :
      (r : Result A) (t : S)
      → P t
      → P
          (elim r as (λ _. Result A × S) [
            | ok a ↦ (ok a, t)
            | err e ↦ (err (errorf_of format [] e), t)
            | panic why ↦ (panic why, t)
          ]).1
  after_formatted (ok a) t h = h
  after_formatted (err e) t h = h
  after_formatted (panic why) t h = h

pub Keeps-formatted :
    {S A : Type 0} {P : S → Type 0} (format : String) (m : Exec S A)
    → Keeps P m
    → Keeps P (formatted format m)
unfolding formatted
Keeps-formatted {P = P} format m kept = record {
  at = λ s h. after_formatted P format (m s).0 (m s).1 (kept.at s h);
}

module _ {S A : Type 0} (R : A → S → Type 0) (format : String) where
  abbrev reformatted : Result A → S → Result A × S
  reformatted r t = elim r as (λ _. Result A × S) [
    | ok b ↦ (ok b, t)
    | err e ↦ (err (errorf_of format [] e), t)
    | panic why ↦ (panic why, t)
  ]

  after_ok :
      (r : Result A) (t : S) (a : A)
      → (r ≡ ok a → R a t)
      → (reformatted r t).0 ≡ ok a
      → R a (reformatted r t).1
  after_ok (ok b) t a k p = k p
  after_ok (err e) t a k p = cc
  after_ok (panic why) t a k p = cc

pub Leads-formatted :
    {S A : Type 0} {P : S → Type 0} {R : A → S → Type 0} (format : String) (m : Exec S A)
    → Leads P m R
    → Leads P (formatted format m) R
unfolding formatted
Leads-formatted {R = R} format m leads = record {
  at = λ s a h p. after_ok R format (m s).0 (m s).1 a (leads.at s a h) p;
}
