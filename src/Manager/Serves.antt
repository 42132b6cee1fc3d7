-- ===== src/Manager/Serves.antt =====
-- What the manager is made of when it starts.
use cluster_api_provider_ucl.Prelude.{
  ◌≡◌, refl, pos, Bool, true, false, Option, none, some, List, [], ◌∷◌, ◌++◌, int_eq, if◌then◌else◌,
}
use cluster_api_provider_ucl.Go.{Error, Exec, Result, continue, ok, err, pure, fail, ◌>>=◌}
use cluster_api_provider_ucl.Manager.{
  Flags, options, Step, Process, attempt, set_up, main, new_manager, set_up_machine_reconciler,
  set_up_cluster_reconciler, set_up_template_webhook, set_up_machine_webhook, add_readyz_check,
  add_healthz_check, start,
}

-- The steps of a process with these flags in order, as the help text of `webhook-port` tells them.
abbrev pub plan : Flags → List Step
plan f =
    new_manager (options f)
    ∷ ((if int_eq f.webhook_port (pos 0)
          then set_up_machine_reconciler f.ucloud_machine_concurrency
            ∷ set_up_cluster_reconciler f.ucloud_cluster_concurrency
            ∷ []
          else set_up_template_webhook ∷ set_up_machine_webhook ∷ [])
        ++ (add_readyz_check ∷ add_healthz_check ∷ start ∷ []))

module _ {W : Type 0} (perform : Step → W → Option Error × W) where
  -- The process after a step, which it has then taken.
  abbrev pub after_step : Step → Process W → Process W
  after_step step s = record { world = (perform step s.world).1; taken = s.taken ++ (step ∷ []) }

  -- What the steps of a list lead to: the end of the list, or the error of the first that fails.
  pub data Ran : List Step → Process W → Result (Unit {0}) × Process W → Type 0 where
    finished : (s : Process W) → Ran [] s (ok tt, s)
    failed :
        (step : Step) (rest : List Step) (s : Process W) (e : Error)
        → (perform step s.world).0 ≡ some e
        → Ran (step ∷ rest) s (err e, after_step step s)
    went_on :
        (step : Step) (rest : List Step) (s : Process W) (end : Result (Unit {0}) × Process W)
        → (perform step s.world).0 ≡ none
        → Ran rest (after_step step s) end
        → Ran (step ∷ rest) s end

  abbrev Runs : List Step → Exec (Process W) Unit → Type 0
  Runs steps m = (s : Process W) → Ran steps s (m s)

  Runs-attempt : (step : Step) → Runs (step ∷ []) (attempt perform step)
  unfolding attempt ◌>>=◌
  Runs-attempt step s = attempted (perform step s.world).0 refl
    where
      attempted :
          (o : Option Error)
          → (perform step s.world).0 ≡ o
          → Ran (step ∷ []) s (
              (elim o as (λ _. Exec (Process W) Unit) [ none ↦ pure tt | some e ↦ fail e ])
                (after_step step s))
      attempted none p = went_on step [] s _ p (finished _)
      attempted (some e) p = failed step [] s e p

  -- What comes after the steps of a list is done if they all succeed.
  Ran-append :
      (ys : List Step) (n : Exec (Process W) Unit) {xs : List Step} {s : Process W}
      {end : Result (Unit {0}) × Process W}
      → Ran xs s end
      → Runs ys n
      → Ran (xs ++ ys) s (continue end.0 (λ _. n) end.1)
  Ran-append ys n (finished s) then_ = then_ s
  Ran-append ys n (failed step rest s e p) then_ = failed step (rest ++ ys) s e p
  Ran-append ys n (went_on step rest s end p r) then_ =
      went_on step (rest ++ ys) s _ p (Ran-append ys n r then_)

  Runs-bind :
      (xs ys : List Step) (m n : Exec (Process W) Unit)
      → Runs xs m
      → Runs ys n
      → Runs (xs ++ ys) (m >>= λ _. n)
  unfolding ◌>>=◌
  Runs-bind xs ys m n first then_ s = Ran-append ys n (first s) then_

  Runs-set_up :
      (f : Flags)
      → Runs
          (if int_eq f.webhook_port (pos 0)
            then set_up_machine_reconciler f.ucloud_machine_concurrency
              ∷ set_up_cluster_reconciler f.ucloud_cluster_concurrency
              ∷ []
            else set_up_template_webhook ∷ set_up_machine_webhook ∷ [])
          (set_up perform f)
  unfolding set_up
  Runs-set_up f = by_port (int_eq f.webhook_port (pos 0))
    where
      by_port :
          (none_set : Bool)
          → Runs
              (if none_set
                then set_up_machine_reconciler f.ucloud_machine_concurrency
                  ∷ set_up_cluster_reconciler f.ucloud_cluster_concurrency
                  ∷ []
                else set_up_template_webhook ∷ set_up_machine_webhook ∷ [])
              (if none_set
                then (attempt perform (set_up_machine_reconciler f.ucloud_machine_concurrency)
                    >>= λ _.
                        attempt perform (set_up_cluster_reconciler f.ucloud_cluster_concurrency))
                else (attempt perform set_up_template_webhook >>= λ _.
                    attempt perform set_up_machine_webhook))
      by_port true = Runs-bind (_ ∷ []) (_ ∷ []) _ _ (Runs-attempt _) (Runs-attempt _)
      by_port false = Runs-bind (_ ∷ []) (_ ∷ []) _ _ (Runs-attempt _) (Runs-attempt _)

  -- `main` takes the steps of the plan for its flags in order, each in the world that the one before
  -- it left. At the first step that fails it stops with the error of that step and takes no more; if
  -- none fails it returns, and has taken them all.
  pub main-Ran : (f : Flags) (s : Process W) → Ran (plan f) s (main perform f s)
  unfolding main
  main-Ran f = Runs-bind (_ ∷ []) (_ ++ (_ ∷ _ ∷ _ ∷ [])) _ _ (Runs-attempt _) (
      Runs-bind _ (_ ∷ _ ∷ _ ∷ []) _ _ (Runs-set_up f) (
        Runs-bind (_ ∷ []) (_ ∷ _ ∷ []) _ _ (Runs-attempt _)
          (Runs-bind (_ ∷ []) (_ ∷ []) _ _ (Runs-attempt _) (Runs-attempt _))))
