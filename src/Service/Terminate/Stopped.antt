-- ===== src/Service/Terminate/Stopped.antt =====
-- A host is stopped before it is terminated.
use cluster_api_provider_ucl.Prelude.{
  ℕ, zero, suc, ◌*◌, ◌≡◌, refl, String, true, Bool-cases, Option-cases, ◌⊎◌, inl, inr, none, List,
  [], ◌∷◌, ◌==◌,
}
use cluster_api_provider_ucl.Go.{Result, ok, err, panic, pure, continue, ◌>>=◌}
use cluster_api_provider_ucl.Go.Keeps.{Keeps, Keeps-bind, Keeps-pure}
use cluster_api_provider_ucl.Api.Cluster.{UcloudCluster}
use cluster_api_provider_ucl.Cloud.{
  Environment, Call, UhostInstanceSet, DescribeUhostInstanceRequest, TerminateUhostInstanceRequest,
  describe_uhost_instance, poweroff_uhost_instance, terminate_uhost_instance,
}
use cluster_api_provider_ucl.Scope.{State, Op, call, with_cluster}
use cluster_api_provider_ucl.Scope.Calls.{reply_to, after_call}
use cluster_api_provider_ucl.Service.Holds.{
  Keeps-request_of, Keeps-request_but_of, Keeps-clock, Keeps-wait_for_of,
}
use cluster_api_provider_ucl.Service.Timer.{Timer, fired, drained, minute, new_timer}
use cluster_api_provider_ucl.Service.Wait.{state_is, now_is, sleep_for, after_test, wait_for}
use cluster_api_provider_ucl.Service.Wait.Round.{
  asking, hosts_of, wait_for-answered, wait_for-unanswered,
}
use cluster_api_provider_ucl.Service.Terminate.{
  terminate_rounds, stopped_loop, deleted_loop, power_off, send_terminate, destroy, shut_down,
  terminate_uhost,
}

-- No request to terminate a host.
abbrev pub IsMild : Call → Type 0
IsMild (terminate_uhost_instance r) = ⊥
IsMild _ = Unit {0}

-- Two properties of the world that follow what it was asked: `Waiting` stays until the host of this id
-- is described as stopped, which gives `Stopped`; only `Stopped` survives a request to terminate it.
pub record Tracks (E : Environment) (id : String) (Waiting Stopped : E.World → Type 0)
    : Type 0 where
  pub waits : (c : Call) (w : E.World) → IsMild c → Waiting w → Waiting (E.invoke c w).1
  pub waits_on : (d : ℕ) (w : E.World) → Waiting w → Waiting (E.sleep d w)
  pub seen :
      (r : DescribeUhostInstanceRequest) (w : E.World) (host : UhostInstanceSet)
      (hosts : List UhostInstanceSet)
      → r.uhost_ids ≡ id ∷ []
      → (E.invoke (describe_uhost_instance r) w).0.error ≡ none
      → (E.invoke (describe_uhost_instance r) w).0.body ≡ host ∷ hosts
      → (host.state == E.state_stopped) ≡ true
      → Waiting w
      → Stopped (E.invoke (describe_uhost_instance r) w).1
  pub stays : (c : Call) (w : E.World) → IsMild c → Stopped w → Stopped (E.invoke c w).1
  pub stays_on : (d : ℕ) (w : E.World) → Stopped w → Stopped (E.sleep d w)
  pub terminated :
      (r : TerminateUhostInstanceRequest) (w : E.World)
      → r.uhost_id ≡ id
      → Stopped w
      → Stopped (E.invoke (terminate_uhost_instance r) w).1

module _ (E : Environment) (id : String) {U V : E.World → Type 0} (tracks : Tracks E id U V) where
  abbrev Waiting : State E.World → Type 0
  Waiting s = U s.world

  abbrev Stopped : State E.World → Type 0
  Stopped s = V s.world

  mild_call : (c : Call) → IsMild c → Keeps Waiting (call E c)
  unfolding call
  mild_call c mild = record { at = λ s h. tracks.waits c s.world mild h }

  Keeps-mild : (c : Call) → IsMild c → Keeps Stopped (call E c)
  unfolding call
  Keeps-mild c mild = record { at = λ s h. tracks.stays c s.world mild h }

  Keeps-pause : (d : ℕ) → Keeps Stopped (sleep_for E d)
  unfolding sleep_for
  Keeps-pause d = record { at = λ s h. tracks.stays_on d s.world h }

  Keeps-terminate :
      (r : TerminateUhostInstanceRequest)
      → r.uhost_id ≡ id
      → Keeps Stopped (call E (terminate_uhost_instance r))
  unfolding call
  Keeps-terminate r named = record { at = λ s h. tracks.terminated r s.world named h }

  Keeps-destroy :
      (c : UcloudCluster) (zone : String) (t : Timer) → Keeps Stopped (destroy E c id zone t)
  unfolding destroy send_terminate
  Keeps-destroy c zone t =
      Keeps-bind _ _ (Keeps-request_of E _ (terminate_uhost_instance _) (Keeps-terminate _ refl))
        (λ _. Keeps-bind _ _ (Keeps-clock E) (λ now.
          Keeps-bind _ _
            (Keeps-wait_for_of E terminate_rounds (deleted_loop E c id zone) _
              (Keeps-mild (describe_uhost_instance _) tt) (Keeps-pause _))
            (λ _. Keeps-pure tt)))

  module _ (c : UcloudCluster) (zone : String) where
    -- The waiting loop returned with the host stopped, or it waits still.
    abbrev Left : {A : Type 0} → Result A × State E.World → Type 0
    Left (ok a, s) = Stopped s
    Left (err e, s) = Waiting s
    Left (panic why, s) = Waiting s

    abbrev loop_test :
        (rounds : ℕ) (t : Timer) (hosts : List UhostInstanceSet) → Op E (UhostInstanceSet × Timer)
    loop_test rounds t hosts =
        after_test E (stopped_loop E c id zone) t hosts
          (λ t'. wait_for E rounds (stopped_loop E c id zone) t') (state_is E.state_stopped hosts)

    after_test-Left :
        (rounds : ℕ) (t : Timer) (hosts : List UhostInstanceSet) (s : State E.World)
        → Waiting s
        → ((host : UhostInstanceSet) (others : List UhostInstanceSet)
            → hosts ≡ host ∷ others
            → (host.state == E.state_stopped) ≡ true
            → Stopped s)
        → ((t' : Timer) (s' : State E.World)
            → Waiting s'
            → Left (wait_for E rounds (stopped_loop E c id zone) t' s'))
        → Left (loop_test rounds t hosts s)
    unfolding state_is now_is sleep_for ◌>>=◌
    after_test-Left rounds t [] s w see next = w
    after_test-Left rounds t (host ∷ hosts) s w see next =
        elim (Bool-cases (host.state == E.state_stopped)) [
          | inl off ↦ rw off (see host hosts refl off)
          | inr on ↦ elim (Bool-cases (fired (E.now s.world) t)) [
            | inl late ↦ rw (on, late) w
            | inr early ↦
                rw (on, early) (next (drained (E.now s.world) t) _ (tracks.waits_on _ s.world w))
          ]
        ]

    wait_for-Left :
        (rounds : ℕ) (t : Timer) (s : State E.World)
        → Waiting s
        → Left (wait_for E rounds (stopped_loop E c id zone) t s)
    unfolding wait_for ◌>>=◌
    wait_for-Left zero t s w = w
    wait_for-Left (suc rounds) t s w =
        elim (Option-cases (reply_to E (asking E (stopped_loop E c id zone)) s).error) [
          | inl e ↦ rw (wait_for-answered E (stopped_loop E c id zone) rounds t s e) (
              after_test-Left rounds t (hosts_of E (stopped_loop E c id zone) s)
                (after_call E (asking E (stopped_loop E c id zone)) s)
                (tracks.waits (asking E (stopped_loop E c id zone)) s.world tt w)
                (λ host others found off. tracks.seen _ s.world host others refl e found off w)
                (λ t' s' w'. wait_for-Left rounds t' s' w'))
          | inr (e, q) ↦
              rw (wait_for-unanswered E (stopped_loop E c id zone) rounds t s e q)
                (tracks.waits (asking E (stopped_loop E c id zone)) s.world tt w)
        ]

    -- The method ends with the host seen stopped, or it waits still.
    abbrev Either : {A : Type 0} → Result A × State E.World → Type 0
    Either r = U r.1.world ⊎ V r.1.world

    continue-Either :
        {A B : Type 0} (r : Result A) (s : State E.World) (rest : A → Op E B)
        → Left (r, s)
        → ((a : A) → Keeps Stopped (rest a))
        → Either (continue r rest s)
    continue-Either (ok a) s rest left kept = inr ((kept a).at s left)
    continue-Either (err e) s rest left kept = inl left
    continue-Either (panic why) s rest left kept = inl left

    -- What waits still either goes on or ends.
    went_on :
        {A B : Type 0} (r : Result A) (s : State E.World) (rest : A → Op E B)
        → Waiting s
        → ((a : A) (t : State E.World) → Waiting t → Either (rest a t))
        → Either (continue r rest s)
    went_on (ok a) s rest w next = next a s w
    went_on (err e) s rest w next = inl w
    went_on (panic why) s rest w next = inl w

    Either-bind :
        {A B : Type 0} (action : Op E A) (rest : A → Op E B) (s : State E.World)
        → Keeps Waiting action
        → Waiting s
        → ((a : A) (t : State E.World) → Waiting t → Either (rest a t))
        → Either ((action >>= rest) s)
    unfolding ◌>>=◌
    Either-bind action rest s kept w next =
        went_on (action s).0 (action s).1 rest (kept.at s w) next

    wait_for-Either :
        {B : Type 0} (rest : UhostInstanceSet × Timer → Op E B) (t : Timer) (s : State E.World)
        → Waiting s
        → ((r : UhostInstanceSet × Timer) → Keeps Stopped (rest r))
        → Either ((wait_for E terminate_rounds (stopped_loop E c id zone) t >>= rest) s)
    unfolding ◌>>=◌
    wait_for-Either rest t s w kept =
        continue-Either _ _ rest (wait_for-Left terminate_rounds t s w) kept

    shut_down-Either : (s : State E.World) → Waiting s → Either (shut_down E c id zone s)
    unfolding shut_down power_off
    shut_down-Either s w =
        Either-bind _ _ s
          (Keeps-request_of E _ (poweroff_uhost_instance _)
            (mild_call (poweroff_uhost_instance _) tt))
          w
          (λ _ t off. Either-bind _ _ t (Keeps-clock E) off (λ now t' timed.
            wait_for-Either _ (new_timer (5 * minute) now) t' timed
              (λ r. Keeps-destroy c zone r.1)))

    abbrev shut_down_hosts : List UhostInstanceSet → Op E Unit
    shut_down_hosts hosts = elim hosts [ [] ↦ pure tt | _ ∷ _ ↦ shut_down E c id zone ]

    described-Either :
        (hosts : List UhostInstanceSet) (s : State E.World)
        → Waiting s
        → Either (shut_down_hosts hosts s)
    unfolding ◌>>=◌
    described-Either [] s w = inl w
    described-Either (h ∷ hosts) s w = shut_down-Either s w

module _ (E : Environment) (id : String) {U V : E.World → Type 0} (tracks : Tracks E id U V) where
  -- Take two properties of the world, `U` and `V`, such that calls other than a termination and pauses
  -- keep either; `U` turns into `V` when UCloud, asked for the host of this id alone, answers without an
  -- error and with a first host that is stopped; and a request to terminate the host of this id keeps
  -- `V`, while nothing is said of `U`. If `U` holds when `terminateUHost` is called, then `U` or `V`
  -- holds when it ends, whether it returns, fails or panics. With properties that keep account of the
  -- requests this says that it asks for the termination of no other host, and of this one only after it
  -- was described as stopped.
  pub terminate_uhost-Tracks :
      (zone : String) (s : State E.World)
      → U s.world
      → U (terminate_uhost E id zone s).1.world ⊎ V (terminate_uhost E id zone s).1.world
  unfolding terminate_uhost with_cluster
  terminate_uhost-Tracks zone s w =
      Either-bind E id tracks s.ucloud_cluster zone _ _ s
        (Keeps-request_but_of E _ _ (describe_uhost_instance _)
          (mild_call E id tracks (describe_uhost_instance _) tt))
        w (λ hosts t held. described-Either E id tracks s.ucloud_cluster zone hosts t held)
