-- ===== src/Controller/Finalizers.antt =====
-- controllers/ucloudcluster_controller.go: the loop over the finalizers that machines have left on a
-- cluster, and the return value of both reconcilers.
pub mod Emits
pub mod Waits
pub mod Skips
pub mod Marks
use cluster_api_provider_ucl.Prelude.{
  ℕ, zero, suc, ◌+◌, ◌*◌, String, ◌<>◌, Bool, true, false, Option, none, some, List, [], ◌∷◌,
  length, get_elem?, if◌then◌else◌,
}
use cluster_api_provider_ucl.Prelude.Text.{has_suffix, split}
use cluster_api_provider_ucl.Go.{Result, ok, err, panic, pure, ◌>>=◌, ◌>>◌}
use cluster_api_provider_ucl.Api.Cluster.{UcloudCluster}
use cluster_api_provider_ucl.Cloud.{Environment, Reply, get_ucloud_machine}
use cluster_api_provider_ucl.Api.Machine.{UcloudMachine}
use cluster_api_provider_ucl.Scope.{ClusterScope, Op, State, call, with_cluster, update_cluster}
use cluster_api_provider_ucl.Scope.Cluster

-- `ctrl.Result`; 0 asks for no requeue. Times are in milliseconds.
pub record CtrlResult : Type 0 where
  pub requeue_after : ℕ

abbrev pub done : CtrlResult
done = record { requeue_after = 0 }

abbrev pub retry_after : ℕ → CtrlResult
retry_after seconds = record { requeue_after = seconds * 1000 }

abbrev pub machine_suffix : String
machine_suffix = ".ucloudmachine"

-- The finalizer that a machine's reconciler puts on its cluster.
abbrev pub machine_mark : String → String
machine_mark name = name <> machine_suffix

abbrev pub head_or_empty : List String → String
head_or_empty [] = ""
head_or_empty (w ∷ _) = w

-- `strings.Split(finalizer, ".")[0]`.
unfoldable pub marked_machine : String → String
marked_machine finalizer = head_or_empty (split finalizer b'.')

abbrev pub set_finalizers : List String → UcloudCluster → UcloudCluster
set_finalizers fs c = record c { meta = record (c.meta) { finalizers = fs } }

module _ (E : Environment) where
  -- `apierrors.IsNotFound(err)`, which is false for a nil error.
  abbrev pub missing : {A : Type 0} → Reply A → Bool
  missing reply = elim reply.error [ none ↦ false | some e ↦ E.is_not_found e ]

  -- `RemoveFinalizer` on the cluster; the result is what the slice of the loop reads afterwards.
  unfoldable pub remove_mark : String → List String → Op E (List String)
  remove_mark finalizer slice s =
      let removed = E.remove_finalizer finalizer s.ucloud_cluster.meta.finalizers slice in
      (ok removed.1, record s { ucloud_cluster = set_finalizers removed.0 s.ucloud_cluster })

module _ (E : Environment) (sc : ClusterScope) where
  -- One round: the slice as it reads afterwards, or nothing if the machine is still there.
  unfoldable pub check_mark : String → List String → Op E (Option (List String))
  check_mark finalizer slice =
      if has_suffix finalizer machine_suffix
      then (do
        reply ← call E (get_ucloud_machine (Cluster.namespace sc) (marked_machine finalizer))
        if missing E reply
            then (do slice' ← remove_mark E finalizer slice; pure (some slice'))
            else pure none)
      else pure (some slice)

  -- `for _, finalizer := range finalizers`: the first argument counts the rounds left, the second is
  -- the index, and the element is read from the slice as it is by then. The result tells whether
  -- every round found its machine gone.
  unfoldable pub check_marks : ℕ → ℕ → List String → Op E Bool
  check_marks zero i slice = pure true
  check_marks (suc rounds) i slice = elim (get_elem? slice i) [
    | none ↦ pure true
    | some finalizer ↦ do
      next ← check_mark finalizer slice
      elim next [ none ↦ pure false | some slice' ↦ check_marks rounds (i + 1) slice' ]
  ]

  unfoldable pub machines_gone : Op E Bool
  machines_gone = with_cluster λ c. check_marks (length c.meta.finalizers) 0 c.meta.finalizers

-- `defer func() { if err := Close(); err != nil && reterr == nil { reterr = err } }()`.
abbrev pub after_close : {A : Type 0} → Result A → Result (Unit {0}) → Result A
after_close (panic why) closed = panic why
after_close r (panic why) = panic why
after_close (err e) closed = err e
after_close (ok a) (err e) = err e
after_close (ok a) (ok _) = ok a
