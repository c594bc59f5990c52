-- ===== src/Controller/Deletion.antt =====
-- Deletion, and what follows a teardown, in controllers/managedroost_controller.go.
use roost_keeper.Prelude.{◌≡◌, ◌∷◌, if◌then◌else◌, ℕ, List, Option, none, some, [], arith}
use roost_keeper.Roost.{Message, Roost}
use roost_keeper.Controller.{
  Kube, Env, Outcome, Action, found, helm_uninstall, update_object, event, managed_roost_finalizer,
  done, fail_with, fail_after, fast_requeue_interval,
}
use roost_keeper.Controller.Writes.{update_roost}
use roost_keeper.Controller.Teardown.{reconcile_delete}
use roost_keeper.Controller.Reconcile.{reconcile}
use roost_keeper.Controller.Finalizers.{is_kept}

abbrev pub without_finalizer : Kube → Roost → Roost
without_finalizer k r = record r {
  finalizers = k.remove_finalizer r.finalizers managed_roost_finalizer;
}

abbrev pub with_finalizer : Kube → Roost → Roost
with_finalizer k r = record r { finalizers = k.add_finalizer r.finalizers managed_roost_finalizer }

-- what deleting a roost stores, returns and calls, by what Helm and the cluster return
unfoldable pub deletion :
    Kube → Roost → Option Message → Option Message → Roost × Outcome × List Action
deletion k r (some e) u =
    (r, fail_after fast_requeue_interval e, helm_uninstall ∷ event "UninstallFailed" ∷ [])
deletion k r none (some e) =
    (r, fail_with e, helm_uninstall ∷ event "UninstallCompleted" ∷ update_object ∷ [])
deletion k r none none =
    (without_finalizer k r, done, helm_uninstall ∷ event "UninstallCompleted" ∷ update_object ∷ [])

module _ (k : Kube) (env : Env) (now : ℕ) (r : Roost) where
  -- A deleted roost that the cluster returns, and that has the finalizer, is first uninstalled; the
  -- finalizer goes only after that, a failure at either step stores nothing and is returned, and a
  -- failed uninstall is tried again. A deleted roost without the finalizer is left alone.
  pub reconcile-deletion :
      {t : ℕ}
      → env.fetched ≡ found
      → r.deletion_timestamp ≡ some t
      → let p = reconcile k env now r in
        ◌≡◌ {A = Roost × Outcome × List Action}
          (p.0.stored, p.1, p.0.log)
          (if is_kept k r then deletion k r env.uninstall env.update else (r, done, []))
  unfolding reconcile reconcile_delete update_roost deletion
  reconcile-deletion f d = ground arith
