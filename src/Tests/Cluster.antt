-- ===== src/Tests/Cluster.antt =====
-- A cluster for the tests of controllers/managedroost_controller.go: the finalizers of
-- controllerutil and `SetStatusCondition` as functions on lists, and some resources.
use roost_keeper.Prelude.{
  ◌≡◌, ◌∷◌, ◌++◌, if◌then◌else◌, String, List, pos, true, false, none, some, [], refl, arith,
  eq_iff, str_eq, member,
}
use roost_keeper.Roost.{
  Condition, status_of, Spec, Phase, Roost, unset, ready, tearing_down, ok, text, HelmRelease,
}
use roost_keeper.Lifecycle.{release_not_found, release}
use roost_keeper.Controller.{Kube, KubeLaws, managed_roost_finalizer, Env, found}

-- `controllerutil.RemoveFinalizer`
abbrev remove_name : List String → String → List String
remove_name [] f = []
remove_name (x ∷ xs) f = let rest = remove_name xs f in if str_eq x f then rest else x ∷ rest

-- `meta.SetStatusCondition`
abbrev set_condition : List Condition → Condition → List Condition
set_condition [] c = c ∷ []
set_condition (d ∷ ds) c = if str_eq d.type_ c.type_ then c ∷ ds else d ∷ set_condition ds c

abbrev pub cluster : Kube
cluster = record {
  contains_finalizer = λ fs f. member f fs;
  add_finalizer = λ fs f. if member f fs then fs else fs ++ (f ∷ []);
  remove_finalizer = remove_name;
  set_status_condition = set_condition;
}

member-append : (f : String) (fs : List String) → member f (fs ++ (f ∷ [])) ≡ true
member-append f [] = ground (arith, eq_iff f f)
member-append f (x ∷ xs) = ground (arith, member-append f xs)

member-remove_name : (f : String) (fs : List String) → member f (remove_name fs f) ≡ false
member-remove_name f [] = refl
member-remove_name f (x ∷ xs) = ground (arith, member-remove_name f xs)

status_of-set_condition :
    (cs : List Condition) (c : Condition) (t : String)
    → status_of t (set_condition cs c)
      ≡ (if str_eq c.type_ t then some c.status else status_of t cs)
status_of-set_condition [] c t = ground arith
status_of-set_condition (d ∷ ds) c t = ground (
  arith,
  status_of-set_condition ds c t,
  eq_iff d.type_ c.type_,
  eq_iff c.type_ t,
  eq_iff d.type_ t,
)

pub cluster_laws : KubeLaws cluster
cluster_laws = record {
  contains-add = λ fs f. ground (arith, member-append f fs);
  contains-remove = λ fs f. member-remove_name f fs;
  status_of-set = status_of-set_condition;
}

-- a chart to install, without a teardown policy
abbrev pub nginx : Spec
nginx = record {
  chart_name = "nginx";
  chart_repository_url = "https://charts.example.com";
  chart_version = "1.2.3";
  health_checks = [];
  teardown_policy = none;
}

-- the chart with a time limit of an hour
abbrev pub limited : Spec
limited = record nginx {
  teardown_policy = some (record {
    triggers =
        record {
          type_ = "timeout";
          timeout = some (pos 3_600_000_000_000);
          failure_count = none;
          resource_threshold = false;
          schedule = "";
          webhook = false;
        }
        ∷ [];
    require_manual_approval = false;
    data_preservation = none;
  });
}

abbrev pub roost_in : Phase → List String → Spec → Roost
roost_in p fs spec = record {
  name = "web";
  namespace = "default";
  finalizers = fs;
  deletion_timestamp = none;
  creation_timestamp = 0;
  generation = pos 1;
  annotations = [];
  spec = spec;
  status = record {
    phase = p;
    helm_release = none;
    health_checks = [];
    health = "";
    teardown = none;
    conditions = [];
    last_update_time = none;
    observed_generation = pos 0;
  };
}

abbrev pub new_roost : Roost
new_roost = roost_in unset [] nginx

abbrev pub ready_roost : Roost
ready_roost = roost_in ready (managed_roost_finalizer ∷ []) nginx

abbrev pub doomed_roost : Roost
doomed_roost = roost_in tearing_down (managed_roost_finalizer ∷ []) nginx

abbrev pub deleted_roost : Roost
deleted_roost = record ready_roost { deletion_timestamp = some 40 }

-- a pass in which every call succeeds
abbrev pub fine_env : Env
fine_env = record {
  fetched = found;
  update = none;
  status_update = none;
  release_exists = ok false;
  install = ok true;
  has_lifecycle_manager = false;
  helm_status = release_not_found;
  needs_upgrade = ok false;
  upgrade = none;
  check_health = ok true;
  uninstall = none;
}

-- the same, but for Helm's uninstall
abbrev pub stuck_env : Env
stuck_env = record fine_env { uninstall = some (text "timed out") }

abbrev pub failed_release : HelmRelease
failed_release = record { name = "web"; status = "failed" }

-- a lifecycle manager that sees a failed release
abbrev pub watched_env : Env
watched_env = record fine_env {
  has_lifecycle_manager = true;
  helm_status = release (some failed_release);
}
