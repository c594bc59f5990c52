-- ===== src/Tests/Admissions.antt =====
-- The admission of internal/webhook and the configuration of internal/events on concrete values.
use roost_keeper.Prelude.{◌≡◌, pos, true, false, none, some, refl}
use roost_keeper.Roost.{text, ok, err}
use roost_keeper.Admission.{
  Object, Request, patched, errored, is_allowed, mutate_simple, handle, handle_managed_roost,
  validate_managed_roost, mutate_managed_roost, validate_simple, validate_tenancy,
  validate_observability,
}
use roost_keeper.Admission.Verdict.{admissible, handle-is_admissible}
use roost_keeper.EventConfig.{
  default_config, validate, validate_kafka, validate_topics, validate_storage,
}

abbrev object : Object
object = record {
  has_labels = false;
  has_annotations = true;
  chart_name = "nginx";
  chart_version = "1.2.3";
  repository_url = "https://charts.example.com";
  namespace = "web";
  tenancy = some ("acme", some "acme");
  observability = some (some (true, pos 15_000_000_000));
}

abbrev request : Request
request = record { kind = "ManagedRoost"; object = ok object; old_object = some none }

handle-is_admissible_example :
    (is_allowed (handle 7 request) ≡ admissible (ok object) (some none))
    × (admissible (ok object) (some none) ≡ true
        → (o : Object) × (request.object ≡ ok o)
          × (handle 7 request
              ≡ patched "Applied tenant labeling and security policies" (mutate_simple 7 o)))
handle-is_admissible_example = handle-is_admissible 7 request refl

admits : is_allowed (handle 7 request) ≡ true
unfolding handle handle_managed_roost validate_managed_roost mutate_managed_roost mutate_simple
    validate_simple validate_tenancy validate_observability
admits = refl

refuses_undecoded :
    handle 7 (record request { object = err (text "bad") }) ≡ errored 400 (text "bad")
unfolding handle handle_managed_roost validate_managed_roost mutate_managed_roost
refuses_undecoded = refl

accepts_default : validate (default_config "roost.lifecycle" "roost.triggers") ≡ none
unfolding validate validate_kafka validate_topics validate_storage default_config
accepts_default = refl
