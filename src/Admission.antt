-- ===== src/Admission.antt =====
-- The admission of ManagedRoosts: internal/webhook/admission.go and
-- internal/webhook/policy_simple.go. What the decoder answers is an argument; the source of a
-- response's status codes is `net/http`.
pub mod Verdict
use Prim.Native.String.{len}
use roost_keeper.Prelude.{
  ◌&&◌, ◌∷◌, ◌++◌, if◌then◌else◌, ℕ, ℤ, String, List, Option, Bool, pos, true, false, not, none,
  some, [], ltb, str_eq, ltb_ℤ,
}
use roost_keeper.Roost.{Message, text, with_duration, Reply, ok, err}

-- `ManagedRoost`, as far as the policies read it: whether it has the maps of labels and
-- annotations, its chart, its namespace, the tenancy (the tenant, and that of its RBAC
-- specification), and the metrics of its observability (whether they are enabled, and the interval)
pub record Object : Type 0 where
  pub has_labels : Bool
  pub has_annotations : Bool
  pub chart_name : String
  pub chart_version : String
  pub repository_url : String
  pub namespace : String
  pub tenancy : Option (String × Option String)
  pub observability : Option (Option (Bool × ℤ))

-- `PolicyResult`
pub record PolicyResult : Type 0 where
  pub allowed : Bool
  pub message : String
  pub code : ℕ
  pub details : List (String × Message)

abbrev pub passed : String → PolicyResult
passed message = record { allowed = true; message = message; code = 0; details = [] }

abbrev pub refused : String → List (String × Message) → PolicyResult
refused message details = record {
  allowed = false;
  message = message;
  code = 422;
  details = details;
}

-- `ValidateSimple`
unfoldable pub validate_simple : Object → PolicyResult
validate_simple o =
    if str_eq o.chart_name ""
    then refused "Chart name is required" (("field", text "spec.chart.name") ∷ [])
    else if str_eq o.chart_version ""
    then refused "Chart version is required" (("field", text "spec.chart.version") ∷ [])
    else if str_eq o.repository_url ""
    then refused "Chart repository URL is required"
        (("field", text "spec.chart.repository.url") ∷ [])
    else if not (str_eq o.namespace "") && ltb 63 (len o.namespace)
    then refused "Namespace name must be 63 characters or less"
        (("field", text "spec.namespace") ∷ ("value", text o.namespace) ∷ [])
    else passed "Validation passed"

-- `ValidateTenancy`
abbrev rbac_checked : Option String → PolicyResult
rbac_checked none = passed "Tenancy validation passed"
rbac_checked (some tenant) =
    if str_eq tenant ""
    then refused "RBAC tenant ID is required when RBAC is configured"
        (("field", text "spec.tenancy.rbac.tenantId") ∷ [])
    else passed "Tenancy validation passed"

abbrev tenancy_checked : Option (String × Option String) → PolicyResult
tenancy_checked none = passed "No tenancy configuration to validate"
tenancy_checked (some (tenant, rbac)) =
    if not (str_eq tenant "") && ltb 253 (len tenant)
    then refused "Tenant ID must be 253 characters or less"
        (("field", text "spec.tenancy.tenantId") ∷ ("value", text tenant) ∷ [])
    else rbac_checked rbac

unfoldable pub validate_tenancy : Object → PolicyResult
validate_tenancy o = tenancy_checked o.tenancy

-- `ValidateObservability`
abbrev metrics_checked : Option (Bool × ℤ) → PolicyResult
metrics_checked none = passed "Observability validation passed"
metrics_checked (some (enabled, interval)) =
    if enabled && ltb_ℤ interval (pos 1_000_000_000)
    then refused "Metrics interval must be at least 1 second" (
        ("field", text "spec.observability.metrics.interval")
        ∷ ("value", with_duration "%v" interval)
        ∷ [])
    else passed "Observability validation passed"

abbrev observability_checked : Option (Option (Bool × ℤ)) → PolicyResult
observability_checked none = passed "No observability configuration to validate"
observability_checked (some metrics) = metrics_checked metrics

unfoldable pub validate_observability : Object → PolicyResult
validate_observability o = observability_checked o.observability

-- the value of a JSON patch: an empty map, a text, or an instant in the format of RFC 3339
pub data PatchValue : Type 0 where
  empty_map : PatchValue
  text_value : String → PatchValue
  instant : ℕ → PatchValue

-- a `jsonpatch.JsonPatchOperation` whose operation is "add"
pub record Patch : Type 0 where
  pub path : String
  pub value : PatchValue

abbrev pub add : String → PatchValue → Patch
add path value = record { path = path; value = value }

abbrev pub tenant_or_default : Option (String × Option String) → String
tenant_or_default none = "default"
tenant_or_default (some (tenant, rbac)) = if str_eq tenant "" then "default" else tenant

-- `MutateSimple`, at the instant `now`
unfoldable pub mutate_simple : ℕ → Object → List Patch
mutate_simple now o =
    (if o.has_labels then [] else add "/metadata/labels" empty_map ∷ [])
    ++ (add "/metadata/labels/roost-keeper.io~1tenant" (text_value (tenant_or_default o.tenancy))
        ∷ add "/metadata/labels/roost-keeper.io~1managed-by" (text_value "roost-keeper")
        ∷ [])
    ++ (if o.has_annotations then [] else add "/metadata/annotations" empty_map ∷ [])
    ++ (add "/metadata/annotations/roost-keeper.io~1created-by-webhook" (instant now) ∷ [])

-- `admission.Response`, by the functions of controller-runtime that make one
pub data Response : Type 0 where
  allowed : String → Response
  denied : String → Response
  errored : ℕ → Message → Response
  patched : String → List Patch → Response

abbrev pub is_allowed : Response → Bool
is_allowed (allowed m) = true
is_allowed (denied m) = false
is_allowed (errored code e) = false
is_allowed (patched m ps) = true

abbrev pub patches_of : Response → List Patch
patches_of (allowed m) = []
patches_of (denied m) = []
patches_of (errored code e) = []
patches_of (patched m ps) = ps

-- `admission.Request`: its kind, what the decoder makes of the object, and of the old object
-- where there is one
pub record Request : Type 0 where
  pub kind : String
  pub object : Reply Object
  pub old_object : Option (Option Message)

-- `ValidateManagedRoost`, on the decoded object
abbrev pub validated : Object → Response
validated o =
    let simple = validate_simple o in
    let tenancy = validate_tenancy o in
    let observability = validate_observability o in
    if not simple.allowed
    then denied simple.message
    else if not tenancy.allowed
    then denied tenancy.message
    else if not observability.allowed
    then denied observability.message
    else allowed ""

abbrev pub old_decoded : Object → Option (Option Message) → Response
old_decoded o none = validated o
old_decoded o (some none) = validated o
old_decoded o (some (some e)) = errored 400 e

abbrev pub validation_of : Reply Object → Option (Option Message) → Response
validation_of (ok o) old = old_decoded o old
validation_of (err e) old = errored 400 e

unfoldable pub validate_managed_roost : Request → Response
unfolding validate_simple validate_tenancy validate_observability
validate_managed_roost req = validation_of req.object req.old_object

-- `MutateManagedRoost`
abbrev pub mutated : List Patch → Response
mutated [] = allowed ""
mutated (p ∷ ps) = patched "Applied tenant labeling and security policies" (p ∷ ps)

abbrev pub mutation_of : ℕ → Reply Object → Response
mutation_of now (ok o) = mutated (mutate_simple now o)
mutation_of now (err e) = errored 400 e

unfoldable pub mutate_managed_roost : ℕ → Request → Response
unfolding mutate_simple
mutate_managed_roost now req = mutation_of now req.object

-- `handleManagedRoost`
abbrev pub has_patches : List Patch → Bool
has_patches [] = false
has_patches (p ∷ ps) = true

abbrev pub combined : Response → Response → Response
combined mutation validation =
    if not (is_allowed mutation)
    then mutation
    else if not (is_allowed validation)
    then validation
    else if has_patches (patches_of mutation)
    then mutation
    else validation

unfoldable pub handle_managed_roost : ℕ → Request → Response
unfolding mutate_managed_roost validate_managed_roost
handle_managed_roost now req = combined (mutate_managed_roost now req) (validate_managed_roost req)

-- `Handle`
unfoldable pub handle : ℕ → Request → Response
unfolding handle_managed_roost
handle now req =
    if str_eq req.kind "ManagedRoost"
    then handle_managed_roost now req
    else allowed "unhandled resource type"
