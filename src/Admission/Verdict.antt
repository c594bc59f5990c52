-- ===== src/Admission/Verdict.antt =====
-- Which ManagedRoosts internal/webhook/admission.go admits, and with which patches.
use Prim.Native.String.{len}
use roost_keeper.Prelude.{
  ◌≡◌, ◌&&◌, ◌||◌, ◌∷◌, if◌then◌else◌, ℕ, ℤ, String, List, Option, Bool, pos, true, false, not,
  none, some, [], refl, inl, inr, arith, leb, str_eq, Bool-cases, leb_ℤ,
}
use roost_keeper.Roost.{Message, Reply, ok, err}
use text.Mathlib.Text.{starts_with}
use roost_keeper.Admission.{
  has_patches, mutation_of, validation_of, validated, mutated, old_decoded, combined, Object,
  validate_simple, validate_tenancy, validate_observability, Patch, mutate_simple, Response,
  patched, is_allowed, Request, validate_managed_roost, mutate_managed_roost, handle_managed_roost,
  handle,
}

-- what an object must have to be admitted
abbrev named_chart : Object → Bool
named_chart o =
    not (str_eq o.chart_name "")
    && not (str_eq o.chart_version "")
    && not (str_eq o.repository_url "")

abbrev tenancy_fits : Option (String × Option String) → Bool
tenancy_fits none = true
tenancy_fits (some (tenant, none)) = str_eq tenant "" || leb (len tenant) 253
tenancy_fits (some (tenant, some rbac)) =
    (str_eq tenant "" || leb (len tenant) 253) && not (str_eq rbac "")

abbrev metrics_fit : Option (Option (Bool × ℤ)) → Bool
metrics_fit none = true
metrics_fit (some none) = true
metrics_fit (some (some (enabled, interval))) = not enabled || leb_ℤ (pos 1_000_000_000) interval

abbrev pub fits : Object → Bool
fits o =
    named_chart o
    && (str_eq o.namespace "" || leb (len o.namespace) 63)
    && tenancy_fits o.tenancy
    && metrics_fit o.observability

simple-fits :
    (o : Object)
    → (validate_simple o).allowed
      ≡ named_chart o && (str_eq o.namespace "" || leb (len o.namespace) 63)
unfolding validate_simple
simple-fits o = ground arith

tenancy-fits : (o : Object) → (validate_tenancy o).allowed ≡ tenancy_fits o.tenancy
unfolding validate_tenancy
tenancy-fits o = ground arith

observability-fits : (o : Object) → (validate_observability o).allowed ≡ metrics_fit o.observability
unfolding validate_observability
observability-fits o = ground arith

validated-fits : (o : Object) → is_allowed (validated o) ≡ fits o
validated-fits o = ground (arith, simple-fits o, tenancy-fits o, observability-fits o)

-- a mutation always has patches
mutated_lem :
    (now : ℕ) (o : Object)
    → mutated (mutate_simple now o)
      ≡ patched "Applied tenant labeling and security policies" (mutate_simple now o)
unfolding mutate_simple
mutated_lem now o = elim (Bool-cases o.has_labels) [ inl e ↦ rw e refl | inr e ↦ rw e refl ]

mutate_simple-some : (now : ℕ) (o : Object) → has_patches (mutate_simple now o) ≡ true
unfolding mutate_simple
mutate_simple-some now o = elim (Bool-cases o.has_labels) [ inl e ↦ rw e refl | inr e ↦ rw e refl ]

-- a mutation with patches answers for a validation that passes
combined_lem :
    (m : String) (ps : List Patch) (v : Response)
    → has_patches ps ≡ true
    → combined (patched m ps) v ≡ (if is_allowed v then patched m ps else v)
combined_lem m ps v h = ground (arith, h)

abbrev pub fits_with : Object → Option (Option Message) → Bool
fits_with o none = fits o
fits_with o (some none) = fits o
fits_with o (some (some e)) = false

old_decoded-fits :
    (o : Object) (old : Option (Option Message)) → is_allowed (old_decoded o old) ≡ fits_with o old
old_decoded-fits o none = validated-fits o
old_decoded-fits o (some none) = validated-fits o
old_decoded-fits o (some (some e)) = refl

-- a request whose object, and old object where there is one, can be decoded, and whose object fits
abbrev pub admissible : Reply Object → Option (Option Message) → Bool
admissible (ok o) old = fits_with o old
admissible (err e) old = false

abbrev message : String
message = "Applied tenant labeling and security policies"

answer-admissible :
    (now : ℕ) (object : Reply Object) (old : Option (Option Message))
    → (is_allowed (combined (mutation_of now object) (validation_of object old))
        ≡ admissible object old)
      × (admissible object old ≡ true
          → (o : Object) × (object ≡ ok o)
            × (combined (mutation_of now object) (validation_of object old)
                ≡ patched message (mutate_simple now o)))
answer-admissible now (err e) old = (refl, λ h. absurd (cc))
answer-admissible now (ok o) old =
    let answer : combined (mutation_of now (ok o)) (old_decoded o old) ≡ (
        if is_allowed (old_decoded o old)
        then patched message (mutate_simple now o)
        else old_decoded o old) =
      rw (mutated_lem now o) (
        combined_lem message (mutate_simple now o) (old_decoded o old)
          (mutate_simple-some now o)) in
    (
      ground (arith, answer, old_decoded-fits o old),
      λ h. (o, refl, ground (arith, answer, old_decoded-fits o old, h)),
    )

-- A ManagedRoost is admitted exactly when it, and its old object where there is one, can be
-- decoded, it names a chart with a version and a repository, its namespace has at most 63
-- bytes and its tenant at most 253, an RBAC specification names a tenant, enabled or not, and the
-- metrics, where they are enabled, have an interval of at least a second. An admitted one is always
-- patched.
pub handle-is_admissible :
    (now : ℕ) (req : Request)
    → req.kind ≡ "ManagedRoost"
    → (is_allowed (handle now req) ≡ admissible req.object req.old_object)
      × (admissible req.object req.old_object ≡ true
          → (o : Object) × (req.object ≡ ok o)
            × (handle now req
                ≡ patched "Applied tenant labeling and security policies" (mutate_simple now o)))
unfolding handle handle_managed_roost validate_managed_roost mutate_managed_roost
handle-is_admissible now req k = rw k (answer-admissible now req.object req.old_object)

-- whether each patch finds what it adds to: a label or an annotation needs its map
abbrev pub applies : Bool → Bool → List Patch → Bool
applies labels annotations [] = true
applies labels annotations (p ∷ ps) =
    if str_eq p.path "/metadata/labels"
    then applies true annotations ps
    else if str_eq p.path "/metadata/annotations"
    then applies labels true ps
    else if starts_with p.path "/metadata/labels/"
    then labels && applies labels annotations ps
    else starts_with p.path "/metadata/annotations/" && annotations && applies labels annotations ps

-- Each patch of `MutateSimple` finds the map that it adds to: the object has it, or an earlier
-- patch adds it.
pub mutate_simple-applies :
    (now : ℕ) (o : Object) → applies o.has_labels o.has_annotations (mutate_simple now o) ≡ true
unfolding mutate_simple
mutate_simple-applies now o = elim (Bool-cases o.has_labels) [
  | inl l ↦ elim (Bool-cases o.has_annotations) [ inl a ↦ rw (l, a) refl | inr a ↦ rw (l, a) refl ]
  | inr l ↦ elim (Bool-cases o.has_annotations) [ inl a ↦ rw (l, a) refl | inr a ↦ rw (l, a) refl ]
]
