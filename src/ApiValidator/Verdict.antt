-- ===== src/ApiValidator/Verdict.antt =====
-- Which health checks internal/api/validator.go accepts.
use roost_keeper.Prelude.{
  ◌≡◌, ◌∙◌, ◌&&◌, ◌||◌, ◌∷◌, ◌++◌, if◌then◌else◌, ℕ, ℤ, String, List, Option, Bool, suc, pos, true,
  false, not, none, some, [], refl, arith, str_eq, ltb_ℤ, leb_ℤ, member,
}
use roost_keeper.ApiValidator.{
  HealthCheck, ValidationError, error_if, methods, is_port, validate_http, validate_tcp,
  validate_grpc, validate_prometheus, validate_type, validate_one, validate_from,
  validate_health_checks,
}

abbrev pub no_errors : List ValidationError → Bool
no_errors [] = true
no_errors (e ∷ es) = false

abbrev known_methods : List String
known_methods = "GET" ∷ "POST" ∷ "PUT" ∷ "HEAD" ∷ []

abbrev port_fits : ℤ → Bool
port_fits port = leb_ℤ (pos 1) port && leb_ℤ port (pos 65535)

abbrev http_fits : Option (String × String) → Bool
http_fits none = false
http_fits (some (url, method)) =
    not (str_eq url "") && (str_eq method "" || member method known_methods)

abbrev address_fits : Option (String × ℤ) → Bool
address_fits none = false
address_fits (some (host, port)) = not (str_eq host "") && port_fits port

abbrev query_fits : Option (String × String) → Bool
query_fits none = false
query_fits (some (query, threshold)) = not (str_eq query "") && not (str_eq threshold "")

-- a check of each type but "udp", with its configuration
abbrev type_fits : HealthCheck → Bool
type_fits c =
    if str_eq c.type_ "http"
    then http_fits c.http
    else if str_eq c.type_ "tcp"
    then address_fits c.tcp
    else if str_eq c.type_ "grpc"
    then address_fits c.grpc
    else if str_eq c.type_ "prometheus"
    then query_fits c.prometheus
    else if str_eq c.type_ "kubernetes"
    then c.has_kubernetes
    else false

abbrev check_fits : HealthCheck → Bool
check_fits c =
    not (str_eq c.name "")
    && not (str_eq c.type_ "")
    && type_fits c
    && leb_ℤ (pos 1) c.failure_threshold
    && (leb_ℤ (pos 0) c.weight && leb_ℤ c.weight (pos 100))

abbrev pub all_fit : List HealthCheck → Bool
all_fit [] = true
all_fit (c ∷ cs) = check_fits c && all_fit cs

no_errors-append :
    (xs ys : List ValidationError) → no_errors (xs ++ ys) ≡ no_errors xs && no_errors ys
no_errors-append [] ys = refl
no_errors-append (x ∷ xs) ys = refl

no_errors-error_if :
    (b : Bool) (field : String) (i : ℕ) (message code : String)
    → no_errors (error_if b field i message code) ≡ not b
no_errors-error_if true field i message code = refl
no_errors-error_if false field i message code = refl

de_morgan : (a b c : Bool) → not a && not (not b && not c) ≡ not a && (b || c)
de_morgan a b c = ground arith

not_twice : (a b : Bool) → not a && not (not b) ≡ not a && b
not_twice a b = ground arith

http-fits : (i : ℕ) (o : Option (String × String)) → no_errors (validate_http i o) ≡ http_fits o
unfolding validate_http
http-fits i none = refl
http-fits i (some (url, method)) =
    simp (no_errors-append, no_errors-error_if)
      (de_morgan (str_eq url "") (str_eq method "") (member method methods))

is_port-fits : (port : ℤ) → is_port port ≡ port_fits port
is_port-fits port = ground arith

threshold_fits : (n : ℤ) → not (ltb_ℤ n (pos 1)) ≡ leb_ℤ (pos 1) n
threshold_fits n = ground arith

weight_fits :
    (w : ℤ) → not (ltb_ℤ w (pos 0) || ltb_ℤ (pos 100) w) ≡ leb_ℤ (pos 0) w && leb_ℤ w (pos 100)
weight_fits w = ground arith

tcp-fits : (i : ℕ) (o : Option (String × ℤ)) → no_errors (validate_tcp i o) ≡ address_fits o
unfolding validate_tcp
tcp-fits i none = refl
tcp-fits i (some (host, port)) =
    simp (no_errors-append, no_errors-error_if, is_port-fits)
      (not_twice (str_eq host "") (port_fits port))

grpc-fits : (i : ℕ) (o : Option (String × ℤ)) → no_errors (validate_grpc i o) ≡ address_fits o
unfolding validate_grpc
grpc-fits i none = refl
grpc-fits i (some (host, port)) =
    simp (no_errors-append, no_errors-error_if, is_port-fits)
      (not_twice (str_eq host "") (port_fits port))

prometheus-fits :
    (i : ℕ) (o : Option (String × String)) → no_errors (validate_prometheus i o) ≡ query_fits o
unfolding validate_prometheus
prometheus-fits i none = refl
prometheus-fits i (some (query, threshold)) = simp (no_errors-append, no_errors-error_if) refl

no_errors-if :
    (b : Bool) (xs ys : List ValidationError)
    → no_errors (if b then xs else ys) ≡ (if b then no_errors xs else no_errors ys)
no_errors-if true xs ys = refl
no_errors-if false xs ys = refl

not-not : (a : Bool) → not (not a) ≡ a
not-not true = refl
not-not false = refl

type-fits : (i : ℕ) (c : HealthCheck) → no_errors (validate_type i c) ≡ type_fits c
unfolding validate_type
type-fits i c =
    simp
      (no_errors-if, http-fits, tcp-fits, grpc-fits, prometheus-fits, no_errors-error_if, not-not)
      refl

one-fits : (i : ℕ) (c : HealthCheck) → no_errors (validate_one i c) ≡ check_fits c
unfolding validate_one
one-fits i c =
    simp (no_errors-append, no_errors-error_if, type-fits)
      (rw (threshold_fits c.failure_threshold, weight_fits c.weight) refl)

from-fits : (i : ℕ) (cs : List HealthCheck) → no_errors (validate_from i cs) ≡ all_fit cs
unfolding validate_from
from-fits i [] = refl
from-fits i (c ∷ cs) =
    no_errors-append (validate_one i c) (validate_from (suc i) cs)
    ∙ rw (one-fits i c, from-fits (suc i) cs) refl

-- The rule finds no error exactly when each check has a name, a failure threshold of at least one, a
-- weight from 0 to 100, and one of five types with what it needs: "http" a URL, with no method or one
-- of GET, POST, PUT and HEAD, "tcp" and "grpc" a host and a port from 1 to 65535, "prometheus" a query
-- and a threshold, "kubernetes" its configuration. A check of another type, "udp" included, is an
-- error.
pub validate_health_checks-fit :
    (cs : List HealthCheck) → no_errors (validate_health_checks cs) ≡ all_fit cs
unfolding validate_health_checks
validate_health_checks-fit cs = from-fits 0 cs
