-- ===== src/Tests/Levels.antt =====
-- The levels and the phases of internal/health/composite/dependency.go on a small graph.
use roost_keeper.Prelude.{
  ◌≡◌, ◌∷◌, if◌then◌else◌, String, List, pos, true, false, [], refl, str_eq, lookup, insert,
}
use roost_keeper.Dependencies.{Node, Graph}
use roost_keeper.Dependencies.Levels.{
  calculate_dependency_levels, optimized, count_total_dependencies,
}
use roost_keeper.Roost.{HealthCheckSpec}
use roost_keeper.Dependencies.Levels.{validate_dependencies}

abbrev node : String → List String → Node
node name deps = record { name = name; dependencies = deps; dependents = []; in_degree = pos 0 }

abbrev graph : Graph
graph = record {
  nodes =
      ("db", node "db" [])
      ∷ ("cache", node "cache" [])
      ∷ ("api", node "api" ("db" ∷ "cache" ∷ []))
      ∷ ("web", node "web" ("api" ∷ "db" ∷ []))
      ∷ [];
  edges = [];
  reverse_edges = [];
}

abbrev order : List String
order = "cache" ∷ "db" ∷ "api" ∷ "web" ∷ []

levels :
    calculate_dependency_levels graph order
    ≡ ("cache", 0) ∷ ("db", 0) ∷ ("api", 1) ∷ ("web", 2) ∷ []
unfolding calculate_dependency_levels insert lookup
levels = refl

phases : (optimized order (calculate_dependency_levels graph order)).max_parallel ≡ 2
unfolding calculate_dependency_levels insert lookup
phases = refl

dependencies : count_total_dependencies graph.nodes ≡ 4
unfolding count_total_dependencies
dependencies = refl

abbrev check_of : String → HealthCheckSpec
check_of name = record {
  name = name;
  type_ = "http";
  http = true;
  tcp = false;
  udp = false;
  grpc = false;
  prometheus = false;
  kubernetes = false;
  interval = pos 0;
  weight = pos 0;
}

-- "api" depends on "db"
abbrev needs_db : HealthCheckSpec → List String
needs_db c = if str_eq c.name "api" then "db" ∷ [] else []

abbrev checks : List HealthCheckSpec
checks = check_of "api" ∷ check_of "db" ∷ check_of "web" ∷ []

-- the graph that has the edges of these checks
abbrev linked : Graph
linked = record {
  nodes =
      ("api", record { name = "api"; dependencies = "db" ∷ []; dependents = []; in_degree = pos 1 })
      ∷ (
        "db",
        record { name = "db"; dependencies = []; dependents = "api" ∷ []; in_degree = pos 0 },
      )
      ∷ ("web", node "web" [])
      ∷ [];
  edges = ("api", []) ∷ ("db", "api" ∷ []) ∷ ("web", []) ∷ [];
  reverse_edges = ("api", "db" ∷ []) ∷ ("db", []) ∷ ("web", []) ∷ [];
}

valid : validate_dependencies checks ≡ []
unfolding validate_dependencies
valid = refl
