-- ===== src/RollingUpdate/Status.antt =====
-- `ValidateUpdate` and `GetUpdateStatus` of internal/ha/rolling_update.go.
use roost_keeper.Prelude.{
  ◌∷◌, if◌then◌else◌, ℤ, String, List, Option, pos, none, some, [], str_eq, ltb_ℤ,
}
use roost_keeper.Roost.{Message, text, about, with_count, with_text, Reply, ok, err}
use roost_keeper.RollingUpdate.{
  progressing, available, other, Condition, Deployment, percent, unset, in_progress, completed,
  UpdateStatus,
}

-- the loop of `ValidateUpdate` over the conditions
unfoldable pub first_stuck : List Condition → Option Message
first_stuck [] = none
first_stuck (c ∷ cs) =
    let rest = first_stuck cs in
    elim c.type_ [
      | progressing ↦
          if str_eq c.status "False"
          then some (with_text "deployment is not in a healthy state for update: %s" c.message)
          else rest
      | available ↦ rest
      | other t ↦ rest
    ]

abbrev enough_replicas : Deployment → Option ℤ → Option Message
enough_replicas d none =
    some (text "insufficient replicas for safe rolling update (minimum 2 required)")
enough_replicas d (some n) =
    if ltb_ℤ n (pos 2)
    then some (text "insufficient replicas for safe rolling update (minimum 2 required)")
    else if ltb_ℤ d.ready_replicas (pos 2)
    then some
        (with_count "insufficient ready replicas for safe rolling update: %d/2" d.ready_replicas)
    else none

abbrev stuck_or : Option Message → Option Message → Option Message
stuck_or (some e) next = some e
stuck_or none next = next

-- `ValidateUpdate`
unfoldable pub validate_update : Reply Deployment → Option Message
unfolding first_stuck
validate_update (err e) = some (about "deployment not found: %w" e)
validate_update (ok d) = stuck_or (first_stuck d.conditions) (enough_replicas d d.spec_replicas)

-- the first condition on the availability, in `GetUpdateStatus`
abbrev available_status : Condition → UpdateStatus → UpdateStatus
available_status c s =
    if str_eq c.status "True"
    then record s { status = completed; progress = percent 100; message = text c.message }
    else record s { status = in_progress; message = text c.message }

unfoldable pub status_from : List Condition → UpdateStatus → UpdateStatus
status_from [] s = s
status_from (c ∷ cs) s =
    let rest = status_from cs s in
    elim c.type_ [ available ↦ available_status c s | progressing ↦ rest | other t ↦ rest ]

-- `GetUpdateStatus`
unfoldable pub get_update_status : String → Reply Deployment → Reply UpdateStatus
unfolding status_from
get_update_status id (err e) = err (about "failed to get deployment status: %w" e)
get_update_status id (ok d) = ok (
    status_from d.conditions (record {
      id = text id;
      start_time = 0;
      status = unset;
      current_replicas = d.replicas;
      updated_replicas = d.updated_replicas;
      ready_replicas = d.ready_replicas;
      progress = percent 0;
      message = text "";
    }))
