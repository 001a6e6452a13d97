-- ===== src/Queue/Examples.antt =====
-- The worker's queue and its dead letters, and the theorem applied to them.
use releasea_worker.Prelude.{
  String, true, false, Option, none, some, List, [], ◌∷◌, ◌≡◌, refl, ◌↔◌, lookup, trim_space, trim,
  to_lower, map_text, ◌==◌, if◌then◌else◌,
}
use releasea_worker.Models.Failure.{Error, new_error}
use releasea_worker.Queue.{
  env_bool, resolve_queue_topology, routing_key, QueueDeclaration, lasting, declare_queue_topology,
}
use releasea_worker.Queue.Topology.{IsRouted, declare_queue_topology_lem}

abbrev willing : List QueueDeclaration → QueueDeclaration → Option Error
willing before d = none

abbrev refusing : List QueueDeclaration → QueueDeclaration → Option Error
refusing before d = some (new_error "access refused")

abbrev unset : String → String
unset key = ""

abbrev turned_off : String → String
turned_off key = if key == "WORKER_QUEUE_DLQ_ENABLE" then " No " else ""

declares_both : declare_queue_topology willing (resolve_queue_topology unset "releasea.worker") ≡ (
  none,
  lasting "releasea.worker"
        (("x-dead-letter-exchange", "") ∷ (routing_key, "releasea.worker.dead-letter") ∷ [])
      ∷ lasting "releasea.worker.dead-letter" []
      ∷ [],
)
unfolding declare_queue_topology resolve_queue_topology env_bool trim_space trim to_lower map_text
declares_both = refl

declares_one :
    declare_queue_topology willing (resolve_queue_topology turned_off "releasea.worker")
    ≡ (none, lasting "releasea.worker" [] ∷ [])
unfolding declare_queue_topology resolve_queue_topology env_bool trim_space trim to_lower map_text
declares_one = refl

stops :
    declare_queue_topology refusing (resolve_queue_topology unset "releasea.worker")
    ≡ (some (new_error "access refused"), lasting "releasea.worker.dead-letter" [] ∷ [])
unfolding declare_queue_topology resolve_queue_topology env_bool trim_space trim to_lower map_text
stops = refl

declare_queue_topology_lem_example :
    let r = declare_queue_topology willing (resolve_queue_topology unset "releasea.worker") in
    IsRouted r.1
    × ((e : Error)
        → r.0 ≡ some e
        → (d : QueueDeclaration) × (before : List QueueDeclaration) × (r.1 ≡ d ∷ before)
          × (willing before d ≡ some e))
    × (r.0 ≡ none
        → (d : QueueDeclaration) × (before : List QueueDeclaration) × (r.1 ≡ d ∷ before)
          × (d.name ≡ "releasea.worker")
          × (d.durable ≡ true)
          × (willing before d ≡ none)
          × ((lookup routing_key d.args ≡ none)
              ↔ (env_bool unset "WORKER_QUEUE_DLQ_ENABLE" true ≡ false)))
declare_queue_topology_lem_example = declare_queue_topology_lem willing unset "releasea.worker"
