-- ===== src/Queue.antt =====
-- internal/platform/queue/topology.go: the queues that the worker declares before it consumes, and
-- `EnvBool` of utils/env.go. The environment and the broker's answers are parameters.
pub mod Topology
mod Examples
use releasea_worker.Prelude.{
  String, ◌⧺◌, Bool, true, false, not, ◌||◌, Option, none, some, List, [], ◌∷◌, ◌==◌, if◌then◌else◌,
  trim_space, to_lower,
}
use releasea_worker.Models.Failure.{Error}

unfoldable pub env_bool : (String → String) → String → Bool → Bool
env_bool getenv key fallback =
    let value = trim_space (getenv key) in
    if value == ""
    then fallback
    else let value' = to_lower value in
      if value' == "true" || (value' == "1" || (value' == "yes" || value' == "y"))
      then true
      else if value' == "false" || (value' == "0" || (value' == "no" || value' == "n"))
      then false
      else fallback

pub record QueueTopology : Type 0 where
  pub queue_name : String
  pub dead_letter_enabled : Bool
  pub dead_letter_queue_name : String
  pub main_queue_args : List (String × String)

abbrev pub routing_key : String
routing_key = "x-dead-letter-routing-key"

unfoldable pub resolve_queue_topology : (String → String) → String → QueueTopology
resolve_queue_topology getenv queue_name =
    if not (env_bool getenv "WORKER_QUEUE_DLQ_ENABLE" true)
    then record {
      queue_name = queue_name;
      dead_letter_enabled = false;
      dead_letter_queue_name = "";
      main_queue_args = [];
    }
    else let given = trim_space (getenv "WORKER_QUEUE_DLQ_NAME") in
      let dlq_name = if given == "" then queue_name ⧺ ".dead-letter" else given in
      record {
        queue_name = queue_name;
        dead_letter_enabled = true;
        dead_letter_queue_name = dlq_name;
        main_queue_args = ("x-dead-letter-exchange", "") ∷ (routing_key, dlq_name) ∷ [];
      }

-- The arguments of one `QueueDeclare`.
pub record QueueDeclaration : Type 0 where
  pub name : String
  pub durable : Bool
  pub auto_delete : Bool
  pub exclusive : Bool
  pub no_wait : Bool
  pub args : List (String × String)

abbrev pub lasting : String → List (String × String) → QueueDeclaration
lasting name args = record {
  name = name;
  durable = true;
  auto_delete = false;
  exclusive = false;
  no_wait = false;
  args = args;
}

-- The broker's answer to a declaration may depend on those made before, the newest first.
abbrev declare_main :
    (List QueueDeclaration → QueueDeclaration → Option Error)
    → QueueTopology
    → List QueueDeclaration
    → Option Error × List QueueDeclaration
declare_main broker topology before =
    let main = lasting topology.queue_name topology.main_queue_args in
    (broker before main, main ∷ before)

abbrev after_dead_letter :
    (List QueueDeclaration → QueueDeclaration → Option Error)
    → QueueTopology
    → List QueueDeclaration
    → Option Error
    → Option Error × List QueueDeclaration
after_dead_letter broker topology before (some e) = (some e, before)
after_dead_letter broker topology before none = declare_main broker topology before

unfoldable pub declare_queue_topology :
    (List QueueDeclaration → QueueDeclaration → Option Error)
    → QueueTopology
    → Option Error × List QueueDeclaration
declare_queue_topology broker topology =
    let dead = lasting topology.dead_letter_queue_name [] in
    if topology.dead_letter_enabled
    then after_dead_letter broker topology (dead ∷ []) (broker [] dead)
    else declare_main broker topology []
