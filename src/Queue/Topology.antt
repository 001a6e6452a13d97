-- ===== src/Queue/Topology.antt =====
-- In which order the queues come to be, and where a dead letter goes.
use releasea_worker.Prelude.{
  String, Bool, true, false, not, Option, none, some, List, [], ◌∷◌, ◌≡◌, refl, ◌↔◌, In, inl, map,
  lookup, if_split, arith,
}
use releasea_worker.Models.Failure.{Error}
use releasea_worker.Queue.{
  env_bool, QueueTopology, resolve_queue_topology, routing_key, QueueDeclaration, lasting,
  declare_main, after_dead_letter, declare_queue_topology,
}

-- Whenever a queue with a dead-letter key was declared, a queue of that name had been.
abbrev pub IsRouted : List QueueDeclaration → Type 0
IsRouted [] = Unit
IsRouted (d ∷ before) =
    ((key : String) → lookup routing_key d.args ≡ some key → In key (map (λ q. q.name) before))
    × IsRouted before

module _ (broker : List QueueDeclaration → QueueDeclaration → Option Error)
    (getenv : String → String) (queue_name : String) (dead_letters : Bool) where
  record IsSetUp (r : Option Error × List QueueDeclaration) : Type 0 where
    routed : IsRouted r.1
    failure :
        (e : Error)
        → r.0 ≡ some e
        → (d : QueueDeclaration) × (before : List QueueDeclaration) × (r.1 ≡ d ∷ before)
          × (broker before d ≡ some e)
    success :
        r.0 ≡ none
        → (d : QueueDeclaration) × (before : List QueueDeclaration) × (r.1 ≡ d ∷ before)
          × (d.name ≡ queue_name)
          × (d.durable ≡ true)
          × (broker before d ≡ none)
          × ((lookup routing_key d.args ≡ none) ↔ (dead_letters ≡ false))

  dead_letter-IsSetUp :
      dead_letters ≡ true
      → (name : String) → (answer : Option Error) → broker [] (lasting name []) ≡ answer
      → let topology : QueueTopology = record {
        queue_name = queue_name;
        dead_letter_enabled = true;
        dead_letter_queue_name = name;
        main_queue_args = ("x-dead-letter-exchange", "") ∷ (routing_key, name) ∷ [];
      } in
        IsSetUp (after_dead_letter broker topology (lasting name [] ∷ []) answer)
  unfolding lookup
  dead_letter-IsSetUp on name (some e) same = record {
    routed = (λ key h. cc, tt);
    failure = λ e' h. (lasting name [], [], refl, cc);
    success = λ h. cc;
  }
  dead_letter-IsSetUp on name none same = record {
    routed = (λ key h. inl (cc), (λ key h. cc, tt));
    failure = λ e' h. (_, _, refl, h);
    success = λ h. (_, _, refl, refl, refl, h, (λ u. cc, λ u. cc));
  }

  direct-IsSetUp :
      dead_letters ≡ false
      → let topology : QueueTopology = record {
        queue_name = queue_name;
        dead_letter_enabled = false;
        dead_letter_queue_name = "";
        main_queue_args = [];
      } in
        IsSetUp (declare_main broker topology [])
  unfolding lookup
  direct-IsSetUp off = record {
    routed = (λ key h. cc, tt);
    failure = λ e h. (_, _, refl, h);
    success = λ h. (_, _, refl, refl, refl, h, (λ u. off, λ u. refl));
  }

  set_up :
      dead_letters ≡ env_bool getenv "WORKER_QUEUE_DLQ_ENABLE" true
      → IsSetUp (declare_queue_topology broker (resolve_queue_topology getenv queue_name))
  unfolding declare_queue_topology resolve_queue_topology
  set_up same =
      if_split (λ t. IsSetUp (declare_queue_topology broker t))
        (not (env_bool getenv "WORKER_QUEUE_DLQ_ENABLE" true))
        (λ off. direct-IsSetUp (ground (arith, off, same)))
        (λ on. dead_letter-IsSetUp (ground (arith, on, same)) _ _ refl)

-- However the environment and the broker answer, the queue that takes the dead letters of another has
-- been declared before it. An error is the broker's answer to the last declaration made. With no
-- error, the last one made is the worker's queue, which was accepted, is durable, and has a
-- dead-letter queue exactly when WORKER_QUEUE_DLQ_ENABLE does not turn it off.
pub declare_queue_topology_lem :
    (broker : List QueueDeclaration → QueueDeclaration → Option Error)
    → (getenv : String → String) → (queue_name : String)
    → let r = declare_queue_topology broker (resolve_queue_topology getenv queue_name) in
      IsRouted r.1
      × ((e : Error)
          → r.0 ≡ some e
          → (d : QueueDeclaration) × (before : List QueueDeclaration) × (r.1 ≡ d ∷ before)
            × (broker before d ≡ some e))
      × (r.0 ≡ none
          → (d : QueueDeclaration) × (before : List QueueDeclaration) × (r.1 ≡ d ∷ before)
            × (d.name ≡ queue_name)
            × (d.durable ≡ true)
            × (broker before d ≡ none)
            × ((lookup routing_key d.args ≡ none)
                ↔ (env_bool getenv "WORKER_QUEUE_DLQ_ENABLE" true ≡ false)))
declare_queue_topology_lem broker getenv queue_name =
    let s = set_up broker getenv queue_name _ refl in (s.routed, s.failure, s.success)
