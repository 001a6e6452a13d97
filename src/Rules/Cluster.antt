-- ===== src/Rules/Cluster.antt =====
-- The calls that the rules' code makes of the cluster and of the API, and how they run one after
-- another until one fails. The log holds the newest call first, and every answer may depend on it.
pub mod State
pub mod Adds
use releasea_worker.Prelude.{
  String, Bool, true, false, ◌&&◌, Option, none, some, List, [], ◌∷◌, ◌==◌, ◌≡◌, refl,
  if◌then◌else◌, lookup,
}
use releasea_worker.Models.Payload.{Value, str, obj, Payload, fields}
use releasea_worker.Models.Failure.{Error, Result, ok, err}
use releasea_worker.Models.Runtime.{DeploymentInfo}
use releasea_worker.Models.Service.{ServicePayload}
use releasea_worker.Models.Rule.{RulePayload}

-- Where `ResourceURLs` finds a resource.
pub record ResourceId : Type 0 where
  pub kind : String
  pub namespace : String
  pub name : String

abbrev pub same_id : ResourceId → ResourceId → Bool
same_id a b = a.kind == b.kind && (a.namespace == b.namespace && a.name == b.name)

-- `ApplyResource`, `DeleteResource` and `EnsureNamespace`.
pub data ClusterCall : Type 0 where
  apply : (resource : Payload) → ClusterCall
  delete : (id : ResourceId) → ClusterCall
  ensure_namespace : (namespace : String) → ClusterCall

pub record CallEntry : Type 0 where
  pub call : ClusterCall
  pub failure : Option Error

abbrev pub Log : Type 0
Log = List CallEntry

-- The cluster and the API: whether a call succeeds, and what the readers return. `client` is the
-- outcome of `KubeClient`; `virtual_services` and `service` are the decoded bodies.
pub record Surroundings : Type 0 where
  pub client : Option Error
  pub reply : Log → ClusterCall → Option Error
  pub exists : Log → ResourceId → Result Bool
  pub deployment : Log → String → String → Result DeploymentInfo
  pub resource : Log → ResourceId → Result Payload
  pub virtual_services : Log → String → Result (List Payload)
  pub rule : Log → String → Result RulePayload
  pub service : Log → String → Result ServicePayload

abbrev pub Act : Type 0 → Type 0
Act A = Log → Result A × Log

abbrev pub pure : {A : Type 0} → A → Act A
pure a log = (ok a, log)

abbrev pub raise : {A : Type 0} → Error → Act A
raise e log = (err e, log)

abbrev pub continue : {A B : Type 0} → Result A → (A → Act B) → Act B
continue (ok a) f log = f a log
continue (err e) f log = (err e, log)

infixl 5 ◌>>=◌ ◌>>◌
abbrev pub ◌>>=◌ : {A B : Type 0} → Act A → (A → Act B) → Act B
◌>>=◌ m f log = continue (m log).0 f (m log).1

abbrev pub ◌>>◌ : {B : Type 0} → Act (Unit {0}) → Act B → Act B
m >> k = m >>= λ _. k

abbrev pub outcome : Option Error → Result (Unit {0})
outcome none = ok tt
outcome (some e) = err e

unfoldable pub perform : Surroundings → ClusterCall → Act (Unit {0})
perform env call log =
    (outcome (env.reply log call), record { call = call; failure = env.reply log call } ∷ log)

abbrev pub apply_resource : Surroundings → Payload → Act (Unit {0})
apply_resource env resource = perform env (apply resource)

abbrev pub resource_id : String → String → String → ResourceId
resource_id kind namespace name = record { kind = kind; namespace = namespace; name = name }

abbrev pub delete_resource : Surroundings → String → String → String → Act (Unit {0})
delete_resource env kind namespace name = perform env (delete (resource_id kind namespace name))
