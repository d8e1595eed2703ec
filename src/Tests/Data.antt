-- ===== src/Tests/Data.antt =====
-- Concrete values for the parameters of the model, and a resource.
use minio_operator.Base.{ℕ, String, false, none, some, List, [], ◌∷◌, ◌≡◌, ◌≢◌, All}
use minio_operator.Base.Dict.{lookup}
use minio_operator.Base.Equality.{nat_eq, string_eq}
use minio_operator.Api.Values.{Values}
use minio_operator.Api.Types.{
  pos, DeployStatus, MinioStatus, ClaimTemplate, Pool, Minio, zero_status, zero_spec,
}
use minio_operator.Service.{covers}
use minio_operator.Service.Matching.{IsDeepDerivative, covers_iff}

-- Numbers for the values that are only passed on or compared.
abbrev pub plain : Values
plain = record {
  EnvVarSource = ℕ;
  env_var_source_eq = nat_eq;
  Toleration = ℕ;
  toleration_eq = nat_eq;
  Resources = ℕ;
  resources_eq = nat_eq;
  resources_zero = 0;
  Affinity = ℕ;
  affinity_eq = nat_eq;
  Probe = ℕ;
  probe_eq = nat_eq;
  Lifecycle = ℕ;
  lifecycle_eq = nat_eq;
  NodeSelector = ℕ;
  node_selector_eq = nat_eq;
  PodSecurityContext = ℕ;
  pod_security_context_eq = nat_eq;
  SecurityContext = ℕ;
  security_context_eq = nat_eq;
  ClaimRest = ℕ;
  claim_rest_eq = nat_eq;
  IntOrString = ℕ;
  int_or_string_eq = nat_eq;
  int_or_string_zero = 0;
  from_int = λ n. n;
  OwnerReference = String;
  new_controller_ref = λ group version kind name uid. uid;
  deep_derivative = λ l k. covers k l;
}

weaken :
    (l k : List (String × String))
    → All (λ (e : String × String). lookup string_eq e.0 k ≡ some e.1) l
    → All (λ (e : String × String). e.1 ≢ "" → lookup string_eq e.0 k ≡ some e.1) l
weaken [] k h = tt
weaken (e ∷ l) k (h, hs) = (λ _. h, weaken l k hs)

pub plain-IsDeepDerivative : IsDeepDerivative plain
plain-IsDeepDerivative = record {
  derives_self = λ l h. (covers_iff l l).1 h;
  derives_entries = λ l k h. weaken l k ((covers_iff k l).0 h);
}

abbrev pub template : ClaimTemplate plain
template = record { name = "data"; storage_class_name = some "fast"; rest = 10 }

abbrev pub pool : Pool plain
pool = record {
  name = "pool";
  servers = pos 2;
  volumes_per_server = pos 2;
  volume_claim_template = some template;
  node_selector = 7;
  security_context = none;
  container_security_context = none;
}

abbrev pub resource : Minio plain
resource = record {
  name = "store";
  namespace = "apps";
  uid = "u1";
  resource_version = "5";
  deleting = false;
  spec = record (zero_spec plain) {
    pools = some (pool ∷ []);
    image = "minio:1";
    mountpath = "/data";
  };
  status = zero_status;
}

-- The status that the operator writes first.
abbrev pub running_status : MinioStatus
running_status = record zero_status { status = DeployStatus.running }
