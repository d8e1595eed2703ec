-- ===== src/Api/Values.antt =====
-- The types and functions of the Kubernetes libraries that the operator's pure code passes on,
-- compares or calls. They are parameters of the model, as one record.
use minio_operator.Base.{ℕ, String, Bool, List}
use minio_operator.Base.Equality.{Eq}

pub record Values : Type 1 where
  -- corev1 types, and how `reflect.DeepEqual` or `==` compares them
  pub EnvVarSource : Type 0
  pub env_var_source_eq : Eq EnvVarSource
  pub Toleration : Type 0
  pub toleration_eq : Eq Toleration
  pub Resources : Type 0
  pub resources_eq : Eq Resources
  pub resources_zero : Resources
  pub Affinity : Type 0
  pub affinity_eq : Eq Affinity
  pub Probe : Type 0
  pub probe_eq : Eq Probe
  pub Lifecycle : Type 0
  pub lifecycle_eq : Eq Lifecycle
  -- a `map[string]string`, with nil and empty maps told apart
  pub NodeSelector : Type 0
  pub node_selector_eq : Eq NodeSelector
  pub PodSecurityContext : Type 0
  pub pod_security_context_eq : Eq PodSecurityContext
  pub SecurityContext : Type 0
  pub security_context_eq : Eq SecurityContext
  -- what a claim holds beside its name and its storage class
  pub ClaimRest : Type 0
  pub claim_rest_eq : Eq ClaimRest
  -- `intstr.IntOrString`, its zero value and `intstr.FromInt`
  pub IntOrString : Type 0
  pub int_or_string_eq : Eq IntOrString
  pub int_or_string_zero : IntOrString
  pub from_int : ℕ → IntOrString
  -- `metav1.NewControllerRef`, from group, version, kind, name and UID
  pub OwnerReference : Type 0
  pub new_controller_ref : String → String → String → String → String → OwnerReference
  -- `equality.Semantic.DeepDerivative` on two `map[string]string`
  pub deep_derivative : List (String × String) → List (String × String) → Bool
