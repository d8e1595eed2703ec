-- ===== src/Service/Matching.antt =====
-- What `MinioSvcMatchesSpecification` accepts, field by field.
use minio_operator.Base.{
  String, true, false, none, some, List, [], ◌∷◌, ◌≡◌, ◌↔◌, refl, arith, All, eq_iff, length,
}
use minio_operator.Base.{nat_beq, ◌==◌, ◌≢◌}
use minio_operator.Base.Dict.{lookup}
use minio_operator.Base.Equality.{string_eq}
use minio_operator.Api.Values.{Values}
use minio_operator.Api.Objects.{
  Labels, ServicePort, Service, ServiceType, cluster_ip, node_port, other,
}
use minio_operator.Service.{
  holds_entry, covers, same_ports, type_beq, same_port, minio_svc_matches_specification,
}

-- `got` has each entry of `expected`.
abbrev pub Covers : Labels → Labels → Type 0
Covers got = All (λ (e : String × String). lookup string_eq e.0 got ≡ some e.1)

holds_entry_iff :
    (got : Labels) (k v : String) → (holds_entry got k v ≡ true) ↔ (lookup string_eq k got ≡ some v)
unfolding holds_entry
holds_entry_iff got k v =
    elim (lookup string_eq k got)
      as (λ o. (elim o [ none ↦ false | some w ↦ w == v ] ≡ true) ↔ (o ≡ some v)) [
        | none ↦ ground arith
        | some w ↦ ground (arith, eq_iff w v)
      ]

pub covers_iff : (got expected : Labels) → (covers got expected ≡ true) ↔ Covers got expected
unfolding covers
covers_iff got [] = (λ _. tt, λ _. refl)
covers_iff got ((k, v) ∷ expected) =
    ground (arith, holds_entry_iff got k v, covers_iff got expected)

type_beq_iff : (a b : ServiceType) → (type_beq a b ≡ true) ↔ (a ≡ b)
type_beq_iff cluster_ip b = ground arith
type_beq_iff node_port b = ground arith
type_beq_iff other b = ground arith

-- What `equality.Semantic.DeepDerivative` does on maps: a map, which gives each of its keys one value,
-- derives itself, and where `k` derives `l` it has each entry of `l` whose value is not empty.
pub record IsDeepDerivative (V : Values) : Type 0 where
  pub derives_self : (l : Labels) → Covers l l → V.deep_derivative l l ≡ true
  pub derives_entries :
      (l k : Labels)
      → V.deep_derivative l k ≡ true
      → All (λ (e : String × String). e.1 ≢ "" → lookup string_eq e.0 k ≡ some e.1) l

module _ (V : Values) where
  abbrev pub SamePort : ServicePort V → ServicePort V → Type 0
  SamePort e p = (e.name ≡ p.name) × (e.port ≡ p.port) × (e.target_port ≡ p.target_port)

  -- As many ports, in the same order.
  abbrev pub SamePorts : List (ServicePort V) → List (ServicePort V) → Type 0
  SamePorts [] [] = Unit
  SamePorts [] (_ ∷ _) = ⊥
  SamePorts (_ ∷ _) [] = ⊥
  SamePorts (e ∷ es) (p ∷ ps) = SamePort e p × SamePorts es ps

  -- What makes a service as it should be. Other fields, such as the cluster IP, do not count.
  pub record Matches (svc expected : Service V) : Type 0 where
    pub labels : Covers svc.labels expected.labels
    pub annotations : Covers svc.annotations expected.annotations
    pub ports : SamePorts expected.spec.ports svc.spec.ports
    pub selector : V.deep_derivative expected.spec.selector svc.spec.selector ≡ true
    pub type : svc.spec.type ≡ expected.spec.type

  same_port_iff : (e p : ServicePort V) → (same_port V e p ≡ true) ↔ SamePort e p
  same_port_iff e p =
      ground (arith, eq_iff e.name p.name, V.int_or_string_eq.beq_iff e.target_port p.target_port)

  same_ports_iff :
      (es ps : List (ServicePort V))
      → ((nat_beq (length ps) (length es) ≡ true) × (same_ports V es ps ≡ true)) ↔ SamePorts es ps
  unfolding same_ports
  same_ports_iff [] [] = (λ _. tt, λ _. (refl, refl))
  same_ports_iff [] (p ∷ ps) = ground arith
  same_ports_iff (e ∷ es) [] = ground arith
  same_ports_iff (e ∷ es) (p ∷ ps) = ground (arith, same_port_iff e p, same_ports_iff es ps)

  -- The ladder of tests passes when each test does.
  tests_iff :
      (svc expected : Service V)
      → (minio_svc_matches_specification V svc expected ≡ none) ↔ (
          (covers svc.labels expected.labels ≡ true)
          × (covers svc.annotations expected.annotations ≡ true)
          × (nat_beq (length svc.spec.ports) (length expected.spec.ports) ≡ true)
          × (same_ports V expected.spec.ports svc.spec.ports ≡ true)
          × (V.deep_derivative expected.spec.selector svc.spec.selector ≡ true)
          × (type_beq svc.spec.type expected.spec.type ≡ true))
  unfolding minio_svc_matches_specification
  tests_iff svc expected = ground arith

  -- `MinioSvcMatchesSpecification` reports no mismatch exactly when the service has the expected
  -- labels and annotations, the expected ports in order, a selector that derives the expected
  -- one, and the expected type.
  pub minio_svc_matches_specification_iff :
      (svc expected : Service V)
      → (minio_svc_matches_specification V svc expected ≡ none) ↔ Matches svc expected
  minio_svc_matches_specification_iff svc expected = (
    λ h.
        let (l, a, n, p, d, t) = (tests_iff svc expected).0 h in
        record {
          labels = (covers_iff svc.labels expected.labels).0 l;
          annotations = (covers_iff svc.annotations expected.annotations).0 a;
          ports = (same_ports_iff expected.spec.ports svc.spec.ports).0 (n, p);
          selector = d;
          type = (type_beq_iff svc.spec.type expected.spec.type).0 t;
        },
    λ m.
        let (n, p) = (same_ports_iff expected.spec.ports svc.spec.ports).1 m.ports in
        (tests_iff svc expected).1 (
          (covers_iff svc.labels expected.labels).1 m.labels,
          (covers_iff svc.annotations expected.annotations).1 m.annotations,
          n,
          p,
          m.selector,
          (type_beq_iff svc.spec.type expected.spec.type).1 m.type,
        ),
  )
