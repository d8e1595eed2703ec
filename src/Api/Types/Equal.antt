-- ===== src/Api/Types/Equal.antt =====
-- `reflect.DeepEqual` on a `MinIOSpec`: all fields of the struct, through pointers and slices.
use minio_operator.Base.{ℕ, Bool, true, false, ◌≡◌, refl, ◌↔◌}
use minio_operator.Base.Equality.{Eq, string_eq, nat_eq, bool_eq, option_eq, list_eq, ◌⊗◌, via}
use minio_operator.Api.Values.{Values}
use minio_operator.Api.Objects.{EnvVar}
use minio_operator.Api.Types.{ℤ, pos, negsuc, ExposeServices, ClaimTemplate, Pool, MinioSpec}

to_sign : ℤ → Bool × ℕ
to_sign (pos n) = (true, n)
to_sign (negsuc n) = (false, n)

of_sign : Bool × ℕ → ℤ
of_sign (true, n) = pos n
of_sign (false, n) = negsuc n

of_sign-to_sign : (z : ℤ) → of_sign (to_sign z) ≡ z
unfolding to_sign of_sign
of_sign-to_sign (pos n) = refl
of_sign-to_sign (negsuc n) = refl

int_eq : Eq ℤ
unfolding to_sign of_sign of_sign-to_sign
int_eq = via to_sign of_sign of_sign-to_sign (bool_eq ⊗ nat_eq)

expose_eq : Eq ExposeServices
expose_eq =
    via (λ e. (e.minio, e.console)) (λ (a, b). record { minio = a; console = b }) (λ _. refl)
      (bool_eq ⊗ bool_eq)

module _ (V : Values) where
  env_var_eq : Eq (EnvVar V)
  env_var_eq =
      via (λ e. (e.name, (e.value, e.value_from)))
        (λ (a, b). record { name = a; value = b.0; value_from = b.1 }) (λ _. refl)
        (string_eq ⊗ (string_eq ⊗ option_eq V.env_var_source_eq))

  claim_template_eq : Eq (ClaimTemplate V)
  claim_template_eq =
      via (λ c. (c.name, (c.storage_class_name, c.rest)))
        (λ (a, b). record { name = a; storage_class_name = b.0; rest = b.1 }) (λ _. refl)
        (string_eq ⊗ (option_eq string_eq ⊗ V.claim_rest_eq))

  pool_eq : Eq (Pool V)
  unfolding int_eq claim_template_eq
  pool_eq =
      via
        (λ p. (
          (p.name, (p.servers, p.volumes_per_server)),
          (
            (p.volume_claim_template, p.node_selector),
            (p.security_context, p.container_security_context),
          ),
        ))
        (λ (a, b). record {
          name = a.0;
          servers = a.1.0;
          volumes_per_server = a.1.1;
          volume_claim_template = b.0.0;
          node_selector = b.0.1;
          security_context = b.1.0;
          container_security_context = b.1.1;
        })
        (λ _. refl)
        ((string_eq ⊗ (int_eq ⊗ int_eq))
          ⊗ ((option_eq claim_template_eq ⊗ V.node_selector_eq)
              ⊗ (option_eq V.pod_security_context_eq ⊗ option_eq V.security_context_eq)))

  spec_eq : Eq (MinioSpec V)
  unfolding pool_eq env_var_eq expose_eq
  spec_eq =
      via
        (λ s. (
          ((s.pools, (s.image, s.image_pull_policy)), (s.image_pull_secret, (s.env, s.mountpath))),
          (
            (
              (s.configuration, (s.expose_services, s.enable_cert)),
              (s.reclaim_storage, (s.service_account_name, s.tolerations)),
            ),
            ((s.resources, (s.affinity, s.liveness)), (s.readiness, (s.startup, s.lifecycle))),
          ),
        ))
        (λ (a, b). record {
          pools = a.0.0;
          image = a.0.1.0;
          image_pull_policy = a.0.1.1;
          image_pull_secret = a.1.0;
          env = a.1.1.0;
          mountpath = a.1.1.1;
          configuration = b.0.0.0;
          expose_services = b.0.0.1.0;
          enable_cert = b.0.0.1.1;
          reclaim_storage = b.0.1.0;
          service_account_name = b.0.1.1.0;
          tolerations = b.0.1.1.1;
          resources = b.1.0.0;
          affinity = b.1.0.1.0;
          liveness = b.1.0.1.1;
          readiness = b.1.1.0;
          startup = b.1.1.1.0;
          lifecycle = b.1.1.1.1;
        })
        (λ _. refl)
        (((option_eq (list_eq pool_eq) ⊗ (string_eq ⊗ string_eq))
            ⊗ (string_eq ⊗ (option_eq (list_eq env_var_eq) ⊗ string_eq)))
          ⊗ (((option_eq string_eq ⊗ (expose_eq ⊗ bool_eq))
                ⊗ (bool_eq ⊗ (string_eq ⊗ option_eq (list_eq V.toleration_eq))))
              ⊗ ((V.resources_eq ⊗ (option_eq V.affinity_eq ⊗ option_eq V.probe_eq))
                  ⊗ (option_eq V.probe_eq ⊗ (option_eq V.probe_eq ⊗ option_eq V.lifecycle_eq)))))

  -- `reflect.DeepEqual(a, b)` on two specs.
  unfoldable pub deep_equal_spec : MinioSpec V → MinioSpec V → Bool
  unfolding spec_eq
  deep_equal_spec = spec_eq.beq

  -- The comparison of two specifications as by `reflect.DeepEqual` holds exactly when they are
  -- equal.
  pub deep_equal_spec_iff : (a b : MinioSpec V) → (deep_equal_spec a b ≡ true) ↔ (a ≡ b)
  unfolding deep_equal_spec
  deep_equal_spec_iff = spec_eq.beq_iff
