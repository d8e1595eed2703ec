-- ===== src/Program/Registration.antt =====
-- The registration of the API types: groupversion_info.go, and the functions init of minio_types.go
-- and main.go. The builder of a scheme is a library's.
use minio_operator.Base.{String, Option, none, some, List, [], ◌∷◌, ◌≡◌, ap}
use minio_operator.Base.Exec.{Reply, value, failure}
use minio_operator.Base.Partial.{◌>>=◌, >>=-eq-some, some_eq}
use minio_operator.Api.Constants.{group, version}

-- `schema.GroupVersion`
pub record GroupVersion : Type 0 where
  pub group : String
  pub version : String

-- The types with the marker `+kubebuilder:object:root=true`.
pub data Root : Type 0 where
  minio_root minio_list_root : Root

-- Schemes and their builders. `client_go_add_to_scheme` is that of client-go.
pub record Schemes : Type 1 where
  pub Scheme : Type 0
  pub Builder : Type 0
  pub Error : Type 0
  pub new_scheme : Scheme
  pub builder : GroupVersion → Builder
  pub register : Builder → List Root → Builder
  pub add_to_scheme : Builder → Scheme → Reply Error Scheme
  pub client_go_add_to_scheme : Scheme → Reply Error Scheme

-- The variable `GroupVersion`
abbrev pub group_version : GroupVersion
group_version = record { group = group; version = version }

module _ (C : Schemes) where
  -- `SchemeBuilder`, once the types have been registered.
  abbrev pub scheme_builder : C.Builder
  scheme_builder = C.register (C.builder group_version) (minio_root ∷ minio_list_root ∷ [])

  -- `utilruntime.Must`, which panics on an error
  abbrev must_add : Reply C.Error C.Scheme → Option C.Scheme
  must_add (value scheme) = some scheme
  must_add (failure _) = none

  -- `init` of main.go: the variable `scheme`, or a panic
  unfoldable pub main_init : Option C.Scheme
  main_init = must_add (C.client_go_add_to_scheme C.new_scheme) >>= λ scheme.
      must_add (C.add_to_scheme scheme_builder scheme)

  -- What a builder that has registered types documents: a scheme that it was added to knows them under
  -- the builder's group and version.
  pub record Registers : Type 1 where
    pub Knows : C.Scheme → GroupVersion → Root → Type 0
    pub added :
        (gv : GroupVersion) (a b : Root) (scheme scheme' : C.Scheme)
        → C.add_to_scheme (C.register (C.builder gv) (a ∷ b ∷ [])) scheme ≡ value scheme'
        → Knows scheme' gv a × Knows scheme' gv b

  must_add-eq-some :
      (reply : Reply C.Error C.Scheme) (scheme : C.Scheme)
      → must_add reply ≡ some scheme
      → reply ≡ value scheme
  must_add-eq-some (value x) scheme h = ap value (some_eq h)
  must_add-eq-some (failure e) scheme h = cc

  -- Where `init` does not panic, the scheme of the manager knows the resource and the list of resources
  -- under the group and version of the API.
  main_init-Knows :
      (R : Registers) (scheme : C.Scheme)
      → main_init ≡ some scheme
      → R.Knows scheme group_version minio_root × R.Knows scheme group_version minio_list_root
  unfolding main_init
  main_init-Knows R scheme h =
      let (first, _, e) = >>=-eq-some (must_add (C.client_go_add_to_scheme C.new_scheme)) _ h in
      R.added group_version minio_root minio_list_root first scheme
        (must_add-eq-some (C.add_to_scheme scheme_builder first) scheme e)
