-- ===== src/Tests/Programs.antt =====
-- A controller-runtime that counts the calls of `For`, and a scheme.
use mathlib.Core.List.{foldl}
use mathlib.Core.Path.{subst}
use minio_operator.Base.{ℕ, zero, suc, String, List, [], ◌∷◌, ◌++◌, map, ◌≡◌, ◌⊎◌, inl, inr, refl}
use minio_operator.Base.Exec.{Reply, value, failure, value_eq}
use minio_operator.Program.{Kind, Runtime, exit_one, default_flags, main}
use minio_operator.Program.Registration.{GroupVersion, Root, Schemes, Registers}
use minio_operator.Program.Start.{ForOnce, main_never_starts}

-- A builder is the number of its calls of `For`.
abbrev completion : ℕ → Reply String (Unit {0})
completion zero = failure "no object"
completion (suc zero) = value tt
completion (suc (suc n)) = failure "For is called twice"

abbrev counting : Runtime
counting = record {
  Manager = Unit {0};
  Builder = ℕ;
  Error = String;
  new_manager = λ options. value tt;
  managed_by = λ mgr. 0;
  for_kind = λ b k. suc b;
  complete = λ b r. completion b;
  add_healthz_check = λ mgr name. value mgr;
  add_readyz_check = λ mgr name. value mgr;
  start = λ mgr. value tt;
}

refused_twice :
    (b : ℕ) (more : List Kind)
    → completion (foldl (λ n k. suc n) (suc (suc b)) more) ≡ failure "For is called twice"
refused_twice b [] = refl
refused_twice b (k ∷ more) = refused_twice (suc b) more

counting-ForOnce : ForOnce counting
counting-ForOnce = record {
  second_call = λ b k k' more r. ("For is called twice", refused_twice b more);
}

main_never_starts_example :
    (main counting default_flags ≡ exit_one "unable to start manager")
    ⊎ (main counting default_flags ≡ exit_one "unable to create controller")
main_never_starts_example = main_never_starts counting counting-ForOnce default_flags

-- A scheme that is a list of what it knows.
abbrev Known : Type 0
Known = GroupVersion × Root

abbrev listing : Schemes
listing = record {
  Scheme = List Known;
  Builder = GroupVersion × List Root;
  Error = String;
  new_scheme = [];
  builder = λ gv. (gv, []);
  register = λ b roots. (b.0, b.1 ++ roots);
  add_to_scheme = λ b scheme. value (map (λ root. (b.0, root)) b.1 ++ scheme);
  client_go_add_to_scheme = λ scheme. value scheme;
}

abbrev IsKnown : List Known → Known → Type 0
IsKnown [] known = ⊥
IsKnown (x ∷ scheme) known = (x ≡ known) ⊎ IsKnown scheme known

listing-Registers : Registers listing
listing-Registers = record {
  Knows = λ scheme gv root. IsKnown scheme (gv, root);
  added = λ gv a b scheme scheme' h.
      subst (λ s. IsKnown s (gv, a) × IsKnown s (gv, b)) (value_eq h) (inl refl, inr (inl refl));
}
