-- ===== src/Tests/Config.antt =====
-- Concrete configuration files.
use mathlib.Core.List.{foldl}
use minio_operator.Base.{none, List, [], ◌∷◌, ◌++◌, map, ◌≡◌, refl, arith, inl}
use minio_operator.EnvFile.{
  Runes, codes, is_space, cut_prefix, Config, get, key_value, apply_entry, pars_env_entry,
  raw_lines, scan, parse_raw_configuration,
}
use minio_operator.EnvFile.Credentials.{given, get-parse_raw_configuration}
use minio_operator.EnvFile.Quoting.{Spaces, IsKey, assignment, pars_env_entry-quoted}
use minio_operator.EnvFile.Lines.{IsWritable, render, parse_raw_configuration-render}

abbrev key : Runes
key = codes "MINIO_ROOT_USER"

abbrev user : Runes
user = codes "a = b"

space : Spaces (b' ' ∷ [])
unfolding is_space
space = (refl, tt)

key-IsKey : IsKey key
unfolding is_space
key-IsKey = ground arith

no_export : cut_prefix (codes "export") key ≡ none
unfolding cut_prefix
no_export = refl

pars_env_entry-quoted_example :
    pars_env_entry ((b' ' ∷ []) ++ assignment key b'"' user (b' ' ∷ [])) ≡ key_value key user
pars_env_entry-quoted_example =
    pars_env_entry-quoted (b' ' ∷ []) key user (b' ' ∷ []) b'"' space key-IsKey no_export (inl refl)
      space

abbrev pairs : List (Runes × Runes)
pairs = (key, user) ∷ []

pair-IsWritable : IsWritable (key, user)
pair-IsWritable = record {
  key = key-IsKey;
  not_export = no_export;
  one_line = ground arith;
  fits = omega arith;
}

parse_raw_configuration-render_example :
    parse_raw_configuration (render pairs)
    ≡ foldl
        (λ (config : Config) (e : Runes × Runes). apply_entry config (key_value e.0 e.1))
        []
        pairs
parse_raw_configuration-render_example = parse_raw_configuration-render pairs (pair-IsWritable, tt)

get-parse_raw_configuration_example :
    get (codes "accesskey") (parse_raw_configuration (render pairs))
    ≡ foldl (given (codes "accesskey")) none (map pars_env_entry (scan (raw_lines (render pairs))))
get-parse_raw_configuration_example = get-parse_raw_configuration (codes "accesskey") (render pairs)
