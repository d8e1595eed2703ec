-- ===== src/EnvFile/Credentials.antt =====
-- What the map of a parsed file holds under each key.
use mathlib.Core.Path.{ap₂}
use mathlib.Core.List.{foldl}
use minio_operator.Base.{
  Bool, true, false, ◌&&◌, ◌||◌, Option, none, some, List, [], ◌∷◌, map, ◌≡◌, refl, ap, ◌⊎◌, ◌∙◌,
  Bool-cases, inl, inr, arith, if◌then◌else◌,
}
use minio_operator.Base.Dict.{lookup-insert}
use minio_operator.EnvFile.{
  Runes, codes, runes_eq, Entry, skip, malformed, key_value, Config, put, get, is_access, is_secret,
  pars_env_entry, apply_entry, read_lines, raw_lines, scan, parse_raw_configuration,
}

-- Does a line for key `k` give a value to key `j`? The two names of each root credential count
-- for the key under which the operator looks the credential up.
abbrev pub gives : Runes → Runes → Bool
gives j k =
    runes_eq.beq k j
    || (runes_eq.beq (codes "accesskey") j && is_access k)
    || (runes_eq.beq (codes "secretkey") j && is_secret k)

-- The value of `j` after one more line.
abbrev pub given : Runes → Option Runes → Entry → Option Runes
given j old skip = old
given j old malformed = old
given j old (key_value k v) = if gives j k then some v else old

-- Whatever the three comparisons and the two tests say, the assignments amount to one.
one_assignment :
    (a s k_j a_j s_j : Bool) (v old : Option Runes)
    → a && s ≡ false
    → (if a
        then (if a_j then v else if k_j then v else old)
        else if s
        then (if s_j then v else if k_j then v else old)
        else if k_j
        then v
        else old)
      ≡ (if k_j || (a_j && a) || (s_j && s) then v else old)
one_assignment true true k_j a_j s_j v old h = cc
one_assignment true false k_j a_j s_j v old h = ground arith
one_assignment false true k_j a_j s_j v old h = ground arith
one_assignment false false k_j a_j s_j v old h = ground arith

get-if :
    (j : Runes) (b : Bool) (x y : Config)
    → get j (if b then x else y) ≡ (if b then get j x else get j y)
get-if j true x y = refl
get-if j false x y = refl

one_of : (k a b : Runes) → runes_eq.beq k a || runes_eq.beq k b ≡ true → (k ≡ a) ⊎ (k ≡ b)
one_of k a b h = elim (Bool-cases (runes_eq.beq k a)) [
  | inl e ↦ inl ((runes_eq.beq_iff k a).0 e)
  | inr n ↦ inr ((runes_eq.beq_iff k b).0 (rw n at h))
]

-- No key is both an access key and a secret key.
exclusive : (k : Runes) → is_access k && is_secret k ≡ false
exclusive k = elim (Bool-cases (is_access k)) [
  | inl access ↦ elim (one_of k (codes "MINIO_ROOT_USER") (codes "MINIO_ACCESS_KEY") access) [
    | inl e ↦ rw e
    | inr e ↦ rw e
  ]
  | inr e ↦ rw e
]

get-apply_entry :
    (j : Runes) (config : Config) (e : Entry)
    → get j (apply_entry config e) ≡ given j (get j config) e
unfolding apply_entry
get-apply_entry j config skip = refl
get-apply_entry j config malformed = refl
get-apply_entry j config (key_value k v) =
    let old = lookup-insert runes_eq k j v config in
    get-if j (is_access k) _ _
    ∙ ap₂ (λ x y. if is_access k then x else y)
        (lookup-insert runes_eq (codes "accesskey") j v (put k v config)
          ∙ ap (λ o. if runes_eq.beq (codes "accesskey") j then some v else o) old)
        (get-if j (is_secret k) _ _
          ∙ ap₂ (λ x y. if is_secret k then x else y)
              (lookup-insert runes_eq (codes "secretkey") j v (put k v config)
                ∙ ap (λ o. if runes_eq.beq (codes "secretkey") j then some v else o) old)
              old)
    ∙ one_assignment (is_access k) (is_secret k) (runes_eq.beq k j)
        (runes_eq.beq (codes "accesskey") j) (runes_eq.beq (codes "secretkey") j) (some v)
        (get j config) (exclusive k)

get-read_lines :
    (j : Runes) (ls : List Runes) (config : Config)
    → get j (read_lines config ls) ≡ foldl (given j) (get j config) (map pars_env_entry ls)
unfolding read_lines
get-read_lines j [] config = refl
get-read_lines j (l ∷ ls) config =
    get-read_lines j ls (apply_entry config (pars_env_entry l))
    ∙ ap (λ o. foldl (given j) o (map pars_env_entry ls))
        (get-apply_entry j config (pars_env_entry l))

-- Each key of the parsed file holds the value of the last line, among those that were scanned,
-- that gives it one: a line for the key itself, for the key `accesskey` also one for
-- MINIO_ROOT_USER or MINIO_ACCESS_KEY, and for `secretkey` also one for MINIO_ROOT_PASSWORD or
-- MINIO_SECRET_KEY. Empty lines, comments and malformed lines give nothing.
pub get-parse_raw_configuration :
    (j configuration : Runes)
    → get j (parse_raw_configuration configuration)
      ≡ foldl (given j) none (map pars_env_entry (scan (raw_lines configuration)))
unfolding parse_raw_configuration
get-parse_raw_configuration j configuration = get-read_lines j (scan (raw_lines configuration)) []
