-- ===== src/EnvFile.antt =====
-- utils/utils.go: the reader of a `config.env` file. A text is a list of code points, of UTF-8 that
-- is valid; only the line limit of `bufio.Scanner` counts bytes.
pub mod Quoting
pub mod Credentials
pub mod Lines
use Prim.Native.Char.{code}
use minio_operator.Base.{
  ℕ, zero, suc, ◌+◌, String, Bool, true, false, ◌&&◌, ◌||◌, Option, none, some, List, [], ◌∷◌, ltb,
  leb, nat_beq, if◌then◌else◌,
}
use minio_operator.Base.Dict.{insert, lookup}
use minio_operator.Base.Equality.{Eq, list_eq, nat_eq}

abbrev pub Runes : Type 0
Runes = List ℕ

abbrev pub codes : String → Runes
codes String.[] = []
codes (String.◌∷◌ c s) = code c ∷ codes s

abbrev pub runes_eq : Eq Runes
runes_eq = list_eq nat_eq

-- `unicode.IsSpace`
unfoldable pub is_space : ℕ → Bool
is_space c =
    (leb 9 c && leb c 13)
    || nat_beq c 32
    || nat_beq c 0x85
    || nat_beq c 0xa0
    || nat_beq c 0x1680
    || (leb 0x2000 c && leb c 0x200a)
    || nat_beq c 0x2028
    || nat_beq c 0x2029
    || nat_beq c 0x202f
    || nat_beq c 0x205f
    || nat_beq c 0x3000

unfoldable pub trim_left : Runes → Runes
trim_left [] = []
trim_left (c ∷ cs) = let rest = trim_left cs in if is_space c then rest else c ∷ cs

-- `c` in front of what is left of the text behind it
abbrev pub keep : ℕ → Runes → Runes
keep c [] = if is_space c then [] else c ∷ []
keep c (d ∷ ds) = c ∷ d ∷ ds

unfoldable pub trim_right : Runes → Runes
trim_right [] = []
trim_right (c ∷ cs) = keep c (trim_right cs)

-- `strings.TrimSpace`
unfoldable pub trim_space : Runes → Runes
unfolding trim_left trim_right is_space
trim_space s = trim_right (trim_left s)

-- What follows the prefix, if the text has it.
unfoldable pub cut_prefix : Runes → Runes → Option Runes
cut_prefix [] s = some s
cut_prefix (p ∷ ps) [] = none
cut_prefix (p ∷ ps) (c ∷ cs) = let rest = cut_prefix ps cs in if nat_beq p c then rest else none

-- `strings.TrimPrefix(s, "export")`
unfoldable pub trim_export : Runes → Runes
trim_export s = elim (cut_prefix (codes "export") s) [ none ↦ s | some rest ↦ rest ]

-- The tokens of `strings.SplitN(s, "=", 2)`: `no_separator` where there is one token only.
pub data Split : Type 0 where
  no_separator : Split
  tokens : Runes → Runes → Split

abbrev pub before : ℕ → Split → Split
before c no_separator = no_separator
before c (tokens k v) = tokens (c ∷ k) v

unfoldable pub split_n : Runes → Split
split_n [] = no_separator
split_n (c ∷ cs) = let rest = before c (split_n cs) in if nat_beq c b'=' then tokens [] cs else rest

-- The text without its last code point `q`, if that is what it ends in.
unfoldable pub cut_last : ℕ → Runes → Option Runes
cut_last q [] = none
cut_last q (c ∷ []) = if nat_beq c q then some [] else none
cut_last q (c ∷ d ∷ ds) = elim (cut_last q (d ∷ ds)) [ none ↦ none | some s ↦ some (c ∷ s) ]

-- A value of two or more bytes that stands in quotes loses them.
unfoldable pub unquote : Runes → Runes
unfolding cut_last
unquote [] = []
unquote (quote ∷ rest) =
    if nat_beq quote b'"' || nat_beq quote b'\''
    then elim (cut_last quote rest) [ none ↦ quote ∷ rest | some inner ↦ inner ]
    else quote ∷ rest

-- `envKV` beside the error: `skip` for `Skip: true`.
pub data Entry : Type 0 where
  skip malformed : Entry
  key_value : Runes → Runes → Entry

abbrev pub split_entry : Split → Entry
split_entry no_separator = malformed
split_entry (tokens k v) = key_value k (unquote v)

abbrev pub trimmed_entry : Runes → Entry
trimmed_entry [] = skip
trimmed_entry (c ∷ cs) =
    if nat_beq c b'#' then skip else split_entry (split_n (trim_space (trim_export (c ∷ cs))))

-- `parsEnvEntry`
unfoldable pub pars_env_entry : Runes → Entry
pars_env_entry env_entry = trimmed_entry (trim_space env_entry)

-- `map[string][]byte`
abbrev pub Config : Type 0
Config = List (Runes × Runes)

abbrev pub put : Runes → Runes → Config → Config
put = insert runes_eq

abbrev pub get : Runes → Config → Option Runes
get = lookup runes_eq

abbrev pub is_access : Runes → Bool
is_access k = runes_eq.beq k (codes "MINIO_ROOT_USER") || runes_eq.beq k (codes "MINIO_ACCESS_KEY")

abbrev pub is_secret : Runes → Bool
is_secret k =
    runes_eq.beq k (codes "MINIO_ROOT_PASSWORD") || runes_eq.beq k (codes "MINIO_SECRET_KEY")

-- What one line does to the map. The value that is copied is the one just written.
unfoldable pub apply_entry : Config → Entry → Config
apply_entry config skip = config
apply_entry config malformed = config
apply_entry config (key_value k v) =
    if is_access k
    then put (codes "accesskey") v (put k v config)
    else if is_secret k
    then put (codes "secretkey") v (put k v config)
    else put k v config

-- The loop over the lines.
unfoldable pub read_lines : Config → List Runes → Config
read_lines config [] = config
read_lines config (l ∷ ls) = read_lines (apply_entry config (pars_env_entry l)) ls

-- A code point in front of the first line.
abbrev pub onto_first : ℕ → List Runes → List Runes
onto_first c [] = (c ∷ []) ∷ []
onto_first c (l ∷ ls) = (c ∷ l) ∷ ls

-- The text between line feeds; none behind the last one if nothing stands there.
unfoldable pub raw_lines : Runes → List Runes
raw_lines [] = []
raw_lines (c ∷ cs) =
    let rest = raw_lines cs in if nat_beq c b'\n' then [] ∷ rest else onto_first c rest

-- The bytes of a code point in UTF-8.
abbrev pub width : ℕ → ℕ
width c = if ltb c 0x80 then 1 else if ltb c 0x800 then 2 else if ltb c 0x10000 then 3 else 4

abbrev pub byte_length : Runes → ℕ
byte_length [] = 0
byte_length (c ∷ cs) = width c + byte_length cs

-- `bufio.MaxScanTokenSize`
abbrev pub max_scan_token_size : ℕ
max_scan_token_size = 65536

unfoldable pub drop_cr : Runes → Runes
unfolding cut_last
drop_cr l = elim (cut_last b'\r' l) [ none ↦ l | some inner ↦ inner ]

-- What `scanner.Scan` gives: a line that fills the buffer ends the scan.
unfoldable pub scan : List Runes → List Runes
unfolding drop_cr
scan [] = []
scan (l ∷ ls) =
    let rest = scan ls in if ltb (byte_length l) max_scan_token_size then drop_cr l ∷ rest else []

-- `ParseRawConfiguration`; a nil slice is the empty text.
unfoldable pub parse_raw_configuration : Runes → Config
parse_raw_configuration configuration = read_lines [] (scan (raw_lines configuration))
