-- ===== src/EnvFile/Lines.antt =====
-- From the text of a file to its lines, and a whole file of quoted assignments.
use mathlib.Core.List.{foldl, append_assoc}
use minio_operator.Base.{
  ℕ, ◌<◌, false, none, List, [], ◌∷◌, ◌++◌, ◌≡◌, refl, ap, sym, ◌∙◌, arith, All, nat_beq, inl, map,
}
use minio_operator.EnvFile.{
  Runes, codes, cut_prefix, cut_last, key_value, Config, apply_entry, read_lines, raw_lines,
  byte_length, max_scan_token_size, drop_cr, scan, parse_raw_configuration,
}
use minio_operator.EnvFile.Quoting.{IsKey, assignment, pars_env_entry-quoted}

-- A text with no line feed.
abbrev pub OneLine : Runes → Type 0
OneLine = All (λ c. nat_beq c b'\n' ≡ false)

raw_lines_cons : (l rest : Runes) → OneLine l → raw_lines (l ++ b'\n' ∷ rest) ≡ l ∷ raw_lines rest
unfolding raw_lines
raw_lines_cons [] rest h = refl
raw_lines_cons (c ∷ l) rest (n, h) = rw (n, raw_lines_cons l rest h)

cut_last-append_ne : (q r : ℕ) (s : Runes) → nat_beq r q ≡ false → cut_last q (s ++ r ∷ []) ≡ none
unfolding cut_last
cut_last-append_ne q r [] n = rw n
cut_last-append_ne q r (c ∷ []) n = ground arith
cut_last-append_ne q r (c ∷ d ∷ s) n = rw (cut_last-append_ne q r (d ∷ s) n, cut_last)

drop_cr-quoted : (s : Runes) → drop_cr (s ++ b'"' ∷ []) ≡ s ++ b'"' ∷ []
unfolding drop_cr
drop_cr-quoted s = ground (arith, cut_last-append_ne b'\r' b'"' s refl)

-- The line `KEY="value"`.
abbrev pub line : Runes × Runes → Runes
line (k, v) = assignment k b'"' v []

-- A pair that can be written on a line: the key is one that a line may start with, neither part
-- has a line feed, and the line fits the scanner's buffer.
pub record IsWritable (e : Runes × Runes) : Type 0 where
  pub key : IsKey e.0
  pub not_export : cut_prefix (codes "export") e.0 ≡ none
  pub one_line : OneLine (line e)
  pub fits : byte_length (line e) < max_scan_token_size

abbrev pub render : List (Runes × Runes) → Runes
render [] = []
render (e ∷ es) = line e ++ b'\n' ∷ render es

drop_cr-line : (e : Runes × Runes) → drop_cr (line e) ≡ line e
drop_cr-line (k, v) =
    let split = append_assoc k (b'=' ∷ b'"' ∷ v) (b'"' ∷ []) in
    ap drop_cr (sym split) ∙ drop_cr-quoted (k ++ b'=' ∷ b'"' ∷ v) ∙ split

scan-render :
    (es : List (Runes × Runes)) → All IsWritable es → scan (raw_lines (render es)) ≡ map line es
unfolding scan raw_lines
scan-render [] h = refl
scan-render (e ∷ es) (w, h) =
    ap scan (raw_lines_cons (line e) (render es) w.one_line)
    ∙ ground (arith, drop_cr-line e, scan-render es h)

read_lines-map :
    (es : List (Runes × Runes)) (config : Config)
    → All IsWritable es
    → read_lines config (map line es) ≡ foldl (λ c e. apply_entry c (key_value e.0 e.1)) config es
unfolding read_lines
read_lines-map [] config h = refl
read_lines-map (e ∷ es) config (w, h) =
    ap (λ x. read_lines (apply_entry config x) (map line es))
      (pars_env_entry-quoted [] e.0 e.1 [] b'"' tt w.key w.not_export (inl refl) tt)
    ∙ read_lines-map es (apply_entry config (key_value e.0 e.1)) h

-- A file with one line `KEY="value"` for each pair is read as if the pairs had been put into the
-- map one after the other, if the keys and the lines are as `IsWritable` says.
pub parse_raw_configuration-render :
    (es : List (Runes × Runes))
    → All IsWritable es
    → parse_raw_configuration (render es)
      ≡ foldl (λ config e. apply_entry config (key_value e.0 e.1)) [] es
unfolding parse_raw_configuration
parse_raw_configuration-render es h = ap (read_lines []) (scan-render es h) ∙ read_lines-map es [] h
