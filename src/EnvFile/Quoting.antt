-- ===== src/EnvFile/Quoting.antt =====
-- A line `KEY="value"` is read back as it was meant, whatever the value holds.
use mathlib.Core.List.{append_assoc}
use minio_operator.Base.{
  ℕ, true, false, none, some, [], ◌∷◌, ◌++◌, ◌≡◌, ◌≢◌, refl, ap, sym, ◌∙◌, arith, All, nat_beq, inl,
  inr, ◌⊎◌,
}
use minio_operator.EnvFile.{
  Runes, codes, is_space, trim_left, keep, trim_right, trim_space, cut_prefix, trim_export, tokens,
  split_n, cut_last, unquote, key_value, split_entry, trimmed_entry, pars_env_entry,
}

abbrev pub Spaces : Runes → Type 0
Spaces = All (λ c. is_space c ≡ true)

trim_left-Spaces :
    (lead s : Runes) (c : ℕ) → Spaces lead → is_space c ≡ false → trim_left (lead ++ c ∷ s) ≡ c ∷ s
unfolding trim_left
trim_left-Spaces [] s c h n = rw n
trim_left-Spaces (d ∷ lead) s c (p, h) n = rw p (trim_left-Spaces lead s c h n)

trim_right-Spaces : (trail : Runes) → Spaces trail → trim_right trail ≡ []
unfolding trim_right
trim_right-Spaces [] h = refl
trim_right-Spaces (d ∷ trail) (p, h) = rw (trim_right-Spaces trail h, keep, p)

keep_cons : (c : ℕ) (s : Runes) → s ≢ [] → keep c s ≡ c ∷ s
keep_cons c [] h = absurd (h refl)
keep_cons c (d ∷ s) h = refl

append-ne-nil : (s : Runes) (q : ℕ) → s ++ q ∷ [] ≢ []
append-ne-nil [] q e = cc
append-ne-nil (c ∷ s) q e = cc

trim_right-append :
    (s trail : Runes) (q : ℕ)
    → Spaces trail
    → is_space q ≡ false
    → trim_right (s ++ q ∷ trail) ≡ s ++ q ∷ []
unfolding trim_right
trim_right-append [] trail q h n = rw (trim_right-Spaces trail h, keep, n)
trim_right-append (c ∷ s) trail q h n =
    rw (trim_right-append s trail q h n) (keep_cons c (s ++ q ∷ []) (append-ne-nil s q))

-- A text that stands between white space.
trim_space-Spaces :
    (lead s trail : Runes) (c q : ℕ)
    → Spaces lead
    → is_space c ≡ false
    → Spaces trail
    → is_space q ≡ false
    → trim_space (lead ++ c ∷ (s ++ q ∷ trail)) ≡ c ∷ (s ++ q ∷ [])
unfolding trim_space
trim_space-Spaces lead s trail c q h n k m =
    ap trim_right (trim_left-Spaces lead (s ++ q ∷ trail) c h n)
    ∙ trim_right-append (c ∷ s) trail q k m

split_n-append :
    (k v : Runes) → All (λ c. nat_beq c b'=' ≡ false) k → split_n (k ++ b'=' ∷ v) ≡ tokens k v
unfolding split_n
split_n-append [] v h = refl
split_n-append (c ∷ k) v (p, h) = rw (p, split_n-append k v h)

cut_last-append : (q : ℕ) (s : Runes) → cut_last q (s ++ q ∷ []) ≡ some s
unfolding cut_last
cut_last-append q [] = ground arith
cut_last-append q (c ∷ []) = ground (arith, cut_last-append q [])
cut_last-append q (c ∷ d ∷ s) = rw (cut_last-append q (d ∷ s), cut_last)

abbrev pub IsQuote : ℕ → Type 0
IsQuote q = (q ≡ b'"') ⊎ (q ≡ b'\'')

unquote-quoted : (q : ℕ) (v : Runes) → IsQuote q → unquote (q ∷ (v ++ q ∷ [])) ≡ v
unfolding unquote
unquote-quoted q v (inl e) = ground (arith, cut_last-append q v)
unquote-quoted q v (inr e) = ground (arith, cut_last-append q v)

cut_prefix-eq-none :
    (p k rest : Runes)
    → All (λ c. nat_beq c b'=' ≡ false) p
    → cut_prefix p k ≡ none
    → cut_prefix p (k ++ b'=' ∷ rest) ≡ none
unfolding cut_prefix
cut_prefix-eq-none [] k rest h e = cc
cut_prefix-eq-none (p ∷ ps) [] rest (n, h) e = rw n
cut_prefix-eq-none (p ∷ ps) (c ∷ k) rest (n, h) e = ground (arith, cut_prefix-eq-none ps k rest h)

-- `KEY=` and the quoted value, with `trail` behind it.
abbrev pub assignment : Runes → ℕ → Runes → Runes → Runes
assignment k q v trail = k ++ b'=' ∷ q ∷ (v ++ q ∷ trail)

-- A key that starts with neither white space nor `#`, and holds no `=`.
abbrev pub IsKey : Runes → Type 0
IsKey [] = ⊥
IsKey (c ∷ cs) =
    (is_space c ≡ false) × (nat_beq c b'#' ≡ false) × All (λ d. nat_beq d b'=' ≡ false) (c ∷ cs)

IsQuote-not_space : (q : ℕ) → IsQuote q → is_space q ≡ false
unfolding is_space
IsQuote-not_space q (inl e) = ground arith
IsQuote-not_space q (inr e) = ground arith

trim_space-assignment :
    (lead k v trail : Runes) (q : ℕ)
    → Spaces lead
    → IsKey k
    → IsQuote q
    → Spaces trail
    → trim_space (lead ++ assignment k q v trail) ≡ assignment k q v []
trim_space-assignment lead [] v trail q h key quote t = elim key [ ]
trim_space-assignment lead (c ∷ cs) v trail q h (n, m, plain) quote t =
    let s = cs ++ b'=' ∷ q ∷ v in
    ap (λ r. trim_space (lead ++ c ∷ r)) (sym (append_assoc cs (b'=' ∷ q ∷ v) (q ∷ trail)))
    ∙ trim_space-Spaces lead s trail c q h n t (IsQuote-not_space q quote)
    ∙ ap (c ∷◌) (append_assoc cs (b'=' ∷ q ∷ v) (q ∷ []))

split_entry-assignment :
    (k v : Runes) (q : ℕ)
    → IsKey k
    → IsQuote q
    → split_entry (split_n (assignment k q v [])) ≡ key_value k v
split_entry-assignment [] v q key quote = elim key [ ]
split_entry-assignment (c ∷ cs) v q (n, m, plain) quote =
    ap split_entry (split_n-append (c ∷ cs) (q ∷ (v ++ q ∷ [])) plain)
    ∙ ap (key_value (c ∷ cs)) (unquote-quoted q v quote)

trim_export-none : (s : Runes) → cut_prefix (codes "export") s ≡ none → trim_export s ≡ s
unfolding trim_export
trim_export-none s e = ground arith

trim_export_some : (s : Runes) → trim_export (codes "export" ++ s) ≡ s
unfolding trim_export cut_prefix
trim_export_some s = refl

trimmed_entry-assignment :
    (k v : Runes) (q : ℕ)
    → IsKey k
    → IsQuote q
    → cut_prefix (codes "export") k ≡ none
    → trimmed_entry (assignment k q v []) ≡ key_value k v
trimmed_entry-assignment [] v q key quote e = elim key [ ]
trimmed_entry-assignment (c ∷ cs) v q key quote e = rw (key.1) (
    ap (λ s. split_entry (split_n (trim_space s)))
      (trim_export-none _ (
        cut_prefix-eq-none (codes "export") (c ∷ cs) _
          (refl, (refl, (refl, (refl, (refl, (refl, tt)))))) e))
    ∙ ap (λ s. split_entry (split_n s)) (trim_space-assignment [] (c ∷ cs) v [] q tt key quote tt)
    ∙ split_entry-assignment (c ∷ cs) v q key quote)

-- A key that does not begin with `export`, an equals sign and a quoted value, with any white
-- space around them, is read as that key and exactly the text between the quotes. The value may
-- hold quotes, equals signs, `#` and white space.
pub pars_env_entry-quoted :
    (lead k v trail : Runes) (q : ℕ)
    → Spaces lead
    → IsKey k
    → cut_prefix (codes "export") k ≡ none
    → IsQuote q
    → Spaces trail
    → pars_env_entry (lead ++ assignment k q v trail) ≡ key_value k v
unfolding pars_env_entry
pars_env_entry-quoted lead k v trail q h key e quote t =
    ap trimmed_entry (trim_space-assignment lead k v trail q h key quote t)
    ∙ trimmed_entry-assignment k v q key quote e

trim_space_export :
    (lead gap k v trail : Runes) (q : ℕ)
    → Spaces lead
    → IsQuote q
    → Spaces trail
    → trim_space (lead ++ (codes "export" ++ (gap ++ assignment k q v trail)))
      ≡ codes "export" ++ (gap ++ assignment k q v [])
unfolding is_space
trim_space_export lead gap k v trail q h quote t =
    let s = codes "xport" ++ (gap ++ (k ++ b'=' ∷ q ∷ v)) in
    ap (λ r. trim_space (lead ++ b'e' ∷ r)) (sym (simp append_assoc))
    ∙ trim_space-Spaces lead s trail b'e' q h refl t (IsQuote-not_space q quote)
    ∙ simp append_assoc

-- The word `export`, a key, which may itself begin with `export`, an equals sign and a quoted
-- value, with any white space around each or none, are read as that key and exactly the text
-- between the quotes.
pub pars_env_entry_export :
    (lead gap k v trail : Runes) (q : ℕ)
    → Spaces lead
    → Spaces gap
    → IsKey k
    → IsQuote q
    → Spaces trail
    → pars_env_entry (lead ++ (codes "export" ++ (gap ++ assignment k q v trail))) ≡ key_value k v
unfolding pars_env_entry
pars_env_entry_export lead gap k v trail q h g key quote t =
    ap trimmed_entry (trim_space_export lead gap k v trail q h quote t)
    ∙ ap (λ s. split_entry (split_n (trim_space s))) (trim_export_some (gap ++ assignment k q v []))
    ∙ ap (λ s. split_entry (split_n s)) (trim_space-assignment gap k v [] q g key quote tt)
    ∙ split_entry-assignment k v q key quote
