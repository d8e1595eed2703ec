-- ===== src/Claims/Names.antt =====
-- When the names of two claims are equal.
use text.Mathlib.TextLemmas.{append_cancel_left, append_assoc}
use minio_operator.Base.{ℕ, ◌<>◌, ◌≡◌}
use minio_operator.Base.Decimal.{itoa, itoa-cut, itoa-injective}
use minio_operator.Api.Values.{Values}
use minio_operator.Api.Types.{ClaimTemplate, Pool, Minio}
use minio_operator.Claims.{claim_name}

module _ {V : Values} where
  -- Within a pool the indices of the server and of the volume can be read off the name of a claim:
  -- two claims of one pool never have the same name.
  pub claim_name-injective :
      (m : Minio V) (pool : Pool V) (t : ClaimTemplate V) (i j i' j' : ℕ)
      → claim_name m pool t i j ≡ claim_name m pool t i' j'
      → (i ≡ i') × (j ≡ j')
  unfolding claim_name
  claim_name-injective m pool t i j i' j' e =
      let e₁ = append_cancel_left "-" _ _ (append_cancel_left m.name _ _ e) in
      let e₂ = append_cancel_left "-" _ _ (append_cancel_left pool.name _ _ e₁) in
      let (p, e₃) = itoa-cut i i' _ _ e₂ in
      let e₄ = append_cancel_left "-" _ _ (append_cancel_left t.name _ _ e₃) in
      (p, itoa-injective j j' e₄)

  -- Across pools the names do clash: where one pool is called like another with a dash and an
  -- index `k` behind it, and the template of the latter like that of the former with an index `i`
  -- and a dash in front, a claim of each has one and the same name.
  pub claim_names_clash :
      (m : Minio V) (pool pool' : Pool V) (t t' : ClaimTemplate V) (i j k : ℕ)
      → pool'.name ≡ pool.name <> ("-" <> itoa k)
      → t.name ≡ itoa i <> ("-" <> t'.name)
      → claim_name m pool t k j ≡ claim_name m pool' t' i j
  unfolding claim_name
  claim_names_clash m pool pool' t t' i j k p q = rw (p, q) (simp append_assoc)
