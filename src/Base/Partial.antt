-- ===== src/Base/Partial.antt =====
-- Pure code that may dereference a nil pointer: `none` is the panic.
use Prim.Native.Nat.{ℕ, zero, suc, ◌+◌, ◌<◌}
use mathlib.Core.Path.{◌≡◌, refl, sym, ap, subst, ◌∙◌}
use mathlib.Core.Option
use mathlib.Core.Option.{Option, none, some}
use native.Mathlib.Omega.{arith}
use mathlib.Core.List.{List, [], ◌∷◌, ◌++◌, map, flat_map, map-append}
use minio_operator.Base.Lists.{All, append-All, length, get_elem?}

module _ {ℓ κ} {A : Type ℓ} {B : Type κ} where
  infixl 10 ◌>>=◌
  abbrev pub ◌>>=◌ : Option A → (A → Option B) → Option B
  none >>= f = none
  some a >>= f = f a

module _ {ℓ} {A : Type ℓ} where
  -- `for i := from; rounds left; i++ { out = append(out, f(i)) }`
  unfoldable pub for_range : ℕ → ℕ → (ℕ → Option A) → Option (List A)
  for_range zero i f = some []
  for_range (suc n) i f = f i >>= λ a. for_range n (suc i) f >>= λ rest. some (a ∷ rest)

  -- The same, where a round appends several items.
  unfoldable pub for_range_flat : ℕ → ℕ → (ℕ → Option (List A)) → Option (List A)
  for_range_flat zero i f = some []
  for_range_flat (suc n) i f =
      f i >>= λ xs. for_range_flat n (suc i) f >>= λ rest. some (xs ++ rest)

pub some_eq {ℓ} : {A : Type ℓ} {a b : A} → some a ≡ some b → a ≡ b
some_eq e = cc

pub >>=-eq-some {ℓ κ} :
    {A : Type ℓ} {B : Type κ} (o : Option A) (f : A → Option B) {b : B}
    → (o >>= f) ≡ some b
    → (a : A) × (o ≡ some a) × (f a ≡ some b)
>>=-eq-some none f h = cc
>>=-eq-some (some a) f h = (a, refl, h)

module _ {ℓ} {A : Type ℓ} where
  -- A loop that cannot fail.
  pub range_map : ℕ → ℕ → (ℕ → A) → List A
  range_map zero i f = []
  range_map (suc n) i f = f i ∷ range_map n (suc i) f

  pub for_range-some :
      (n i : ℕ) (f : ℕ → A) → for_range n i (λ j. some (f j)) ≡ some (range_map n i f)
  unfolding for_range range_map
  for_range-some zero i f = refl
  for_range-some (suc n) i f = rw (for_range-some n (suc i) f)

  -- The item at a position is what the round of that number appended.
  pub for_range-get_elem? :
      (n from : ℕ) (f : ℕ → Option A) (xs : List A) (i : ℕ) {a : A}
      → for_range n from f ≡ some xs
      → get_elem? xs i ≡ some a
      → f (from + i) ≡ some a
  unfolding for_range
  for_range-get_elem? zero from f [] i e g = cc
  for_range-get_elem? zero from f (x ∷ xs) i e g = cc
  for_range-get_elem? (suc n) from f [] i e g = cc
  for_range-get_elem? (suc n) from f (x ∷ xs) zero {a} e g =
      let (b, eb, e') = >>=-eq-some (f from) _ e in
      let (rest, er, e'') = >>=-eq-some (for_range n (suc from) f) _ e' in
      let same : some b ≡ some a = cc in subst (λ k. f k ≡ some a) (omega arith) (eb ∙ same)
  for_range-get_elem? (suc n) from f (x ∷ xs) (suc i) {a} e g =
      let (b, eb, e') = >>=-eq-some (f from) _ e in
      let (rest, er, e'') = >>=-eq-some (for_range n (suc from) f) _ e' in
      let same : some rest ≡ some xs = cc in
      subst (λ k. f k ≡ some a) (omega arith)
        (for_range-get_elem? n (suc from) f xs i (er ∙ same) g)

  -- What holds of every item that a round can append holds of the loop's result.
  pub for_range-All :
      {P : A → Type 0} (n i : ℕ) (f : ℕ → Option A) {xs : List A}
      → ((j : ℕ) (a : A) → f j ≡ some a → P a)
      → for_range n i f ≡ some xs
      → All P xs
  unfolding for_range
  for_range-All {P} zero i f h e = subst (All P) (some_eq e) tt
  for_range-All {P} (suc n) i f h e =
      let (a, ea, e') = >>=-eq-some (f i) _ e in
      let (rest, er, e'') = >>=-eq-some (for_range n (suc i) f) _ e' in
      subst (All P) (some_eq e'') (h i a ea, for_range-All n (suc i) f h er)

  -- Every round has appended an item, of which what holds of all of them holds.
  pub for_range-each :
      (P : A → Type 0) (n from : ℕ) (f : ℕ → Option A) (xs : List A) (k : ℕ)
      → k < n
      → for_range n from f ≡ some xs
      → All P xs
      → (a : A) × (f (from + k) ≡ some a) × P a
  unfolding for_range
  for_range-each P zero from f xs k h e all = absurd (omega arith)
  for_range-each P (suc n) from f xs zero h e all =
      let (a, ea, e') = >>=-eq-some (f from) _ e in
      let (rest, er, e'') = >>=-eq-some (for_range n (suc from) f) _ e' in
      let (p, _) = subst (All P) (sym (some_eq e'')) all in
      (a, subst (λ j. f j ≡ some a) (omega arith) ea, p)
  for_range-each P (suc n) from f xs (suc k) h e all =
      let (a, ea, e') = >>=-eq-some (f from) _ e in
      let (rest, er, e'') = >>=-eq-some (for_range n (suc from) f) _ e' in
      let (_, ps) = subst (All P) (sym (some_eq e'')) all in
      let (b, eb, p) = for_range-each P n (suc from) f rest k (omega arith) er ps in
      (b, subst (λ j. f j ≡ some b) (omega arith) eb, p)

  pub for_range_flat-each :
      (P : A → Type 0) (n from : ℕ) (f : ℕ → Option (List A)) (xs : List A) (k : ℕ)
      → k < n
      → for_range_flat n from f ≡ some xs
      → All P xs
      → (ys : List A) × (f (from + k) ≡ some ys) × All P ys
  unfolding for_range_flat
  for_range_flat-each P zero from f xs k h e all = absurd (omega arith)
  for_range_flat-each P (suc n) from f xs zero h e all =
      let (ys, ey, e') = >>=-eq-some (f from) _ e in
      let (rest, er, e'') = >>=-eq-some (for_range_flat n (suc from) f) _ e' in
      let (p, _) = append-All P ys rest (subst (All P) (sym (some_eq e'')) all) in
      (ys, subst (λ j. f j ≡ some ys) (omega arith) ey, p)
  for_range_flat-each P (suc n) from f xs (suc k) h e all =
      let (ys, ey, e') = >>=-eq-some (f from) _ e in
      let (rest, er, e'') = >>=-eq-some (for_range_flat n (suc from) f) _ e' in
      let (_, ps) = append-All P ys rest (subst (All P) (sym (some_eq e'')) all) in
      let (zs, ez, p) = for_range_flat-each P n (suc from) f rest k (omega arith) er ps in
      (zs, subst (λ j. f j ≡ some zs) (omega arith) ez, p)

  pub length-for_range :
      (n i : ℕ) (f : ℕ → Option A) {xs : List A} → for_range n i f ≡ some xs → length xs ≡ n
  unfolding for_range
  length-for_range zero i f e = ap length (sym (some_eq e))
  length-for_range (suc n) i f e =
      let (a, ea, e') = >>=-eq-some (f i) _ e in
      let (rest, er, e'') = >>=-eq-some (for_range n (suc i) f) _ e' in
      ap length (sym (some_eq e'')) ∙ ap suc (length-for_range n (suc i) f er)

module _ {ℓ κ} {A : Type ℓ} {B : Type κ} where
  map_round :
      (g : A → B) (o : Option A) (r : Option (List A))
      → Option.map (map g) (o >>= λ a. r >>= λ xs. some (a ∷ xs))
        ≡ (Option.map g o >>= λ b. Option.map (map g) r >>= λ ys. some (b ∷ ys))
  map_round g none r = refl
  map_round g (some a) none = refl
  map_round g (some a) (some xs) = refl

  pub map-for_range :
      (g : A → B) (n i : ℕ) (f : ℕ → Option A)
      → Option.map (map g) (for_range n i f) ≡ for_range n i (λ j. Option.map g (f j))
  unfolding for_range
  map-for_range g zero i f = refl
  map-for_range g (suc n) i f =
      map_round g (f i) (for_range n (suc i) f)
      ∙ ap (λ r. Option.map g (f i) >>= λ b. r >>= λ ys. some (b ∷ ys))
          (map-for_range g n (suc i) f)

  flat_round :
      (g : A → List B) (o : Option A) (r : Option (List A))
      → Option.map (flat_map g) (o >>= λ a. r >>= λ xs. some (a ∷ xs))
        ≡ (Option.map g o >>= λ b. Option.map (flat_map g) r >>= λ ys. some (b ++ ys))
  unfolding flat_map
  flat_round g none r = refl
  flat_round g (some a) none = refl
  flat_round g (some a) (some xs) = refl

  pub flat_map-for_range :
      (g : A → List B) (n i : ℕ) (f : ℕ → Option A)
      → Option.map (flat_map g) (for_range n i f) ≡ for_range_flat n i (λ j. Option.map g (f j))
  unfolding for_range for_range_flat flat_map
  flat_map-for_range g zero i f = refl
  flat_map-for_range g (suc n) i f =
      flat_round g (f i) (for_range n (suc i) f)
      ∙ ap (λ r. Option.map g (f i) >>= λ b. r >>= λ ys. some (b ++ ys))
          (flat_map-for_range g n (suc i) f)

  map_flat_round :
      (g : A → B) (o r : Option (List A))
      → Option.map (map g) (o >>= λ a. r >>= λ xs. some (a ++ xs))
        ≡ (Option.map (map g) o >>= λ b. Option.map (map g) r >>= λ ys. some (b ++ ys))
  map_flat_round g none r = refl
  map_flat_round g (some a) none = refl
  map_flat_round g (some a) (some xs) = ap some (map-append g a xs)

  pub map-for_range_flat :
      (g : A → B) (n i : ℕ) (f : ℕ → Option (List A))
      → Option.map (map g) (for_range_flat n i f)
        ≡ for_range_flat n i (λ j. Option.map (map g) (f j))
  unfolding for_range_flat
  map-for_range_flat g zero i f = refl
  map-for_range_flat g (suc n) i f =
      map_flat_round g (f i) (for_range_flat n (suc i) f)
      ∙ ap (λ r. Option.map (map g) (f i) >>= λ b. r >>= λ ys. some (b ++ ys))
          (map-for_range_flat g n (suc i) f)
