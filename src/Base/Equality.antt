-- ===== src/Base/Equality.antt =====
-- Equality tests that decide the path type: `==` on texts and numbers, and `reflect.DeepEqual` on
-- the structs and slices that the operator compares.
use Prim.Native.Nat.{ℕ}
use Prim.Native.String.{String}
use mathlib.Core.Path.{◌≡◌, refl, sym, ap, ◌∙◌}
use mathlib.Core.Logic.{◌↔◌}
use mathlib.Core.Bool.{Bool, true, false, ◌&&◌}
use mathlib.Core.Option.{Option, none, some}
use mathlib.Core.List.{List, [], ◌∷◌}
use native.Mathlib.Omega.{arith}
use text.Mathlib.Text.{◌==◌}
use text.Mathlib.TextEquality.{eq_iff}
use minio_operator.Base.Branch.{nat_beq}

pub record Eq {ℓ} (A : Type ℓ) : Type ℓ where
  pub beq : A → A → Bool
  pub beq_iff : (a b : A) → (beq a b ≡ true) ↔ (a ≡ b)

abbrev pub string_eq : Eq String
string_eq = record { beq = ◌==◌; beq_iff = eq_iff }

pub nat_beq_iff : (a b : ℕ) → (nat_beq a b ≡ true) ↔ (a ≡ b)
nat_beq_iff a b = ground arith

abbrev pub nat_eq : Eq ℕ
nat_eq = record { beq = nat_beq; beq_iff = nat_beq_iff }

abbrev pub bool_beq : Bool → Bool → Bool
bool_beq true b = b
bool_beq false true = false
bool_beq false false = true

pub bool_beq_iff : (a b : Bool) → (bool_beq a b ≡ true) ↔ (a ≡ b)
bool_beq_iff a b = ground arith

abbrev pub bool_eq : Eq Bool
bool_eq = record { beq = bool_beq; beq_iff = bool_beq_iff }

module _ {ℓ} {A : Type ℓ} (e : Eq A) where
  abbrev pub option_beq : Option A → Option A → Bool
  option_beq none none = true
  option_beq (some a) (some b) = e.beq a b
  option_beq none (some _) = false
  option_beq (some _) none = false

  pub option_beq_iff : (a b : Option A) → (option_beq a b ≡ true) ↔ (a ≡ b)
  option_beq_iff none none = (λ _. refl, λ _. refl)
  option_beq_iff (some a) (some b) = ground (arith, e.beq_iff a b)
  option_beq_iff none (some _) = ground arith
  option_beq_iff (some _) none = ground arith

  abbrev pub list_beq : List A → List A → Bool
  list_beq [] [] = true
  list_beq (x ∷ xs) (y ∷ ys) = e.beq x y && list_beq xs ys
  list_beq [] (_ ∷ _) = false
  list_beq (_ ∷ _) [] = false

  pub list_beq_iff : (a b : List A) → (list_beq a b ≡ true) ↔ (a ≡ b)
  list_beq_iff [] [] = (λ _. refl, λ _. refl)
  list_beq_iff (x ∷ xs) (y ∷ ys) = ground (arith, e.beq_iff x y, list_beq_iff xs ys)
  list_beq_iff [] (_ ∷ _) = ground arith
  list_beq_iff (_ ∷ _) [] = ground arith

  -- Pointers, compared by what they point to.
  abbrev pub option_eq : Eq (Option A)
  option_eq = record { beq = option_beq; beq_iff = option_beq_iff }

  abbrev pub list_eq : Eq (List A)
  list_eq = record { beq = list_beq; beq_iff = list_beq_iff }

module _ {ℓ κ} {A : Type ℓ} {B : Type κ} where
  abbrev pub pair_beq : Eq A → Eq B → A × B → A × B → Bool
  pair_beq e f (a, b) (a', b') = e.beq a a' && f.beq b b'

  pub pair_beq_iff : (e : Eq A) (f : Eq B) (p q : A × B) → (pair_beq e f p q ≡ true) ↔ (p ≡ q)
  pair_beq_iff e f (a, b) (a', b') = ground (arith, e.beq_iff a a', f.beq_iff b b')

  infixr 30 ◌⊗◌
  abbrev pub ◌⊗◌ : Eq A → Eq B → Eq (A × B)
  e ⊗ f = record { beq = pair_beq e f; beq_iff = pair_beq_iff e f }

  pub via_iff :
      (f : A → B) (g : B → A)
      → ((a : A) → g (f a) ≡ a)
      → (e : Eq B) (a b : A) → (e.beq (f a) (f b) ≡ true) ↔ (a ≡ b)
  via_iff f g back e a b =
      (λ h. sym (back a) ∙ ap g ((e.beq_iff _ _).0 h) ∙ back b, λ p. (e.beq_iff _ _).1 (ap f p))

  -- Equality of structs by that of the tuples of their fields.
  abbrev pub via : (f : A → B) (g : B → A) → ((a : A) → g (f a) ≡ a) → Eq B → Eq A
  via f g back e = record { beq = λ a b. e.beq (f a) (f b); beq_iff = via_iff f g back e }
