-- ===== src/Base/Decimal.antt =====
-- `strconv.Itoa` on a number that is not negative, and how its text is read back.
use Prim.Native.Nat.{ℕ, zero, suc, ◌+◌, ◌*◌, ◌-◌, ◌/◌, ◌%◌, ◌≤◌, ◌<◌}
use Prim.Native.Char.{Char, code}
use Prim.Native.String.{String, ◌++◌ as ◌<>◌}
use mathlib.Core.Path.{◌≡◌, refl, sym, ap, ap₂, ◌∙◌, subst}
use mathlib.Core.Logic.{inl, inr}
use native.Mathlib.Omega.{arith}
use text.Mathlib.TextLemmas.{nil-append, cons-append, cons-eq-cons}
use minio_operator.Base.Branch.{ltb, if◌then◌else◌, Bool-cases}

pub digit : ℕ → Char
digit zero = "0"
digit (suc zero) = "1"
digit (suc (suc zero)) = "2"
digit (suc (suc (suc zero))) = "3"
digit (suc (suc (suc (suc zero)))) = "4"
digit (suc (suc (suc (suc (suc zero))))) = "5"
digit (suc (suc (suc (suc (suc (suc zero)))))) = "6"
digit (suc (suc (suc (suc (suc (suc (suc zero))))))) = "7"
digit (suc (suc (suc (suc (suc (suc (suc (suc zero)))))))) = "8"
digit (suc (suc (suc (suc (suc (suc (suc (suc (suc n))))))))) = "9"

abbrev char_text : Char → String
char_text c = String.◌∷◌ c String.[]

-- The digits of `n`, the last one added behind the others; `f` bounds their number.
itoa_fuel : ℕ → ℕ → String
itoa_fuel zero n = String.[]
itoa_fuel (suc f) n =
    let rest = itoa_fuel f (n / 10) in
    if ltb n 10 then char_text (digit n) else rest <> char_text (digit (n % 10))

unfoldable pub itoa : ℕ → String
unfolding itoa_fuel digit
itoa n = itoa_fuel (suc n) n

itoa_407 : itoa 407 ≡ "407"
unfolding itoa
itoa_407 = refl

-- The number that a text of digits spells behind `acc`.
abbrev read : ℕ → String → ℕ
read acc String.[] = acc
read acc (String.◌∷◌ c s) = read (acc * 10 + code c - 48) s

abbrev Digits : String → Type 0
Digits String.[] = Unit
Digits (String.◌∷◌ c s) = (48 ≤ code c) × Digits s

code-digit : (n : ℕ) → n < 10 → code (digit n) ≡ 48 + n
unfolding digit
code-digit zero h = refl
code-digit (suc zero) h = refl
code-digit (suc (suc zero)) h = refl
code-digit (suc (suc (suc zero))) h = refl
code-digit (suc (suc (suc (suc zero)))) h = refl
code-digit (suc (suc (suc (suc (suc zero))))) h = refl
code-digit (suc (suc (suc (suc (suc (suc zero)))))) h = refl
code-digit (suc (suc (suc (suc (suc (suc (suc zero))))))) h = refl
code-digit (suc (suc (suc (suc (suc (suc (suc (suc zero)))))))) h = refl
code-digit (suc (suc (suc (suc (suc (suc (suc (suc (suc n))))))))) h = omega arith

read-append :
    (s : String) (acc : ℕ) (c : Char) → read acc (s <> char_text c) ≡ read acc s * 10 + code c - 48
read-append String.[] acc c = rw nil-append
read-append (String.◌∷◌ d s) acc c = rw cons-append (read-append s _ c)

Digits-append : (s : String) (c : Char) → Digits s → 48 ≤ code c → Digits (s <> char_text c)
Digits-append String.[] c h k = rw nil-append (k, tt)
Digits-append (String.◌∷◌ d s) c (p, h) k = rw cons-append (p, Digits-append s c h k)

read-itoa_fuel : (f n : ℕ) → n < f → read 0 (itoa_fuel f n) ≡ n
unfolding itoa_fuel
read-itoa_fuel zero n h = elim h [ ]
read-itoa_fuel (suc f) n h = elim (Bool-cases (ltb n 10)) [
  | inl small ↦ rw small (omega (arith, code-digit n (ground arith)))
  | inr large ↦
      rw (large, read-append, read-itoa_fuel f (n / 10) (ground arith))
        (omega (arith, code-digit (n % 10) (omega arith)))
]

itoa_fuel-Digits : (f n : ℕ) → Digits (itoa_fuel f n)
unfolding itoa_fuel
itoa_fuel-Digits zero n = tt
itoa_fuel-Digits (suc f) n = elim (Bool-cases (ltb n 10)) [
  | inl small ↦ rw small (omega (arith, code-digit n (ground arith)), tt)
  | inr large ↦ rw large (
      Digits-append _ (digit (n % 10)) (itoa_fuel-Digits f (n / 10))
        (omega (arith, code-digit (n % 10) (omega arith))))
]

-- Different numbers have different texts.
pub itoa-injective : (n m : ℕ) → itoa n ≡ itoa m → n ≡ m
unfolding itoa
itoa-injective n m e =
    sym (read-itoa_fuel (suc n) n (omega arith))
    ∙ ap (read 0) e
    ∙ read-itoa_fuel (suc m) m (omega arith)

abbrev dash : Char
dash = "-"

cut_at_dash :
    (s t x y : String)
    → Digits s
    → Digits t
    → s <> (String.◌∷◌ dash x) ≡ t <> (String.◌∷◌ dash y)
    → (s ≡ t) × (x ≡ y)
cut_at_dash String.[] String.[] x y h k e =
    (refl, (cons-eq-cons.0 (sym (nil-append _) ∙ e ∙ nil-append _)).1)
cut_at_dash String.[] (String.◌∷◌ d t) x y h k e =
    let (p, q) = cons-eq-cons.0 (sym (nil-append _) ∙ e ∙ cons-append d t _) in
    absurd (omega (arith, k.0, ap code p))
cut_at_dash (String.◌∷◌ c s) String.[] x y h k e =
    let (p, q) = cons-eq-cons.0 (sym (cons-append c s _) ∙ e ∙ nil-append _) in
    absurd (omega (arith, h.0, ap code p))
cut_at_dash (String.◌∷◌ c s) (String.◌∷◌ d t) x y h k e =
    let (p, q) = cons-eq-cons.0 (sym (cons-append c s _) ∙ e ∙ cons-append d t _) in
    let (u, v) = cut_at_dash s t x y h.1 k.1 q in (ap₂ String.◌∷◌ p u, v)

dash-append : (x : String) → "-" <> x ≡ String.◌∷◌ dash x
dash-append x = cons-append dash String.[] x ∙ ap (String.◌∷◌ dash) (nil-append x)

-- A number and a dash can be told apart from what follows them.
pub itoa-cut :
    (n m : ℕ) (x y : String) → itoa n <> ("-" <> x) ≡ itoa m <> ("-" <> y) → (n ≡ m) × (x ≡ y)
unfolding itoa
itoa-cut n m x y e =
    let (p, q) =
      cut_at_dash (itoa n) (itoa m) x y (itoa_fuel-Digits (suc n) n) (itoa_fuel-Digits (suc m) m)
        (ap (itoa n <>◌) (sym (dash-append x)) ∙ e ∙ ap (itoa m <>◌) (dash-append y)) in
    (itoa-injective n m p, q)

Digits-no_dash : (s x : String) → Digits (s <> String.◌∷◌ dash x) → ⊥
Digits-no_dash String.[] x h =
    let k = subst Digits (nil-append (String.◌∷◌ dash x)) h in omega (arith, k.0)
Digits-no_dash (String.◌∷◌ c s) x h =
    Digits-no_dash s x (subst Digits (cons-append c s (String.◌∷◌ dash x)) h).1

cut_at_last_dash :
    (s t x y : String)
    → Digits x
    → Digits y
    → s <> (String.◌∷◌ dash x) ≡ t <> (String.◌∷◌ dash y)
    → (s ≡ t) × (x ≡ y)
cut_at_last_dash String.[] String.[] x y h k e =
    (refl, (cons-eq-cons.0 (sym (nil-append _) ∙ e ∙ nil-append _)).1)
cut_at_last_dash String.[] (String.◌∷◌ d t) x y h k e =
    let (p, q) = cons-eq-cons.0 (sym (nil-append _) ∙ e ∙ cons-append d t _) in
    absurd (Digits-no_dash t y (subst Digits q h))
cut_at_last_dash (String.◌∷◌ c s) String.[] x y h k e =
    let (p, q) = cons-eq-cons.0 (sym (cons-append c s _) ∙ e ∙ nil-append _) in
    absurd (Digits-no_dash s x (subst Digits (sym q) k))
cut_at_last_dash (String.◌∷◌ c s) (String.◌∷◌ d t) x y h k e =
    let (p, q) = cons-eq-cons.0 (sym (cons-append c s _) ∙ e ∙ cons-append d t _) in
    let (u, v) = cut_at_last_dash s t x y h k q in (ap₂ String.◌∷◌ p u, v)

-- A number behind a dash can be told apart from what stands before them.
pub itoa-cut_last :
    (n m : ℕ) (s t : String) → s <> ("-" <> itoa n) ≡ t <> ("-" <> itoa m) → (s ≡ t) × (n ≡ m)
unfolding itoa
itoa-cut_last n m s t e =
    let (p, q) =
      cut_at_last_dash s t (itoa n) (itoa m) (itoa_fuel-Digits (suc n) n)
        (itoa_fuel-Digits (suc m) m)
        (ap (s <>◌) (sym (dash-append (itoa n))) ∙ e ∙ ap (t <>◌) (dash-append (itoa m))) in
    (p, itoa-injective n m q)
