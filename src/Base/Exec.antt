-- ===== src/Base/Exec.antt =====
-- Code that talks to the API server: it threads the server's state, returns a value or an error,
-- may panic on a nil pointer, and a loop in it may run out of fuel. What was done before an error
-- stays done.
use mathlib.Core.Path.{◌≡◌, refl, ap, ◌∙◌}

-- What one call of the API server replies.
pub data Reply (E A : Type 0) : Type 0 where
  value : A → Reply E A
  failure : E → Reply E A

pub data Outcome (E A : Type 0) : Type 0 where
  ok : A → Outcome E A
  err : E → Outcome E A
  panic : Outcome E A
  unfinished : Outcome E A

-- `S` is the state of the API server, `E` the errors that are returned.
abbrev pub Exec : Type 0 → Type 0 → Type 0 → Type 0
Exec S E A = S → Outcome E A × S

module _ {S E A : Type 0} where
  abbrev pub pure : A → Exec S E A
  pure a s = (ok a, s)

  abbrev pub raise : E → Exec S E A
  raise e s = (err e, s)

  -- A nil pointer is dereferenced.
  abbrev pub crash : Exec S E A
  crash s = (panic, s)

  abbrev pub out_of_fuel : Exec S E A
  out_of_fuel s = (unfinished, s)

module _ {S A B : Type 0} {E : Type 0} where
  abbrev pub continue : Outcome E A → (A → Exec S E B) → Exec S E B
  continue (ok a) f s = f a s
  continue (err e) f s = (err e, s)
  continue panic f s = (panic, s)
  continue unfinished f s = (unfinished, s)

  infixl 10 ◌>>=◌ ◌>>◌
  abbrev pub ◌>>=◌ : Exec S E A → (A → Exec S E B) → Exec S E B
  ◌>>=◌ m f s = continue (m s).0 f (m s).1

  abbrev pub ◌>>◌ : Exec S E A → Exec S E B → Exec S E B
  m >> n = m >>= λ _. n

-- One call of the API server.
abbrev pub Op : Type 0 → Type 0 → Type 0 → Type 0
Op S E A = S → Reply E A × S

abbrev pub reply_outcome : {E A : Type 0} → Reply E A → Outcome E A
reply_outcome (value a) = ok a
reply_outcome (failure e) = err e

module _ {S E A : Type 0} where
  -- `x, err := op(…); if err != nil { return err }`
  abbrev pub must : Op S E A → Exec S E A
  must op s = (reply_outcome (op s).0, (op s).1)

  -- A call whose error the code looks at.
  abbrev pub call : {F : Type 0} → Op S E A → Exec S F (Reply E A)
  call op s = (ok (op s).0, (op s).1)

-- The constructors of a reply are injective.
module _ {E A : Type 0} where
  pub value_eq : {x y : A} → ◌≡◌ {A = Reply E A} (value x) (value y) → x ≡ y
  value_eq e = cc

  pub failure_eq : {x y : E} → ◌≡◌ {A = Reply E A} (failure x) (failure y) → x ≡ y
  failure_eq e = cc

-- Inversion of a successful run.
module _ {S A B E : Type 0} where
  continue-eq-ok :
      (o : Outcome E A) (f : A → Exec S E B) {s s' : S} {b : B}
      → continue o f s ≡ (ok b, s')
      → (a : A) × (o ≡ ok a) × (f a s ≡ (ok b, s'))
  continue-eq-ok (ok a) f h = (a, refl, h)
  continue-eq-ok (err e) f h = cc
  continue-eq-ok panic f h = cc
  continue-eq-ok unfinished f h = cc

  pub >>=-eq-ok :
      (m : Exec S E A) (f : A → Exec S E B) {s s' : S} {b : B}
      → (m >>= f) s ≡ (ok b, s')
      → (a : A) × (s₁ : S) × (m s ≡ (ok a, s₁)) × (f a s₁ ≡ (ok b, s'))
  >>=-eq-ok m f {s} h =
      let (a, e, h') = continue-eq-ok (m s).0 f h in (a, (m s).1, ap (λ o. (o, (m s).1)) e, h')

-- A step that succeeds, and what follows it.
pub >>=-ok :
    {S A B E : Type 0} (m : Exec S E A) (f : A → Exec S E B) {s s₁ : S} {a : A}
    {x : Outcome E B × S}
    → m s ≡ (ok a, s₁)
    → f a s₁ ≡ x
    → (m >>= f) s ≡ x
>>=-ok m f e k = ap (λ y. continue y.0 f y.1) e ∙ k

pub call-eq-ok :
    {S E F A : Type 0} (op : Op S E A) {s s' : S} {reply : Reply E A}
    → call {F = F} op s ≡ (ok reply, s')
    → op s ≡ (reply, s')
call-eq-ok op h = cc h

pub pure-eq-ok :
    {S E A : Type 0} {a b : A} {s s' : S} → pure {E = E} a s ≡ (ok b, s') → (a ≡ b) × (s ≡ s')
pure-eq-ok h = (cc, cc)
