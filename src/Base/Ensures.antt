-- ===== src/Base/Ensures.antt =====
-- What a run of an `Exec` ensures: a predicate on states is kept, whatever the outcome, and the value
-- that is returned satisfies another. `U` says what is known of a run that ends without fuel, `F` what
-- is known of one that ends in an error or a panic: `⊥` excludes it.
use mathlib.Core.Path.{◌≡◌, subst}
use mathlib.Core.Bool.{Bool, true, false}
use minio_operator.Base.Branch.{if◌then◌else◌}
use minio_operator.Base.Exec.{
  Reply, value, failure, Outcome, ok, err, panic, unfinished, Exec, Op, continue, ◌>>=◌,
  reply_outcome, must, call,
}

module _ (U F : Type 0) {E A : Type 0} where
  abbrev pub Post : (A → Type 0) → Outcome E A → Type 0
  Post Q (ok a) = Q a
  Post Q (err e) = F
  Post Q panic = F
  Post Q unfinished = U

module _ (U F : Type 0) {S : Type 0} (P : S → Type 0) where
  abbrev pub Ensures : {E A : Type 0} → Exec S E A → (A → Type 0) → Type 0
  Ensures m Q = (s : S) → P s → Post U F Q (m s).0 × P (m s).1

  module _ {E A B : Type 0} where
    continue-Ensures :
        (o : Outcome E A) (f : A → Exec S E B) (Q : A → Type 0) (R : B → Type 0) (s : S)
        → Post U F Q o
        → P s
        → ((a : A) → Q a → Ensures (f a) R)
        → Post U F R (continue o f s).0 × P (continue o f s).1
    continue-Ensures (ok a) f Q R s q p h = h a q s p
    continue-Ensures (err e) f Q R s q p h = (q, p)
    continue-Ensures panic f Q R s q p h = (q, p)
    continue-Ensures unfinished f Q R s q p h = (q, p)

    pub >>=-Ensures :
        (m : Exec S E A) (f : A → Exec S E B) (Q : A → Type 0) (R : B → Type 0)
        → Ensures m Q
        → ((a : A) → Q a → Ensures (f a) R)
        → Ensures (m >>= f) R
    >>=-Ensures m f Q R h k s p = continue-Ensures (m s).0 f Q R (m s).1 (h s p).0 (h s p).1 k

  module _ {E A : Type 0} where
    pub if-Ensures :
        (b : Bool) (m n : Exec S E A) (Q : A → Type 0)
        → Ensures m Q
        → Ensures n Q
        → Ensures (if b then m else n) Q
    if-Ensures true m n Q h k = h
    if-Ensures false m n Q h k = k

    pub call-Ensures :
        (op : Op S E A) (Q : Reply E A → Type 0)
        → ((s : S) → P s → Q (op s).0 × P (op s).1)
        → Ensures (call {F = E} op) Q
    call-Ensures op Q h = h

-- The value and the state of a run that succeeded.
pub ok-Post :
    {S E A : Type 0} (P : S → Type 0) (Q : A → Type 0) {x : Outcome E A × S} {a : A} {s' : S}
    → x ≡ (ok a, s')
    → Post ⊥ (Unit {0}) Q x.0 × P x.1
    → Q a × P s'
ok-Post P Q e h = subst (λ y. Post ⊥ (Unit {0}) Q y.0 × P y.1) e h

module _ (U : Type 0) {S : Type 0} (P : S → Type 0) {E A : Type 0} where
  must_reply :
      (reply : Reply E A) → Post U (Unit {0}) {E = E} (λ (_ : A). Unit {0}) (reply_outcome reply)
  must_reply (value a) = tt
  must_reply (failure e) = tt

  pub must-Ensures :
      (op : Op S E A) → ((s : S) → P s → P (op s).1) → Ensures U (Unit {0}) P (must op) (λ _. Unit)
  must-Ensures op h s p = (must_reply (op s).0, h s p)

-- A predicate on states is kept, however a run ends.
module _ {S : Type 0} (P : S → Type 0) where
  abbrev pub Keeps : {E A : Type 0} → Exec S E A → Type 0
  Keeps m = Ensures (Unit {0}) (Unit {0}) P m (λ _. Unit)

  module _ {E A : Type 0} where
    pub >>=-Keeps :
        {B : Type 0} (m : Exec S E A) (f : A → Exec S E B)
        → Keeps m
        → ((a : A) → Keeps (f a))
        → Keeps (m >>= f)
    >>=-Keeps m f h k =
        >>=-Ensures (Unit {0}) (Unit {0}) P m f (λ _. Unit) (λ _. Unit) h (λ a _. k a)

    pub if-Keeps : (b : Bool) (m n : Exec S E A) → Keeps m → Keeps n → Keeps (if b then m else n)
    if-Keeps b m n = if-Ensures (Unit {0}) (Unit {0}) P b m n (λ _. Unit)

    pub must-Keeps : (op : Op S E A) → ((s : S) → P s → P (op s).1) → Keeps (must op)
    must-Keeps op h = must-Ensures (Unit {0}) P op h
