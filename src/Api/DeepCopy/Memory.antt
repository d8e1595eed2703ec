-- ===== src/Api/DeepCopy/Memory.antt =====
-- A memory that the deep copies allocate in. They write only to what they have allocated, so a memory
-- is the list of its objects, and an address is a position. An object is put into memory when it is
-- complete: `make` and `new`, and the writes to what they return, are one step.
use minio_operator.Base.{ℕ, Option, none, some, List, [], ◌∷◌, ◌++◌, length, get_elem?, ◌≡◌}

-- How objects of one Go type are kept among all objects.
pub record Boxing (C A : Type 0) : Type 0 where
  pub box : A → C
  pub unbox : C → Option A
  pub unbox-box : (a : A) → unbox (box a) ≡ some a

abbrev pub bind_option : {A B : Type 0} → Option A → (A → Option B) → Option B
bind_option none f = none
bind_option (some a) f = f a

-- `none` is the fault of a nil or dangling pointer.
abbrev pub Copy : Type 0 → Type 0 → Type 0
Copy C A = List C → Option (A × List C)

module _ {C : Type 0} where
  abbrev pub pure : {A : Type 0} → A → Copy C A
  pure a h = some (a, h)

  infixl 10 ◌>>=◌
  abbrev pub ◌>>=◌ : {A B : Type 0} → Copy C A → (A → Copy C B) → Copy C B
  ◌>>=◌ m f h = bind_option (m h) (λ p. f p.0 p.1)

  -- `*p`
  abbrev pub load : {A : Type 0} → Boxing C A → ℕ → Copy C A
  load k p h = bind_option (bind_option (get_elem? h p) k.unbox) (λ a. some (a, h))

  -- `new(A)` or `make([]A, …)`, with what is written to it
  abbrev pub new : {A : Type 0} → Boxing C A → A → Copy C ℕ
  new k a h = some (length h, h ++ k.box a ∷ [])

  -- `for i := range *in { (*in)[i].DeepCopyInto(&(*out)[i]) }`
  unfoldable pub copy_all : {A : Type 0} → (A → Copy C A) → List A → Copy C (List A)
  copy_all into [] = pure []
  copy_all into (x ∷ xs) = into x >>= λ y. copy_all into xs >>= λ ys. pure (y ∷ ys)

  -- `if in.X != nil { *out = new(A); (*in).DeepCopyInto(*out) }`
  abbrev pub copy_pointer :
      {A : Type 0} → Boxing C A → (A → Copy C A) → Option ℕ → Copy C (Option ℕ)
  copy_pointer k into none = pure none
  copy_pointer k into (some p) = load k p >>= λ a. into a >>= λ b. new k b >>= λ q. pure (some q)

  -- `if in.X != nil { *out = make([]A, len(*in)); for i := range *in { … } }`
  abbrev pub copy_slice :
      {A : Type 0} → Boxing C (List A) → (A → Copy C A) → Option ℕ → Copy C (Option ℕ)
  copy_slice k into = copy_pointer k (copy_all into)

  -- `DeepCopy`: a copy of what the receiver points to, nil if it is nil.
  abbrev pub deep_copy : {A : Type 0} → Boxing C A → (A → Copy C A) → Option ℕ → Copy C (Option ℕ)
  deep_copy = copy_pointer
