-- ===== src/Api/DeepCopy/Fresh.antt =====
-- What makes a copy deep: it reads as the original does, and what is later written to the memory that
-- was there before does not show in it.
use mathlib.Core.Path.{subst}
use mathlib.Core.List.{append_assoc, append-nil}
use minio_operator.Base.{
  ℕ, zero, suc, Option, none, some, List, [], ◌∷◌, ◌++◌, length, length-append, get_elem?, ◌≡◌,
  refl, sym, ap, ◌∙◌, arith,
}
use minio_operator.Api.DeepCopy.Memory.{
  Boxing, bind_option, Copy, pure, ◌>>=◌, load, new, copy_all, copy_pointer,
}

module _ {C : Type 0} where
  -- A run from the memory `h` succeeds, only adds objects, and whatever the objects of `h` become, `Q`
  -- holds of the result.
  pub record Fresh {A : Type 0} (h : List C) (o : Option (A × List C)) (Q : List C → A → Type 0)
      : Type 0 where
    pub result : A
    pub more : List C
    pub runs : o ≡ some (result, h ++ more)
    pub shows : (g : List C) → length g ≡ length h → Q (g ++ more) result

  -- Objects that are added do not show.
  abbrev pub Grows : {A : Type 0} → (List C → A → Type 0) → Type 0
  Grows {A} Q = (h more : List C) (y : A) → Q h y → Q (h ++ more) y

  pub pure-Fresh :
      {A : Type 0} (h : List C) (a : A) (Q : List C → A → Type 0)
      → ((g : List C) → Q g a)
      → Fresh h (pure a h) Q
  pure-Fresh h a Q q = record {
    result = a;
    more = [];
    runs = ap (λ m. some (a, m)) (sym (append-nil h));
    shows = λ g l. q (g ++ []);
  }

  same_length : (g h more : List C) → length g ≡ length h → length (g ++ more) ≡ length (h ++ more)
  same_length g h more l = omega (arith, length-append g more, length-append h more, l)

  pub >>=-Fresh :
      {A B : Type 0} (h : List C) (m : Copy C A) (f : A → Copy C B) (Q : List C → A → Type 0)
      (R : List C → B → Type 0)
      → Grows Q
      → Fresh h (m h) Q
      → ((y : A) (more : List C) → Fresh (h ++ more) (f y (h ++ more)) (λ g z. Q g y → R g z))
      → Fresh h ((m >>= f) h) R
  >>=-Fresh h m f Q R grow x k =
      let z = k x.result x.more in
      record {
        result = z.result;
        more = x.more ++ z.more;
        runs =
            ap (λ o. bind_option o (λ p. f p.0 p.1)) x.runs
            ∙ z.runs
            ∙ ap (λ t. some (z.result, t)) (append_assoc h x.more z.more);
        shows = λ g l.
            subst (λ t. R t z.result) (append_assoc g x.more z.more)
              (z.shows (g ++ x.more) (same_length g h x.more l)
                (grow (g ++ x.more) z.more x.result (x.shows g l)));
      }

  -- `R` relates an object in memory to what it stands for; `into` copies it deeply.
  pub record Deep {A B : Type 0} (R : List C → A → B → Type 0) (into : A → Copy C A) : Type 0 where
    pub grows : (b : B) → Grows (λ h a. R h a b)
    pub copies : (h : List C) (a : A) (b : B) → R h a b → Fresh h (into a h) (λ g y. R g y b)

  pub get_elem?-append :
      (h more : List C) (p : ℕ) {c : C} → get_elem? h p ≡ some c → get_elem? (h ++ more) p ≡ some c
  get_elem?-append [] more p e = cc
  get_elem?-append (x ∷ h) more zero e = e
  get_elem?-append (x ∷ h) more (suc p) e = get_elem?-append h more p e

  get_elem?-end : (g : List C) (c : C) → get_elem? (g ++ c ∷ []) (length g) ≡ some c
  get_elem?-end [] c = refl
  get_elem?-end (x ∷ g) c = get_elem?-end g c

  load_lem :
      {A : Type 0} (k : Boxing C A) (h : List C) (p : ℕ) (a : A)
      → get_elem? h p ≡ some (k.box a)
      → load k p h ≡ some (a, h)
  load_lem k h p a e = rw (e, k.unbox-box a) refl

  -- The end of a copy: what was put into memory, and where.
  new-Fresh :
      {A : Type 0} (k : Boxing C A) (h : List C) (a : A) (Q : List C → Option ℕ → Type 0)
      → ((g : List C) → Q (g ++ k.box a ∷ []) (some (length g)))
      → Fresh h ((new k a >>= λ q. pure (some q)) h) Q
  new-Fresh k h a Q q = record {
    result = some (length h);
    more = k.box a ∷ [];
    runs = refl;
    shows = λ g l. subst (λ n. Q (g ++ k.box a ∷ []) (some n)) l (q g);
  }

  -- One step of a copy that goes on.
  pub Deep-step :
      {A B D : Type 0} {R : List C → A → B → Type 0} {into : A → Copy C A} (T : Deep R into)
      (h : List C) (a : A) (b : B) (f : A → Copy C D) (Q : List C → D → Type 0)
      → R h a b
      → ((y : A) (more : List C) → Fresh (h ++ more) (f y (h ++ more)) (λ g z. R g y b → Q g z))
      → Fresh h ((into a >>= f) h) Q
  Deep-step {R} {into} T h a b f Q r k =
      >>=-Fresh h (into a) f (λ g y. R g y b) Q (T.grows b) (T.copies h a b r) k

  -- A value without pointers.
  pub flat-Deep : {A : Type 0} → Deep {A = A} (λ _ a b. a ≡ b) pure
  flat-Deep = record {
    grows = λ b h more a e. e;
    copies = λ h a b e. pure-Fresh h a (λ _ y. y ≡ b) (λ g. e);
  }

  -- Related lists.
  abbrev pub AllShow :
      {A B : Type 0} → (List C → A → B → Type 0) → List C → List A → List B → Type 0
  AllShow R h [] [] = Unit
  AllShow R h [] (_ ∷ _) = ⊥
  AllShow R h (_ ∷ _) [] = ⊥
  AllShow R h (a ∷ xs) (b ∷ bs) = R h a b × AllShow R h xs bs

  -- A pointer, and what it points to.
  abbrev pub Points :
      {A B : Type 0}
      → (List C → A → B → Type 0)
      → Boxing C A
      → List C
      → Option ℕ
      → Option B
      → Type 0
  Points R k h none none = Unit
  Points R k h none (some _) = ⊥
  Points R k h (some _) none = ⊥
  Points {A} R k h (some p) (some b) = (a : A) × (get_elem? h p ≡ some (k.box a)) × R h a b

  module _ {A B : Type 0} {R : List C → A → B → Type 0} {into : A → Copy C A}
      (T : Deep R into) where
    all-grows : (bs : List B) → Grows (λ h xs. AllShow R h xs bs)
    all-grows [] h more [] r = tt
    all-grows [] h more (a ∷ xs) r = absurd r
    all-grows (b ∷ bs) h more [] r = absurd r
    all-grows (b ∷ bs) h more (a ∷ xs) (r, rs) = (T.grows b h more a r, all-grows bs h more xs rs)

    all-copies :
        (h : List C) (xs : List A) (bs : List B)
        → AllShow R h xs bs
        → Fresh h (copy_all into xs h) (λ g ys. AllShow R g ys bs)
    unfolding copy_all
    all-copies h [] [] r = pure-Fresh h [] (λ g ys. AllShow R g ys []) (λ g. tt)
    all-copies h [] (b ∷ bs) r = absurd r
    all-copies h (a ∷ xs) [] r = absurd r
    all-copies h (a ∷ xs) (b ∷ bs) (r, rs) =
        Deep-step T h a b _ (λ g ys. AllShow R g ys (b ∷ bs)) r
          (λ y more.
            >>=-Fresh (h ++ more) (copy_all into xs) _ (λ g ys. AllShow R g ys bs)
              (λ g ys. R g y b → AllShow R g ys (b ∷ bs)) (all-grows bs)
              (all-copies (h ++ more) xs bs (all-grows bs h more xs rs))
              (λ ys more'.
                pure-Fresh (h ++ more ++ more') (y ∷ ys)
                  (λ g zs. AllShow R g ys bs → R g y b → AllShow R g zs (b ∷ bs))
                  (λ g rs' r'. (r', rs'))))

    pub all-Deep : Deep (AllShow R) (copy_all into)
    all-Deep = record { grows = all-grows; copies = all-copies }

    module _ (k : Boxing C A) where
      Points-grows : (b : Option B) → Grows (λ h p. Points R k h p b)
      Points-grows none h more none r = tt
      Points-grows none h more (some p) r = absurd r
      Points-grows (some b) h more none r = absurd r
      Points-grows (some b) h more (some p) (a, e, r) =
          (a, get_elem?-append h more p e, T.grows b h more a r)

      Points-copies :
          (h : List C) (p : Option ℕ) (b : Option B)
          → Points R k h p b
          → Fresh h (copy_pointer k into p h) (λ g q. Points R k g q b)
      Points-copies h none none r = pure-Fresh h none (λ g q. Points R k g q none) (λ g. tt)
      Points-copies h none (some b) r = absurd r
      Points-copies h (some p) none r = absurd r
      Points-copies h (some p) (some b) (a, e, r) = rw (load_lem k h p a e) (
          Deep-step T h a b _ (λ g q. Points R k g q (some b)) r
            (λ y more.
              new-Fresh k (h ++ more) y (λ g q. R g y b → Points R k g q (some b))
                (λ g r'. (y, get_elem?-end g (k.box y), r'))))

      pub pointer-Deep : Deep (Points R k) (copy_pointer k into)
      pointer-Deep = record { grows = Points-grows; copies = Points-copies }

    -- The same with the value that an object stands for, where that is made from another.
    pub via-Deep : {D : Type 0} (f : B → D) → Deep (λ h a d. (b : B) × R h a b × (d ≡ f b)) into
    via-Deep f = record {
      grows = λ d h more a (b, r, e). (b, T.grows b h more a r, e);
      copies = λ h a d (b, r, e).
          let y = T.copies h a b r in
          record {
            result = y.result;
            more = y.more;
            runs = y.runs;
            shows = λ g l. (b, y.shows g l, e);
          };
    }
