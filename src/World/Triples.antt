-- ===== src/World/Triples.antt =====
-- Pre- and postconditions of handlers: what holds of the world after a result, and what holds of it
-- after an error.
use navtra_license.Prelude.{
  ◌≡◌, refl, Bool, true, false, List, [], ◌∷◌, Option, none, some, Result, ok, err, Code, arith,
  All, All-filter_by, filter_by, Bool-cases, inl, inr, ◌⊎◌,
}
use navtra_license.World.{
  M, World, Db, ◌>>=◌, continue_with, raise_when, lift, one_or_none, select_one,
}

module _ {R : Type 0} where
  abbrev pub Holds :
      {A : Type 0} → (A → World R → Type 0) → (World R → Type 0) → Result A × World R → Type 0
  Holds Q E (ok a, w) = Q a w
  Holds Q E (err e, w) = E w

  abbrev pub Triple :
      {A : Type 0}
      → (World R → Type 0)
      → M R A
      → (A → World R → Type 0)
      → (World R → Type 0)
      → Type 0
  Triple P m Q E = (w : World R) → P w → Holds Q E (m w)

  continue-Holds :
      {A B : Type 0} (Q : A → World R → Type 0) (S : B → World R → Type 0) (E : World R → Type 0)
      (r : Result A × World R) (f : A → M R B)
      → Holds Q E r
      → ((a : A) → Triple (Q a) (f a) S E)
      → Holds S E (continue_with r f)
  continue-Holds Q S E (ok a, w) f h k = k a w h
  continue-Holds Q S E (err e, w) f h k = h

  -- The rule for `x ← m; f x`.
  pub bind :
      {A B : Type 0} (P : World R → Type 0) (Q : A → World R → Type 0) (S : B → World R → Type 0)
      (E : World R → Type 0) (m : M R A) (f : A → M R B)
      → Triple P m Q E
      → ((a : A) → Triple (Q a) (f a) S E)
      → Triple P (m >>= f) S E
  bind P Q S E m f h k w p = continue-Holds Q S E (m w) f (h w p) k

  -- A handler that gives a result went through its first step.
  pub continue_inv :
      {A B : Type 0} (r : Result A × World R) (f : A → M R B) {b : B} {w' : World R}
      → continue_with r f ≡ (ok b, w')
      → (a : A) × (w : World R) × (r ≡ (ok a, w)) × (f a w ≡ (ok b, w'))
  continue_inv (ok a, w) f e = (a, w, refl, e)
  continue_inv (err c, w) f e = absurd (ground arith)

  -- What holds in both cases holds of the world.
  pub Holds-both :
      {A : Type 0} (E : World R → Type 0) (r : Result A × World R) → Holds (λ _ w. E w) E r → E r.1
  Holds-both E (ok a, w) h = h
  Holds-both E (err e, w) h = h

  pub raise_when-Triple :
      (P E : World R → Type 0) (b : Bool) (e : Code)
      → ((w : World R) → P w → E w)
      → Triple P (raise_when {R = R} b e) (λ _ w. P w × (b ≡ false)) E
  raise_when-Triple P E true e weaken w p = weaken w p
  raise_when-Triple P E false e weaken w p = (p, refl)

  pub lift-Triple :
      {A : Type 0} (P E : World R → Type 0) (r : Result A)
      → ((w : World R) → P w → E w)
      → Triple P (lift {R = R} r) (λ a w. P w × (r ≡ ok a)) E
  lift-Triple P E (ok a) weaken w p = (p, refl)
  lift-Triple P E (err e) weaken w p = weaken w p

  -- Steps that only look.
  pub raise_when-keeps :
      (P E : World R → Type 0) (b : Bool) (e : Code)
      → ((w : World R) → P w → E w)
      → Triple P (raise_when {R = R} b e) (λ _ w. P w) E
  raise_when-keeps P E true e weaken w p = weaken w p
  raise_when-keeps P E false e weaken w p = p

  pub lift-keeps :
      {A : Type 0} (P E : World R → Type 0) (r : Result A)
      → ((w : World R) → P w → E w)
      → Triple P (lift {R = R} r) (λ _ w. P w) E
  lift-keeps P E (ok a) weaken w p = p
  lift-keeps P E (err e) weaken w p = weaken w p

  pub select_one-keeps :
      {A : Type 0} (P E : World R → Type 0) (table : Db → List A) (p : A → Bool)
      → ((w : World R) → P w → E w)
      → Triple P (select_one {R = R} table p) (λ _ w. P w) E
  select_one-keeps P E table p weaken w h =
      lift-keeps P E (one_or_none (filter_by p (table w.db))) weaken w h

  -- A step that changes nothing.
  pub looks :
      {A : Type 0} (P : World R → Type 0) (m : M R A)
      → ((w : World R) → (m w).1 ≡ w)
      → Triple P m (λ _ w. P w) P
  looks {A} P m same w h = go (m w) (same w)
    where
      go : (r : Result A × World R) → r.1 ≡ w → Holds (λ _ v. P v) P r
      go (ok a, v) e = rw e h
      go (err c, v) e = rw e h

  -- A row that a query found.
  pub select_one-Triple :
      {A : Type 0} (P E : World R → Type 0) (table : Db → List A) (p : A → Bool)
      → ((w : World R) → P w → E w)
      → Triple P
          (select_one {R = R} table p)
          (λ o w. P w × (one_or_none (filter_by p (table w.db)) ≡ ok o))
          E
  select_one-Triple {A} P E table p weaken w h = go (one_or_none (filter_by p (table w.db))) refl
    where
      go :
          (r : Result (Option A))
          → one_or_none (filter_by p (table w.db)) ≡ r
          → Holds (λ o v. P v × (one_or_none (filter_by p (table v.db)) ≡ ok o)) E (r, w)
      go (ok o) e = (h, e)
      go (err c) e = weaken w h

-- What every row satisfies, the one row of a query satisfies.
pub one_or_none-All :
    {A : Type 0} (P : A → Type 0) (rows : List A) {a : A}
    → All P rows
    → one_or_none rows ≡ ok (some a)
    → P a
one_or_none-All P [] h e = absurd (ground arith)
one_or_none-All P (x ∷ []) {a} (h, hs) e = let same : x ≡ a = ground arith in rw same at h
one_or_none-All P (x ∷ y ∷ rest) h e = absurd (ground arith)

-- The three outcomes of `scalar_one_or_none`.
pub Row-cases :
    {A : Type 0} (r : Result (Option A))
    → ((c : Code) × (r ≡ err c)) ⊎ ((r ≡ ok none) ⊎ ((a : A) × (r ≡ ok (some a))))
Row-cases (err c) = inl (c, refl)
Row-cases (ok none) = inr (inl refl)
Row-cases (ok (some a)) = inr (inr (a, refl))

filter_by-test :
    {A : Type 0} (p : A → Bool) (rows : List A) → All (λ a. p a ≡ true) (filter_by p rows)
unfolding filter_by
filter_by-test p [] = tt
filter_by-test p (x ∷ xs) = elim (Bool-cases (p x)) [
  | inl e ↦ rw e (e, filter_by-test p xs)
  | inr e ↦ rw e (filter_by-test p xs)
]

-- So of the one row that passes a test.
pub select-All :
    {A : Type 0} (P : A → Type 0) (p : A → Bool) (rows : List A) {a : A}
    → All P rows
    → one_or_none (filter_by p rows) ≡ ok (some a)
    → P a × (p a ≡ true)
select-All P p rows h e = (
  one_or_none-All P (filter_by p rows) (All-filter_by P p rows h) e,
  one_or_none-All (λ a. p a ≡ true) (filter_by p rows) (filter_by-test p rows) e,
)
