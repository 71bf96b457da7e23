-- ===== src/Admin/Limits/Windows.antt =====
-- The hits of one key in one window.
use native.Mathlib.Nat.{lt-div-mul-add, div-mul-le_self}
use navtra_license.Prelude.{
  ℕ, suc, ◌+◌, ◌*◌, ◌/◌, ◌≤◌, ◌<◌, min, ◌≡◌, refl, some, none, String, Result, ok, err, Code, ltb,
  arith, if◌then◌else◌, inl, inr, ◌⊎◌, Bool-cases, subst, sym, ap, ◌∙◌,
}
use navtra_license.Admin.Limits.{Counters, window_key, bucket, count_up, hit}
use navtra_license.Admin.Limits.Laws.{CounterLaws, count_up-first, count_up-next}

abbrev pub let_in : Result (Unit {0}) → ℕ
let_in (ok u) = 1
let_in (err e) = 0

module _ {R : Type 0} (K : Counters R) (L : CounterLaws K) (key : String) (limit window : ℕ) where
  -- What happens in the window with the number `b`: hits of the key, how many and how many of them
  -- were let in, and other commands, which leave the counter of the window alone.
  pub data Hits (b : ℕ) : ℕ → ℕ → R → R → Type 0 where
    opens : (r : R) → Hits b 0 0 r r
    hits :
        (code : Code) (now total accepted : ℕ) (r v : R)
        → now / window ≡ b
        → Hits b total accepted r v
        → Hits b
            (suc total)
            (let_in (hit K key limit window code now v).0 + accepted)
            r
            (hit K key limit window code now v).1
    others :
        (total accepted : ℕ) (r v w : R)
        → Hits b total accepted r v
        → L.entry w (window_key key b) ≡ L.entry v (window_key key b)
        → Hits b total accepted r w

  -- The counter of the window, where it was opened, and how many hits were let in.
  Window : ℕ → ℕ → ℕ → R → Type 0
  Window b total accepted v =
      ((total ≡ 0) × ((accepted ≡ 0) × (L.entry v (window_key key b) ≡ none)))
      ⊎ ((n : ℕ) × (end : ℕ) × (L.entry v (window_key key b) ≡ some (suc n, some end))
          × (b * window + window ≤ end)
          × (total ≡ suc n)
          × (accepted ≡ min (suc n) limit))

  hit-counts :
      (code : Code) (now n : ℕ) (v : R)
      → (count_up K (bucket key window now) window now v).0 ≡ n
      → let_in (hit K key limit window code now v).0 ≡ (if ltb limit n then 0 else 1)
  unfolding hit
  hit-counts code now n v e = elim (Bool-cases (ltb limit n)) [
    | inl over ↦ rw (e, over) refl
    | inr within ↦ rw (e, within) refl
  ]

  hit-entry :
      (code : Code) (now : ℕ) (k : String) (v : R)
      → L.entry (hit K key limit window code now v).1 k
        ≡ L.entry (count_up K (bucket key window now) window now v).1 k
  unfolding hit
  hit-entry code now k v = refl

  hit-Window :
      (code : Code) (now total accepted : ℕ) (v : R)
      → 0 < window
      → Window (now / window) total accepted v
      → Window
          (now / window)
          (suc total)
          (let_in (hit K key limit window code now v).0 + accepted)
          (hit K key limit window code now v).1
  unfolding Window
  hit-Window code now total accepted v open_ (inl (none_, (zero_, clean))) =
      let (one, after) =
        count_up-first K L (window_key key (now / window)) window now v (rw clean refl) in
      let below : now / window * window + window ≤ now + window =
        omega (arith, div-mul-le_self now window) in
      inr (
        0,
        now + window,
        hit-entry code now (window_key key (now / window)) v ∙ after,
        below,
        ap suc none_,
        counted_first one,
      )
    where
      counted_first :
          (count_up K (bucket key window now) window now v).0 ≡ 1
          → let_in (hit K key limit window code now v).0 + accepted ≡ min 1 limit
      counted_first one = rw (hit-counts code now 1 v one, zero_) (ground arith)
  hit-Window code now total accepted v open_ (inr (n, end, there, long, all_, some_)) =
      let before : now < end = omega (arith, long, lt-div-mul-add {a = now} {b = window} open_) in
      let (more, after) =
        count_up-next K L (window_key key (now / window)) window now v n end there before in
      inr (
        suc n,
        end,
        hit-entry code now (window_key key (now / window)) v ∙ after,
        long,
        ap suc all_,
        counted_next more,
      )
    where
      counted_next :
          (count_up K (bucket key window now) window now v).0 ≡ suc (suc n)
          → let_in (hit K key limit window code now v).0 + accepted ≡ min (suc (suc n)) limit
      counted_next more = rw (hit-counts code now (suc (suc n)) v more, some_) (ground arith)

  Hits-Window :
      (b total accepted : ℕ) (r v : R)
      → 0 < window
      → L.entry r (window_key key b) ≡ none
      → Hits b total accepted r v
      → Window b total accepted v
  unfolding Window
  Hits-Window b total accepted r v open_ clean (opens _) = inl (refl, (refl, clean))
  Hits-Window b total accepted r v open_ clean (hits code now total' accepted' _ u at_ run) =
      let before = Hits-Window b total' accepted' r u open_ clean run in
      subst
        (λ c.
          Window c (suc total') (let_in (hit K key limit window code now u).0 + accepted')
            (hit K key limit window code now u).1)
        at_
        (hit-Window code now total' accepted' u open_
          (subst (λ c. Window c total' accepted' u) (sym at_) before))
  Hits-Window b total accepted r v open_ clean (others _ _ _ u _ run same) =
      elim (Hits-Window b total accepted r u open_ clean run) [
        | inl (none_, (zero_, there)) ↦ inl (none_, (zero_, same ∙ there))
        | inr (n, end, there, long, all_, some_) ↦ inr (n, end, same ∙ there, long, all_, some_)
      ]

  -- Of the hits of one key in one window, however they are spread over it and whatever is asked in
  -- between, as many are let in as the limit says, or all of them where they are fewer.
  pub within_limit :
      (b total accepted : ℕ) (r v : R)
      → 0 < window
      → L.entry r (window_key key b) ≡ none
      → Hits b total accepted r v
      → accepted ≡ min total limit
  unfolding Window
  within_limit b total accepted r v open_ clean run =
      elim (Hits-Window b total accepted r v open_ clean run) [
        | inl (none_, (zero_, there)) ↦ rw (none_, zero_) (omega arith)
        | inr (n, end, there, long, all_, some_) ↦ rw (all_, some_) refl
      ]
