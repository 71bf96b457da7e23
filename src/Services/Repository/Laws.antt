-- ===== src/Services/Repository/Laws.antt =====
-- The pages of a list are the list.
use navtra_license.Prelude.{
  ℕ, zero, suc, ◌+◌, ◌-◌, ◌*◌, ◌≤◌, min, max, ◌≡◌, refl, sym, ap, ◌∙◌, subst, Bool, List, [], ◌∷◌,
  ◌++◌, arith, length, filter_by, take, drop, leb, length-filter_by, inl, inr, Bool-cases,
}
use navtra_license.Services.Repository.{insert_newest, newest_first, list_rows, list_page}

module _ {ℓ} {A : Type ℓ} where
  -- The pages 1 … n of a list endpoint, one after the other.
  unfoldable pub pages : (A → Bool) → (A → ℕ) → ℕ → ℕ → List A → List A
  pages live at zero page_size rows = []
  pages live at (suc n) page_size rows =
      pages live at n page_size rows ++ (list_page live at (suc n) page_size rows).0

  take_nil : (n : ℕ) → take {A = A} n [] ≡ []
  take_nil zero = refl
  take_nil (suc n) = refl

  take-add : (m n : ℕ) (xs : List A) → take m xs ++ take n (drop m xs) ≡ take (m + n) xs
  take-add zero n xs = ap (λ k. take k xs) {x = n} {y = 0 + n} (omega arith)
  take-add (suc m) n [] = take_nil n ∙ sym (take_nil (suc m + n))
  take-add (suc m) n (x ∷ xs) =
      ap (λ ys. x ∷ ys) (take-add m n xs)
      ∙ ap (λ k. take k (x ∷ xs)) {x = suc (m + n)} {y = suc m + n} (omega arith)

  take_all : (n : ℕ) (xs : List A) → length xs ≤ n → take n xs ≡ xs
  take_all zero [] h = refl
  take_all zero (x ∷ xs) h = absurd (omega (arith, h))
  take_all (suc n) [] h = refl
  take_all (suc n) (x ∷ xs) h = ap (λ ys. x ∷ ys) (take_all n xs (omega (arith, h)))

  insert_newest-length :
      (at : A → ℕ) (x : A) (xs : List A) → length (insert_newest at x xs) ≡ suc (length xs)
  unfolding insert_newest
  insert_newest-length at x [] = refl
  insert_newest-length at x (y ∷ ys) = elim (Bool-cases (leb (at y) (at x))) [
    | inl before ↦ rw before refl
    | inr after ↦ rw after (ap suc (insert_newest-length at x ys))
  ]

  newest_first-length : (at : A → ℕ) (xs : List A) → length (newest_first at xs) ≡ length xs
  unfolding newest_first
  newest_first-length at [] = refl
  newest_first-length at (x ∷ xs) =
      insert_newest-length at x (newest_first at xs) ∙ ap suc (newest_first-length at xs)

  one_page :
      (live : A → Bool) (at : A → ℕ) (n page_size : ℕ) (rows : List A)
      → page_size ≤ 100
      → (list_page live at (suc n) page_size rows).0
        ≡ take page_size (drop (n * page_size) (newest_first at (filter_by live rows)))
  unfolding list_page list_rows
  one_page live at n page_size rows small =
      let limit : min page_size 100 ≡ page_size = omega (arith, small) in
      let number : max (suc n) 1 - 1 ≡ n = omega arith in rw (limit, number) refl

  pages-take :
      (live : A → Bool) (at : A → ℕ) (n page_size : ℕ) (rows : List A)
      → page_size ≤ 100
      → pages live at n page_size rows
        ≡ take (n * page_size) (newest_first at (filter_by live rows))
  unfolding pages
  pages-take live at zero page_size rows small =
      ap (λ k. take k (newest_first at (filter_by live rows))) {x = 0} {y = 0 * page_size}
        (omega arith)
  pages-take live at (suc n) page_size rows small =
      rw (pages-take live at n page_size rows small, one_page live at n page_size rows small)
        (take-add (n * page_size) page_size (newest_first at (filter_by live rows))
          ∙ ap (λ k. take k (newest_first at (filter_by live rows))) (omega arith))

  list_page-total :
      (live : A → Bool) (at : A → ℕ) (page page_size : ℕ) (rows : List A)
      → (list_page live at page page_size rows).1 ≡ length (newest_first at (filter_by live rows))
  unfolding list_page
  list_page-total live at page page_size rows =
      sym (newest_first-length at (filter_by live rows) ∙ length-filter_by live rows)

  -- With a page size of at most 100, the pages one after the other are the beginning of the rows that
  -- are not deleted, newest first; where they are enough for the total, they are all of them.
  pub pages-list_rows :
      (live : A → Bool) (at : A → ℕ) (n page_size : ℕ) (rows : List A)
      → page_size ≤ 100
      → (pages live at n page_size rows
          ≡ take (n * page_size) (newest_first at (filter_by live rows)))
        × ((list_page live at 1 page_size rows).1 ≤ n * page_size
            → pages live at n page_size rows ≡ newest_first at (filter_by live rows))
  pages-list_rows live at n page_size rows small = (
    pages-take live at n page_size rows small,
    λ enough.
        pages-take live at n page_size rows small
        ∙ take_all (n * page_size) (newest_first at (filter_by live rows))
            (subst (λ k. k ≤ n * page_size) (list_page-total live at 1 page_size rows) enough),
  )
