-- ===== src/Services/Repository.antt =====
-- app/repositories/base.py of Project-source/forge-server: `list` and `count` over the rows that are not
-- deleted, and the page of a list endpoint.
pub mod Laws
use navtra_license.Prelude.{
  ℕ, ◌-◌, ◌*◌, min, max, Bool, List, [], ◌∷◌, leb, filter_by, count_by, take, drop, if◌then◌else◌,
}

module _ {ℓ} {A : Type ℓ} where
  -- `ORDER BY created_at DESC`: rows of one instant stay in the order of the table.
  unfoldable pub insert_newest : (A → ℕ) → A → List A → List A
  insert_newest at a [] = a ∷ []
  insert_newest at a (b ∷ bs) =
      let rest = insert_newest at a bs in if leb (at b) (at a) then a ∷ b ∷ bs else b ∷ rest

  unfoldable pub newest_first : (A → ℕ) → List A → List A
  unfolding insert_newest
  newest_first at [] = []
  newest_first at (a ∷ rest) = insert_newest at a (newest_first at rest)

  -- `list`
  unfoldable pub list_rows : (A → Bool) → (A → ℕ) → ℕ → ℕ → List A → List A
  list_rows live at limit offset rows =
      take limit (drop offset (newest_first at (filter_by live rows)))

  -- `count`
  abbrev pub count_rows : (A → Bool) → List A → ℕ
  count_rows live rows = count_by live rows

  -- What the list endpoints answer: `limit=min(page_size, 100), offset=(max(page, 1) - 1) * page_size`,
  -- for numbers that are not negative, and the total.
  unfoldable pub list_page : (A → Bool) → (A → ℕ) → ℕ → ℕ → List A → List A × ℕ
  unfolding list_rows
  list_page live at page page_size rows = (
    list_rows live at (min page_size 100) ((max page 1 - 1) * page_size) rows,
    count_rows live rows,
  )
