-- ===== src/Adapters/Storage/Laws.antt =====
-- A listing gets every page of the bucket.
use navtra_license.Prelude.{
  ℕ, zero, suc, ◌≤◌, ◌≡◌, refl, ap, sym, true, false, List, [], ◌∷◌, ◌++◌, Option, none, some,
  String, map, length, arith,
}
use navtra_license.Adapters.Storage.{
  ObjectStat, S3Object, ListReply, stat_of, token_given, list_from, list_objects,
}

abbrev pub all_pages : List (List S3Object) → List ObjectStat
all_pages [] = []
all_pages (page ∷ pages) = map stat_of page ++ all_pages pages

append_nil : {A : Type 0} (xs : List A) → xs ++ [] ≡ xs
append_nil [] = refl
append_nil (x ∷ xs) = ap (λ ys. x ∷ ys) (append_nil xs)

module _ (list_objects_v2 : String → String → Option String → ListReply) where
  -- The replies carry these pages from the token on: each but the last is truncated and names the token
  -- of the next.
  abbrev pub Serves : String → String → Option String → List (List S3Object) → Type 0
  Serves bucket prefix token [] = ⊥
  Serves bucket prefix token (page ∷ []) =
      let reply = list_objects_v2 bucket prefix (token_given token) in
      (reply.contents ≡ page) × (reply.is_truncated ≡ false)
  Serves bucket prefix token (page ∷ next ∷ pages) =
      let reply = list_objects_v2 bucket prefix (token_given token) in
      (reply.contents ≡ page)
      × ((reply.is_truncated ≡ true) × Serves bucket prefix reply.next_token (next ∷ pages))

  served :
      (fuel : ℕ) (bucket prefix : String) (token : Option String) (pages : List (List S3Object))
      → length pages ≤ fuel
      → Serves bucket prefix token pages
      → list_from list_objects_v2 fuel bucket prefix token ≡ some (all_pages pages)
  unfolding list_from
  served zero bucket prefix token (page ∷ pages) enough s = absurd (omega (arith, enough))
  served fuel bucket prefix token [] enough s = absurd s
  served (suc fuel) bucket prefix token (page ∷ []) enough (is, last) =
      rw (last, is) (ap some (sym (append_nil (map stat_of page))))
  served (suc fuel) bucket prefix token (page ∷ next ∷ pages) enough (is, (more, rest)) =
      let ih =
        served fuel bucket prefix (list_objects_v2 bucket prefix (token_given token)).next_token
          (next ∷ pages) (omega (arith, enough)) rest in
      rw (more, ih, is) refl

  -- The loop ends, and gives the objects of all pages in order: for a bucket that is served in pages,
  -- as many replies as there are pages suffice.
  pub list_objects-all :
      (fuel : ℕ) (bucket prefix : String) (pages : List (List S3Object))
      → length pages ≤ fuel
      → Serves bucket prefix none pages
      → list_objects list_objects_v2 fuel bucket prefix ≡ some (all_pages pages)
  list_objects-all fuel bucket prefix pages enough s = served fuel bucket prefix none pages enough s
