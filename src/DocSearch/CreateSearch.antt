-- ===== src/DocSearch/CreateSearch.antt =====
-- search.js: `createResults`, and `SearchResults.Search` on what it has drawn.
use cring.Prelude.{ℕ, suc, ◌≡◌, refl, ap, ap₂, ◌∙◌, List, [], ◌∷◌, ◌++◌, map, true, if◌then◌else◌}
use cring.DocSearch.Text.{Text, begins}
use cring.DocSearch.Rows.{
  Display, unset, block, hidden, Row, Results, row_match_name, search_key, search_results, revealed,
  search_results-revealed,
}
use cring.DocSearch.Create.{
  Place, Datum, Below, scope, children, sr_id, create_result, create_results, inner_rows, rows_of,
}

-- The displays of the results.
abbrev pub displays : List Row → List Display
displays [] = []
displays (r ∷ rs) = if r.is_result then r.display ∷ displays rs else displays rs

module _ (to_lower_case unescape : Text → Text)
    (lower_sr : (id : Text)
      → to_lower_case (sr_id id) ≡ b's' ∷ b'r' ∷ b'_' ∷ to_lower_case id) where
  match_name :
      (id : Text)
      → (row_match_name to_lower_case unescape
          (record { id = sr_id id; is_result = true; display = unset }))
        ≡ to_lower_case id
  match_name id = rw (lower_sr id) refl

  create_result-id :
      (e : ℕ) (id name : Text) (ps : List Place) → (create_result e id name ps).id ≡ sr_id id
  unfolding create_result
  create_result-id e id name [] = refl
  create_result-id e id name (p ∷ []) = refl
  create_result-id e id name (p ∷ q ∷ ps) = refl

  displays-inner :
      (key : Text) (below : Below) (rs : List Row)
      → displays (map (revealed to_lower_case unescape key) (inner_rows below ++ rs))
        ≡ displays (map (revealed to_lower_case unescape key) rs)
  displays-inner key (scope t) rs = refl
  displays-inner key (children ls) rs = refl

  abbrev pub shown_if : Text → Datum → Display
  shown_if key d = if begins key (to_lower_case d.id) then block else hidden

  displays-create_results :
      (key : Text) (e : ℕ) (ds : List Datum)
      → displays (map (revealed to_lower_case unescape key) (rows_of (create_results e ds)))
        ≡ map (shown_if key) ds
  unfolding create_results
  displays-create_results key e [] = refl
  displays-create_results key e (d ∷ ds) = rw (create_result-id e d.id d.name d.places) (
      ap₂ (λ x xs. x ∷ xs) (ap (λ n. if begins key n then block else hidden) (match_name d.id))
        (displays-inner key (create_result e d.id d.name d.places).below
            (rows_of (create_results (suc e) ds))
          ∙ displays-create_results key (suc e) ds))

  -- If `toLowerCase` turns `SR_` in front of an id into `sr_`, then in a page of the results that
  -- `createResults` has drawn from the data, `Search` shows exactly the results whose id, in lower case,
  -- begins with the text looked for.
  pub search_results-create_results :
      (ds : List Datum) (page : Results) (search query : Text)
      → page.rows ≡ rows_of (create_results 0 ds)
      → displays (search_results to_lower_case unescape page search query).rows
        ≡ map (shown_if (search_key to_lower_case unescape search query)) ds
  search_results-create_results ds page search query e =
      let key = search_key to_lower_case unescape search query in
      ap displays (
        (search_results-revealed to_lower_case unescape page search query).0
        ∙ ap (map (revealed to_lower_case unescape key)) e)
      ∙ displays-create_results key 0 ds
