-- ===== src/DocSearch/Box/Index.antt =====
-- search.js: the page that `SearchBox.Search` opens, by the place in the section of the index.
use cring.Prelude.{
  ℕ, zero, suc, ◌<◌, ◌≡◌, refl, [], ◌∷◌, Option, none, some, true, false, arith, Bool-cases, inl,
  inr,
}
use cring.Prelude.{◌∙◌, get_elem?}
use cring.DocSearch.Text.{Text, strip_leading}
use cring.DocSearch.Rows.{block}
use cring.DocSearch.Box.State.{Box}
use cring.DocSearch.Box.Search.{
  Site, returned, prefix_of, index_of, idx_char, results_page, results_location, show_results,
  search_section, search,
}

abbrev pub drop : ℕ → Text → Text
drop zero t = t
drop (suc n) [] = []
drop (suc n) (c ∷ t) = drop n t

-- `s` stands in `t` at the place found and at none before it, or nowhere if none is found.
abbrev pub IsFirst : Text → Text → Option ℕ → Type 0
IsFirst s t none = (j : ℕ) → prefix_of s (drop j t) ≡ false
IsFirst s t (some i) =
    (prefix_of s (drop i t) ≡ true) × ((j : ℕ) → j < i → prefix_of s (drop j t) ≡ false)

drop_nil : (j : ℕ) → drop j [] ≡ []
drop_nil zero = refl
drop_nil (suc j) = refl

IsFirst-later :
    (s : Text) (c : ℕ) (t : Text) (o : Option ℕ)
    → prefix_of s (c ∷ t) ≡ false
    → IsFirst s t o
    → IsFirst s (c ∷ t) (elim o [ none ↦ none | some i ↦ some (suc i) ])
IsFirst-later s c t none fails p = later
  where
    later : (j : ℕ) → prefix_of s (drop j (c ∷ t)) ≡ false
    later zero = fails
    later (suc j) = p j
IsFirst-later s c t (some i) fails (p, q) = (p, before)
  where
    before : (j : ℕ) → j < suc i → prefix_of s (drop j (c ∷ t)) ≡ false
    before zero lt = fails
    before (suc j) lt = q j (omega arith)

-- `indexOf` finds the first place at which the text stands, and says that there is none only if there
-- is none.
index_of-IsFirst : (s t : Text) → IsFirst s t (index_of s t)
unfolding index_of
index_of-IsFirst s [] = elim (Bool-cases (prefix_of s [])) [
  | inl holds ↦ rw holds (holds, λ j lt. elim lt [ ])
  | inr fails ↦ rw fails (λ j. rw (drop_nil j) fails)
]
index_of-IsFirst s (c ∷ t) = elim (Bool-cases (prefix_of s (c ∷ t))) [
  | inl holds ↦ rw holds (holds, λ j lt. elim lt [ ])
  | inr fails ↦ rw fails (IsFirst-later s c t (index_of s t) fails (index_of-IsFirst s t))
]

show_results-display :
    (site : Site) (b : Box) → (show_results site b).results_window.display ≡ block
unfolding show_results
show_results-display site b = ground arith

show_results-location :
    (site : Site) (b : Box) → (show_results site b).results_location ≡ b.results_location
unfolding show_results
show_results-location site b = ground arith

results_location-key :
    (site : Site) (b : Box) (v : Text) (o : Option ℕ)
    → results_location site (record b { key_timeout = 0 }) v o ≡ results_location site b v o
unfolding results_location results_page
results_location-key site b v none = refl
results_location-key site b v (some i) = refl

results_page-key :
    (site : Site) (b : Box) (o : Option ℕ)
    → results_page site (record b { key_timeout = 0 }) o ≡ results_page site b o
unfolding results_page
results_page-key site b none = refl
results_page-key site b (some i) = refl

-- The page is the one of the place that `indexOf` gives.
pub search-index_of :
    (site : Site) (b : Box) (section : Text)
    → get_elem? site.sections b.search_index ≡ some section
    → (c : Box) × (search site b ≡ returned c)
      × (c.results_location
          ≡ results_location site b
              (strip_leading b.field_value)
              (index_of (idx_char site (strip_leading b.field_value)) section))
      × (c.last_results_page
          ≡ results_page site b (index_of (idx_char site (strip_leading b.field_value)) section))
unfolding search search_section
search-index_of site b section e =
    let v = strip_leading b.field_value in
    let b' = record b { key_timeout = 0 } in
    let o = index_of (idx_char site v) section in
    let located = record b' { results_location = results_location site b' v o } in
    (
      search_section site b' v section,
      rw (search, e) refl,
      show_results-location site located ∙ results_location-key site b v o,
      results_page-key site b o,
    )

-- With a section for the filter, `Search` returns with the results shown: the page of the first place at
-- which the text's first character stands in the section, or the page without matches if it stands
-- nowhere; and the text is the last one searched for.
pub search-opens :
    (site : Site) (b : Box) (section : Text)
    → get_elem? site.sections b.search_index ≡ some section
    → (c : Box) × (o : Option ℕ) × (search site b ≡ returned c)
      × IsFirst (idx_char site (strip_leading b.field_value)) section o
      × (c.results_location ≡ results_location site b (strip_leading b.field_value) o)
      × (c.results_window.display ≡ block)
      × (c.last_search_value ≡ strip_leading b.field_value)
unfolding search search_section
search-opens site b section e =
    let v = strip_leading b.field_value in
    let b' = record b { key_timeout = 0 } in
    let o = index_of (idx_char site v) section in
    let located = record b' { results_location = results_location site b' v o } in
    (
      search_section site b' v section,
      o,
      rw (search, e) refl,
      index_of-IsFirst (idx_char site v) section,
      show_results-location site located ∙ results_location-key site b v o,
      show_results-display site located,
      refl,
    )
