-- ===== src/DocSearch/Files.antt =====
-- docs/html/search: the pages that `SearchBox.Search` opens are there.
use cring.Prelude.{
  ℕ, zero, suc, ◌<◌, ◌≡◌, refl, sym, subst, ap, List, [], ◌∷◌, ◌++◌, some, Bool, true, false, ◌&&◌,
  ◌||◌, arith, Option-cases, Bool-cases, inl, inr, ◌∙◌, ◌⊎◌, Option, none,
}
use cring.Prelude.{◌==◌, ltb, length, get_elem?}
use mathlib.Core.List.{append_assoc, append-nil}
use cring.DocSearch.Text.{Text, codes, same_text, hex, hex_digit, strip_leading}
use cring.DocSearch.Box.State.{Box}
use cring.DocSearch.Box.Search.{
  Site, returned, index_of, idx_char, name_text, results_page, results_location, search,
}
use cring.DocSearch.Box.Index.{search-index_of}
use cring.DocSearch.Data.{index_sections_with_content, index_section_names, search_pages}

abbrev pub one_of : Text → List Text → Bool
one_of t [] = false
one_of t (s ∷ ss) = same_text t s || one_of t ss

abbrev pub page_name : (name : Text) → ℕ → Text
page_name name i = name ++ (b'_' ∷ hex i i)

abbrev below : ℕ → (ℕ → Bool) → Bool
below zero p = true
below (suc n) p = p n && below n p

below-holds : (n : ℕ) (p : ℕ → Bool) (i : ℕ) → below n p ≡ true → i < n → p i ≡ true
below-holds zero p i h lt = absurd (omega arith)
below-holds (suc n) p i h lt = elim (Bool-cases (i == n)) [
  | inl e ↦ subst (λ j. p j ≡ true) {x = n} (ground arith) (ground arith)
  | inr e ↦ below-holds n p i (ground arith) (ground arith)
]

-- Every section has a character, and every place in it has a page.
abbrev are_there : (sections names : List Text) → Bool
are_there [] names = true
are_there (s ∷ ss) [] = false
are_there (s ∷ ss) (n ∷ ns) =
    ltb 0 (length s)
    && (below (length s) (λ i. one_of (page_name n i) search_pages) && are_there ss ns)

are_there-holds :
    (sections names : List Text) (k : ℕ)
    → are_there sections names ≡ true
    → k < length sections
    → (s : Text) × (get_elem? sections k ≡ some s)
      × (0 < length s)
      × ((i : ℕ)
          → i < length s
          → one_of (page_name (name_text (get_elem? names k)) i) search_pages ≡ true)
are_there-holds [] names k h lt = absurd (omega arith)
are_there-holds (s ∷ ss) [] k h lt = absurd (ground arith)
are_there-holds (s ∷ ss) (n ∷ ns) zero h lt = (
  s,
  refl,
  ground arith,
  λ i l. below-holds (length s) (λ j. one_of (page_name n j) search_pages) i (ground arith) l,
)
are_there-holds (s ∷ ss) (n ∷ ns) (suc k) h lt =
    are_there-holds ss ns k (ground arith) (omega arith)

index_of-lt_cons : (a : ℕ) (s t : Text) (i : ℕ) → index_of (a ∷ s) t ≡ some i → i < length t
unfolding index_of
index_of-lt_cons a s [] i h = absurd (ground arith)
index_of-lt_cons a s (c ∷ t) zero h = omega arith
index_of-lt_cons a s (c ∷ t) (suc i) h = omega (arith, index_of-lt_cons a s t i (ground arith))

index_of-lt : (s t : Text) (i : ℕ) → index_of s t ≡ some i → 0 < length t → i < length t
unfolding index_of
index_of-lt [] [] i h lt = absurd (omega arith)
index_of-lt [] (c ∷ t) i h lt = ground arith
index_of-lt (a ∷ s) t i h lt = index_of-lt_cons a s t i h

all_there : are_there index_sections_with_content index_section_names ≡ true
unfolding hex hex_digit
all_there = refl

-- What a location has behind the page: nothing, or the text as `escape` writes it.
abbrev pub IsQuery : Site → Box → Text → Type 0
IsQuery site b query = (query ≡ []) ⊎ (query ≡ b'?' ∷ site.escape (strip_leading b.field_value))

abbrev place_page : Box → Option ℕ → Text
place_page b none = codes "nomatches"
place_page b (some i) = page_name (name_text (get_elem? index_section_names b.search_index)) i

abbrev place_query : Site → Box → Option ℕ → Text
place_query site b none = []
place_query site b (some i) = b'?' ∷ site.escape (strip_leading b.field_value)

place_query-IsQuery : (site : Site) (b : Box) (o : Option ℕ) → IsQuery site b (place_query site b o)
place_query-IsQuery site b none = inl refl
place_query-IsQuery site b (some i) = inr refl

place-results_page :
    (site : Site) (b : Box) (o : Option ℕ)
    → site.section_names ≡ index_section_names
    → results_page site b o ≡ b.results_path ++ (b'/' ∷ (place_page b o ++ b.extension))
unfolding results_page
place-results_page site b none n = refl
place-results_page site b (some i) n = rw n (
    ap (λ x. b.results_path ++ (b'/' ∷ x))
      (sym (
        append_assoc (name_text (get_elem? index_section_names b.search_index)) (b'_' ∷ hex i i)
          b.extension)))

results_location-results_page :
    (site : Site) (b : Box) (o : Option ℕ)
    → results_location site b (strip_leading b.field_value) o
      ≡ results_page site b o ++ place_query site b o
unfolding results_location
results_location-results_page site b none = sym (append-nil (results_page site b none))
results_location-results_page site b (some i) = refl

place-results_location :
    (site : Site) (b : Box) (o : Option ℕ)
    → site.section_names ≡ index_section_names
    → results_location site b (strip_leading b.field_value) o
      ≡ b.results_path ++ (b'/' ∷ (place_page b o ++ (b.extension ++ place_query site b o)))
place-results_location site b o n =
    results_location-results_page site b o
    ∙ ap (λ x. x ++ place_query site b o) (place-results_page site b o n)
    ∙ append_assoc b.results_path (b'/' ∷ (place_page b o ++ b.extension)) (place_query site b o)
    ∙ ap (λ x. b.results_path ++ (b'/' ∷ x))
        (append_assoc (place_page b o) b.extension (place_query site b o))

-- With the tables of searchdata.js, whatever the text of the field and for each of the ten filters,
-- `Search` returns, and the location that it opens in the frame is the results path, a slash, the name
-- of one of the files of docs/html/search, the extension, and then nothing or a question mark and the
-- text as `escape` writes it; `lastResultsPage` is the same without the text.
pub search-one_of :
    (site : Site) (b : Box)
    → site.sections ≡ index_sections_with_content
    → site.section_names ≡ index_section_names
    → b.search_index < 10
    → (c : Box) × (page : Text) × (query : Text) × (search site b ≡ returned c)
      × (c.results_location ≡ b.results_path ++ (b'/' ∷ (page ++ (b.extension ++ query))))
      × (c.last_results_page ≡ b.results_path ++ (b'/' ∷ (page ++ b.extension)))
      × (one_of page search_pages ≡ true)
      × IsQuery site b query
search-one_of site b s n lt =
    let (section, found, long, there) =
      are_there-holds index_sections_with_content index_section_names b.search_index all_there lt in
    let o = index_of (idx_char site (strip_leading b.field_value)) section in
    let (c, runs, located, last) = search-index_of site b section (rw s found) in
    (
      c,
      place_page b o,
      place_query site b o,
      runs,
      located ∙ place-results_location site b o n,
      last ∙ place-results_page site b o n,
      elim (Option-cases o) [
        | inl e ↦ rw e refl
        | inr (i, e) ↦
            rw e
              (there i (index_of-lt (idx_char site (strip_leading b.field_value)) section i e long))
      ],
      place_query-IsQuery site b o,
    )
