-- ===== src/DocSearch/Shown.antt =====
-- docs/html/search: a name in the tables, from the search field to the row that is shown.
use cring.Prelude.{ℕ, ◌≡◌, refl, ap, ◌∙◌, List, [], ◌∷◌, Option, none, some, true, false, arith}
use cring.Prelude.{get_elem?, take}
use cring.DocSearch.Text.{Text, begins, strip_leading, strip_trailing, ascii_lower, is_ascii}
use cring.DocSearch.Id.{convert_to_id, same_text_sound}
use cring.DocSearch.Rows.{block, Results, search_key, search_results}
use cring.DocSearch.Create.{Datum, create_results, rows_of, sr_id}
use cring.DocSearch.CreateSearch.{displays, shown_if, search_results-create_results}
use cring.DocSearch.Box.State.{Box}
use cring.DocSearch.Box.Search.{
  Site, returned, index_of, idx_char, is_high_surrogate, results_location, search,
}
use cring.DocSearch.Box.Index.{search-index_of}
use cring.DocSearch.Data.{index_sections_with_content}
use cring.DocSearch.Data.Tables.{search_tables}
use cring.DocSearch.Found.{is_found, is_at, name_key, datum_found, get_elem?-map}

-- What JavaScript documents of its texts: `toLowerCase` on ASCII characters, and `unescape` behind `escape`.
pub record TextLaws (site : Site) (unescape : Text → Text) : Type 0 where
  pub lowers : (t : Text) → is_ascii t ≡ true → site.to_lower_case t ≡ ascii_lower t
  pub lower_sr :
      (id : Text) → site.to_lower_case (sr_id id) ≡ b's' ∷ b'r' ∷ b'_' ∷ site.to_lower_case id
  pub unescapes : (t : Text) → unescape (site.escape t) ≡ t

is_at-eq : (k : ℕ) (o : Option ℕ) → is_at k o ≡ true → o ≡ some k
is_at-eq k none h = absurd (ground arith)
is_at-eq k (some i) h = ap some (ground arith)

-- What `is_found` says.
record Finds (section : Text) (k : ℕ) (d : Datum) : Type 0 where
  name : is_ascii d.name ≡ true
  first : is_ascii (take 1 d.name) ≡ true
  trimmed : is_ascii (strip_trailing d.name) ≡ true
  id : is_ascii d.id ≡ true
  single : is_high_surrogate (ascii_lower d.name) ≡ false
  leading : strip_leading d.name ≡ d.name
  place : index_of (ascii_lower (take 1 d.name)) section ≡ some k
  key : begins (name_key d.name) (ascii_lower d.id) ≡ true

is_found-Finds :
    (section : Text) (k : ℕ) (d : Datum) → is_found section k d ≡ true → Finds section k d
is_found-Finds section k d h = record {
  name = ground (arith, h);
  first = ground (arith, h);
  trimmed = ground (arith, h);
  id = ground (arith, h);
  single = ground (arith, h);
  leading = same_text_sound (strip_leading d.name) d.name (ground (arith, h));
  place = is_at-eq k _ (ground (arith, h));
  key = ground (arith, h);
}

module _ (site : Site) (unescape : Text → Text) (laws : TextLaws site unescape) where
  idx_char-name :
      (section : Text) (k : ℕ) (d : Datum)
      → Finds section k d
      → idx_char site d.name ≡ ascii_lower (take 1 d.name)
  unfolding idx_char
  idx_char-name section k d f =
      rw (laws.lowers d.name f.name, f.single) (laws.lowers (take 1 d.name) f.first)

  search_key-name :
      (section : Text) (k : ℕ) (d : Datum)
      → Finds section k d
      → search_key site.to_lower_case unescape [] (b'?' ∷ site.escape d.name) ≡ name_key d.name
  unfolding search_key
  search_key-name section k d f =
      rw (laws.unescapes d.name, f.leading)
        (ap convert_to_id (laws.lowers (strip_trailing d.name) f.trimmed))

  -- If `toLowerCase` lowers ASCII texts and the `SR_` in front of an id, and `unescape` undoes
  -- `escape`: for each name in the tables of docs/html/search, typed into the field with its
  -- filter chosen, `Search` returns and opens the page of its table, and behind the `Search` of
  -- the page that `createResults` draws from that table, which reads the text out of the location,
  -- the row of the name is shown.
  pub search-shows :
      (b : Box) (k j : ℕ) (tables : List (List Datum)) (table : List Datum) (d : Datum)
      (page : Results)
      → site.sections ≡ index_sections_with_content
      → get_elem? search_tables b.search_index ≡ some tables
      → get_elem? tables k ≡ some table
      → get_elem? table j ≡ some d
      → b.field_value ≡ d.name
      → page.rows ≡ rows_of (create_results 0 table)
      → (c : Box) × (search site b ≡ returned c)
        × (c.results_location ≡ results_location site b d.name (some k))
        × (get_elem?
              (displays
                (search_results site.to_lower_case unescape page []
                  (b'?' ∷ site.escape d.name)).rows)
              j
            ≡ some block)
  search-shows b k j tables table d page s f t e v r =
      let (section, at, found) = datum_found b.search_index k j tables table d f t e in
      let finds = is_found-Finds section k d found in
      let (c, runs, located, _) = search-index_of site b section (rw s at) in
      (
        c,
        runs,
        located
            ∙ ap (λ x. results_location site b x (index_of (idx_char site x) section))
                (ap strip_leading v ∙ finds.leading)
            ∙ ap (results_location site b d.name)
                (ap (λ x. index_of x section) (idx_char-name section k d finds) ∙ finds.place),
        ap (λ ds. get_elem? ds j)
              (search_results-create_results site.to_lower_case unescape laws.lower_sr table page []
                (b'?' ∷ site.escape d.name) r)
            ∙ get_elem?-map
                (shown_if site.to_lower_case unescape laws.lower_sr
                  (search_key site.to_lower_case unescape [] (b'?' ∷ site.escape d.name)))
                table j d e
            ∙ rw (search_key-name section k d finds, laws.lowers d.id finds.id, finds.key) refl,
      )
