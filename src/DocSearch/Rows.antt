-- ===== src/DocSearch/Rows.antt =====
-- search.js: `SearchResults.Search`, which shows the rows of the results page that match.
use cring.Prelude.{ℕ, ◌+◌, ◌≡◌, refl, ap₂, List, [], ◌∷◌, map, Bool, false, ◌&&◌, arith}
use cring.Prelude.{leb, ◌==◌, if◌then◌else◌}
use cring.DocSearch.Text.{Text, is_empty, strip_leading, strip_trailing, begins}
use cring.DocSearch.Id.{convert_to_id}

-- `style.display`: `unset` is the empty string that an element starts with.
pub data Display : Type 0 where
  unset block inline_block hidden : Display

-- A `div` of the page; `is_result` says whether its class is `SRResult`.
pub record Row : Type 0 where
  pub id : Text
  pub is_result : Bool
  pub display : Display

-- `this.lastMatchCount`, and the display of the two messages.
pub record Results : Type 0 where
  pub rows : List Row
  pub searching : Display
  pub no_matches : Display
  pub last_match_count : ℕ

abbrev pub is_digit : ℕ → Bool
is_digit c = leb b'0' c && leb c b'9'

-- Behind `sr`: digits and an underscore, or the whole text `all` if these do not follow.
abbrev pub strip_number : Text → Text → Text
strip_number all [] = all
strip_number all (c ∷ s) =
    let rest = strip_number all s in if is_digit c then rest else if c == b'_' then s else all

-- `rowMatchName.replace(/^sr\d*_/, '')`
abbrev pub strip_sr : Text → Text
strip_sr [] = []
strip_sr (c ∷ []) = c ∷ []
strip_sr (c ∷ d ∷ s) = if c == b's' && d == b'r' then strip_number (c ∷ d ∷ s) s else c ∷ d ∷ s

-- `to_lower_case` and `unescape` are JavaScript's; `query` is `window.location.search`.
module _ (to_lower_case unescape : Text → Text) where
  abbrev pub after_mark : Text → Text
  after_mark [] = []
  after_mark (c ∷ s) = s

  -- The text that is looked for. A call with no argument passes the empty text.
  unfoldable pub search_key : (search query : Text) → Text
  search_key search query =
      let given = if is_empty search then unescape (after_mark query) else search in
      convert_to_id (to_lower_case (strip_trailing (strip_leading given)))

  abbrev pub row_match_name : Row → Text
  row_match_name row = strip_sr (to_lower_case row.id)

  -- A round of the loop: the row after it, and the matches so far.
  unfoldable pub match_row : Text → ℕ → Row → Row × ℕ
  match_row key matches row =
      if row.is_result
      then if begins key (row_match_name row)
        then (record row { display = block }, matches + 1)
        else (record row { display = hidden }, matches)
      else (row, matches)

  unfoldable pub match_rows : Text → ℕ → List Row → List Row × ℕ
  match_rows key matches [] = ([], matches)
  match_rows key matches (row ∷ rows) =
      let (row', matches') = match_row key matches row in
      let (rows', last) = match_rows key matches' rows in (row' ∷ rows', last)

  unfoldable pub search_results : Results → (search query : Text) → Results
  search_results page search query =
      let (rows, matches) = match_rows (search_key search query) 0 page.rows in
      record {
        rows = rows;
        searching = hidden;
        no_matches = if matches == 0 then block else hidden;
        last_match_count = matches;
      }

  -- A row of the results that is shown.
  abbrev pub is_shown : Row → Bool
  is_shown row = elim row.display [ block ↦ row.is_result | _ ↦ false ]

  abbrev pub shown_count : List Row → ℕ
  shown_count [] = 0
  shown_count (row ∷ rows) = (if is_shown row then 1 else 0) + shown_count rows

  -- A row as the search wants it: a result is shown if its name begins with the key.
  abbrev pub revealed : Text → Row → Row
  revealed key row =
      if row.is_result
      then record row { display = if begins key (row_match_name row) then block else hidden }
      else row

  match_rows-revealed :
      (key : Text) (n : ℕ) (rows : List Row) → (match_rows key n rows).0 ≡ map (revealed key) rows
  unfolding match_rows match_row
  match_rows-revealed key n [] = refl
  match_rows-revealed key n (row ∷ rows) =
      ap₂ (λ x xs. x ∷ xs) (first n row) (match_rows-revealed key (match_row key n row).1 rows)
    where
      first : (n : ℕ) (row : Row) → (match_row key n row).0 ≡ revealed key row
      first n row = ground arith

  match_row-count :
      (key : Text) (n : ℕ) (row : Row)
      → (match_row key n row).1 ≡ n + (if is_shown (match_row key n row).0 then 1 else 0)
  unfolding match_row
  match_row-count key n row = ground arith

  match_rows-count :
      (key : Text) (n : ℕ) (rows : List Row)
      → (match_rows key n rows).1 ≡ n + shown_count (match_rows key n rows).0
  unfolding match_rows
  match_rows-count key n [] = omega arith
  match_rows-count key n (row ∷ rows) =
      omega (arith, match_row-count key n row, match_rows-count key (match_row key n row).1 rows)

  -- After a search each result is shown if and only if its name begins with the text looked for, every
  -- other row is as before, the number of results shown is `lastMatchCount`, the message that there are
  -- none is shown exactly if that is 0, and the message of the search under way is hidden.
  pub search_results-revealed :
      (page : Results) (search query : Text)
      → let after = search_results page search query in
        (after.rows ≡ map (revealed (search_key search query)) page.rows)
        × (after.last_match_count ≡ shown_count after.rows)
        × (after.no_matches ≡ (if shown_count after.rows == 0 then block else hidden))
        × (after.searching ≡ hidden)
  unfolding search_results
  search_results-revealed page search query =
      let n = match_rows-count (search_key search query) 0 page.rows in
      let count : (match_rows (search_key search query) 0 page.rows).1
          ≡ shown_count (match_rows (search_key search query) 0 page.rows).0 =
        omega arith in
      (match_rows-revealed (search_key search query) 0 page.rows, count, rw count refl, refl)
