-- ===== src/DocPages/Page.antt =====
-- A page whose selections are lists: it shows that the laws of jQuery can hold together.
use cring.Prelude.{ℕ, List, [], ◌∷◌, ◌++◌, ◌≡◌, refl, ap, Bool-cases, inl, inr}
use cring.Prelude.{◌==◌, if◌then◌else◌}
use cring.DocSearch.Text.{same_text}
use cring.DocPages.Query.{Query, QueryLaws, Element, Change, changed}
use cring.DocPages.Sections.{select}
use cring.DocPages.Moves.{changed-id}
use cring.DocPages.Fold.{select-ext}

-- The rows of the table, the spans of a row, the elements with an id, and for `toggleInherit` one table.
pub record Page : Type 0 where
  pub rows : List ℕ
  pub spans : ℕ → List ℕ
  pub with_ids : List ℕ
  pub inherited : List ℕ
  pub images : List ℕ
  pub element : ℕ → Element

-- The rows behind the first element of a selection.
abbrev behind : ℕ → List ℕ → List ℕ
behind e [] = []
behind e (f ∷ es) = if f == e then es else behind e es

abbrev next : List ℕ → List ℕ → List ℕ
next rows [] = []
next rows (e ∷ es) = behind e rows

abbrev spans_in : (ℕ → List ℕ) → List ℕ → List ℕ
spans_in spans [] = []
spans_in spans (e ∷ es) = spans e ++ spans_in spans es

abbrev write : Change → ℕ → Page → Page
write c e d = record d {
  element = λ (j : ℕ). if e == j then changed c (d.element j) else d.element j;
}

abbrev pub page : Query Page
page = record {
  directory_rows = λ d. d.rows;
  with_id = λ d t. select (λ e. same_text (d.element e).id t) d.with_ids;
  next_rows = λ d es. next d.rows es;
  find_spans = λ d es. spans_in d.spans es;
  inherit_rows = λ d t. d.inherited;
  header_images = λ d t. d.images;
  read = λ d j. d.element j;
  apply = write;
}

id-write : (c : Change) (e : ℕ) (d : Page) (j : ℕ) → ((write c e d).element j).id ≡ (d.element j).id
id-write c e d j = elim (Bool-cases (e == j)) [
  | inl h ↦ rw h (changed-id c (d.element j))
  | inr h ↦ rw h refl
]

pub page-QueryLaws : QueryLaws page
page-QueryLaws = record {
  read_apply = λ c e d j. refl;
  directory_rows_apply = λ c e d. refl;
  with_id_apply = λ c e d t. select-ext d.with_ids λ j. ap (λ s. same_text s t) (id-write c e d j);
  next_rows_apply = λ c e d es. refl;
  find_spans_apply = λ c e d es. refl;
  inherit_rows_apply = λ c e d t. refl;
  header_images_apply = λ c e d t. refl;
}
