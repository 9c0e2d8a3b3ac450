-- ===== src/DocPages/Query.antt =====
-- The calls of jQuery in docs/html/dynsections.js. jQuery is another project's: what it does to a document
-- of type `D` is the parameter `Query`, and what its documentation promises is `QueryLaws`.
use cring.Prelude.{ℕ, List, Option, some, ◌≡◌, Bool, true, false}
use cring.Prelude.{◌==◌, if◌then◌else◌}
use cring.DocSearch.Text.{Text}

pub data ClassName : Type 0 where
  even opened closed iconfopen iconfclosed arrow : ClassName

abbrev pub same_class : ClassName → ClassName → Bool
same_class even even = true
same_class opened opened = true
same_class closed closed = true
same_class iconfopen iconfopen = true
same_class iconfclosed iconfclosed = true
same_class arrow arrow = true
same_class _ _ = false

-- What is read of an element: its id, `is(':visible')`, `hasClass`, `html()` and `attr('src')`.
pub record Element : Type 0 where
  pub id : Text
  pub visible : Bool
  pub has : ClassName → Bool
  pub html : Text
  pub src : Option Text

-- What is done to an element. `css_none` and `css_table_row` are `css('display', …)`.
pub data Change : Type 0 where
  show hide css_none css_table_row : Change
  add_class remove_class : ClassName → Change
  set_html set_src : Text → Change

-- The documented effect, on an element whose ancestors are shown.
abbrev pub changed : Change → Element → Element
changed show e = record e { visible = true }
changed hide e = record e { visible = false }
changed css_none e = record e { visible = false }
changed css_table_row e = record e { visible = true }
changed (add_class c) e = record e { has = λ k. if same_class c k then true else e.has k }
changed (remove_class c) e = record e { has = λ k. if same_class c k then false else e.has k }
changed (set_html t) e = record e { html = t }
changed (set_src t) e = record e { src = some t }

-- The selections, in the order of the document: `$('table.directory tr')`, `$('#' + id)`,
-- `nextAll("tr")`, `find("span")`, `$('tr.inherit.' + id)` and `$('tr.inherit_header.' + id + ' img')`.
pub record Query (D : Type 0) : Type 0 where
  pub directory_rows : D → List ℕ
  pub with_id : D → Text → List ℕ
  pub next_rows : D → List ℕ → List ℕ
  pub find_spans : D → List ℕ → List ℕ
  pub inherit_rows : D → Text → List ℕ
  pub header_images : D → Text → List ℕ
  pub read : D → ℕ → Element
  pub apply : Change → ℕ → D → D

-- A change is read back at its element and nowhere else, and moves no element.
pub record QueryLaws {D : Type 0} (Q : Query D) : Type 0 where
  pub read_apply :
      (c : Change) (e : ℕ) (d : D) (j : ℕ)
      → Q.read (Q.apply c e d) j ≡ (if e == j then changed c (Q.read d j) else Q.read d j)
  pub directory_rows_apply :
      (c : Change) (e : ℕ) (d : D) → Q.directory_rows (Q.apply c e d) ≡ Q.directory_rows d
  pub with_id_apply :
      (c : Change) (e : ℕ) (d : D) (t : Text) → Q.with_id (Q.apply c e d) t ≡ Q.with_id d t
  pub next_rows_apply :
      (c : Change) (e : ℕ) (d : D) (es : List ℕ) → Q.next_rows (Q.apply c e d) es ≡ Q.next_rows d es
  pub find_spans_apply :
      (c : Change) (e : ℕ) (d : D) (es : List ℕ)
      → Q.find_spans (Q.apply c e d) es ≡ Q.find_spans d es
  pub inherit_rows_apply :
      (c : Change) (e : ℕ) (d : D) (t : Text)
      → Q.inherit_rows (Q.apply c e d) t ≡ Q.inherit_rows d t
  pub header_images_apply :
      (c : Change) (e : ℕ) (d : D) (t : Text)
      → Q.header_images (Q.apply c e d) t ≡ Q.header_images d t
