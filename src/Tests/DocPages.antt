-- ===== src/Tests/DocPages.antt =====
-- A page of four rows, and one of a section and a table of inherited members.
use cring.Prelude.{
  ℕ, zero, suc, subst, sym, List, [], ◌∷◌, ◌≡◌, refl, none, some, Bool, true, false, arith,
}
use cring.Prelude.{if◌then◌else◌, get_or, leb}
use cring.DocSearch.Text.{Text, begins}
use cring.DocPages.Query.{Element, opened, same_class}
use cring.DocPages.Changes.{mem}
use cring.DocPages.Sections.{returned, first_visible, toggle_visibility, toggle_inherit}
use cring.DocPages.Folder.{toggle_level, toggle_folder, depth, is_child}
use cring.DocPages.Stripes.{IsStriped}
use cring.DocPages.Level.{toggle_level-visible}
use cring.DocPages.Fold.{toggle_folder-visible, children_of, below}
use cring.DocPages.Refold.{toggle_folder-twice, IsClosed}
use cring.DocPages.Section.{IsSection, summary_id, content_id, trigger_id, image}
use cring.DocPages.Click.{toggle_visibility-IsSection, toggle_inherit-visible, document, is_thrown}
use cring.DocPages.Page.{Page, page, page-QueryLaws}

abbrev plain : Text → Bool → Element
plain id visible = record { id = id; visible = visible; has = λ c. false; html = []; src = none }

-- `row_`, with the digits of the row and an underscore behind each.
abbrev digits_id : List ℕ → Text
digits_id [] = []
digits_id (n ∷ ns) = n ∷ b'_' ∷ digits_id ns

abbrev row_id_of : List ℕ → Text
row_id_of ns = b'r' ∷ b'o' ∷ b'w' ∷ b'_' ∷ digits_id ns

-- The element at an index of a list, of which all others are shown.
abbrev at : List Element → ℕ → Element
at es j = get_or es j (plain [] true)

abbrev tree_elements : List Element
tree_elements =
    plain (row_id_of (b'0' ∷ [])) true
    ∷ plain (row_id_of (b'0' ∷ b'0' ∷ [])) false
    ∷ plain (row_id_of (b'0' ∷ b'0' ∷ b'0' ∷ [])) false
    ∷ plain (row_id_of (b'1' ∷ [])) true
    ∷ []

abbrev tree : Page
tree = record {
  rows = 0 ∷ 1 ∷ 2 ∷ 3 ∷ [];
  spans = λ e. [];
  with_ids = 0 ∷ 1 ∷ 2 ∷ 3 ∷ [];
  inherited = [];
  images = [];
  element = at tree_elements;
}

abbrev base : Text
base = b'd' ∷ []

abbrev stem : Text
stem = b'/' ∷ []

abbrev section_elements : List Element
section_elements =
    record { id = base; visible = true; has = λ c. same_class opened c; html = []; src = none }
    ∷ plain (summary_id base) false
    ∷ plain (content_id base) true
    ∷ record {
      id = trigger_id base;
      visible = true;
      has = λ c. false;
      html = [];
      src = some (image stem true);
    }
    ∷ []

abbrev sections : Page
sections = record {
  rows = [];
  spans = λ e. [];
  with_ids = 0 ∷ 1 ∷ 2 ∷ 3 ∷ [];
  inherited = 5 ∷ 6 ∷ [];
  images = [];
  element = at section_elements;
}

-- The folder `0_`.
abbrev folder : Text
folder = b'0' ∷ b'_' ∷ []

toggle_level-visible_example :
    ((j : ℕ)
      → (page.read (toggle_level page 1 tree) j).visible
        ≡ (if mem j tree.rows then leb (depth (tree.element j).id) 2 else (tree.element j).visible))
    × IsStriped page (toggle_level page 1 tree)
toggle_level-visible_example =
    toggle_level-visible page-QueryLaws 1 tree (refl, (refl, (refl, (refl, tt))))

toggle_folder-visible_example :
    ((j : ℕ)
      → (page.read (toggle_folder page folder tree) j).visible ≡ (
          if first_visible page tree (children_of page folder tree)
          then (if mem j (below page folder tree) then false else (tree.element j).visible)
          else (if mem j (children_of page folder tree) then true else (tree.element j).visible)))
    × IsStriped page (toggle_folder page folder tree)
toggle_folder-visible_example =
    toggle_folder-visible page-QueryLaws folder tree (refl, (refl, (refl, (refl, tt))))

tree-children : children_of page folder tree ≡ 1 ∷ []
unfolding is_child
tree-children = refl

tree-below : below page folder tree ≡ 1 ∷ 2 ∷ []
unfolding begins
tree-below = refl

tree-hidden : (j : ℕ) → mem j (1 ∷ 2 ∷ []) ≡ true → (tree.element j).visible ≡ false
tree-hidden zero h = absurd (ground arith)
tree-hidden (suc zero) h = refl
tree-hidden (suc (suc zero)) h = refl
tree-hidden (suc (suc (suc j))) h = absurd (ground arith)

tree-IsClosed : IsClosed page folder tree
tree-IsClosed = (
  (1, [], tree-children),
  (λ j h.
      subst (λ xs. mem j xs ≡ true) (sym tree-below)
        (ground (arith, subst (λ xs. mem j xs ≡ true) tree-children h))),
  (λ j h. tree-hidden j (subst (λ xs. mem j xs ≡ true) tree-below h)),
)

toggle_folder-twice_example :
    ((page.read (toggle_folder page folder tree) 1).visible ≡ true)
    × ((page.read (toggle_folder page folder (toggle_folder page folder tree)) 1).visible ≡ false)
unfolding is_child
toggle_folder-twice_example = toggle_folder-twice page-QueryLaws folder tree 1 tree-IsClosed

sections-IsSection : IsSection page 0 1 2 3 stem true sections
sections-IsSection = record {
  summary_found = refl;
  content_found = refl;
  trigger_found = refl;
  apart = refl;
  content_visible = refl;
  summary_visible = refl;
  link_opened = refl;
  link_closed = refl;
  trigger_src = refl;
}

toggle_visibility-IsSection_example :
    (d' : Page) × (toggle_visibility page 0 sections ≡ returned d')
    × IsSection page 0 1 2 3 stem false d'
toggle_visibility-IsSection_example =
    toggle_visibility-IsSection page-QueryLaws 0 1 2 3 stem true sections sections-IsSection

toggle_inherit-visible_example :
    ((page.read (document (toggle_inherit page base sections)) 6).visible ≡ false)
    × (is_thrown (toggle_inherit page base sections) ≡ true)
toggle_inherit-visible_example = toggle_inherit-visible page-QueryLaws base sections 6
