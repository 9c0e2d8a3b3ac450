-- ===== src/DocSearch/Page.antt =====
-- search.js: the tree of the results page, and the search for the children of a result.
use cring.Prelude.{ℕ, zero, suc, Option, none, some, ℤ, Bool, ◌&&◌}
use cring.Prelude.{◌==◌, if◌then◌else◌, update}
use cring.DocSearch.Rows.{Display, block, hidden}

-- `'Item' + index`, `'Item' + index + '_c' + child`, and the id `'SR_' + …` of a result's row.
pub data ElementId : Type 0 where
  item : (index : ℤ) → ElementId
  child : (index child : ℤ) → ElementId
  row : (name : ℕ) → ElementId

-- An element, by its address: `is_children` says whether its class is `SRChildren`.
pub record Node : Type 0 where
  pub id : ElementId
  pub is_div : Bool
  pub is_children : Bool
  pub first_child : Option ℕ
  pub next_sibling : Option ℕ
  pub parent : Option ℕ
  pub display : Display

pub data Focus : Type 0 where
  on_page : Focus
  on_element : (element : ℕ) → Focus
  on_search_field : Focus

-- `get_element` is `document.getElementById`; `close_results` says whether
-- `parent.searchBox.CloseResultsWindow()` has been called.
pub record Page : Type 0 where
  pub nodes : ℕ → Node
  pub get_element : ElementId → Option ℕ
  pub focus : Focus
  pub close_results : Bool

-- A value, the `TypeError` of a property of null, or a loop that has used up its fuel.
pub data Js (A : Type 0) : Type 0 where
  value : A → Js A
  thrown : Js A
  spent : Js A

infixl 5 ◌>>=◌
abbrev pub ◌>>=◌ : {A B : Type 0} → Js A → (A → Js B) → Js B
value a >>= f = f a
thrown >>= f = thrown
spent >>= f = spent

abbrev pub non_null : {A : Type 0} → Option A → Js A
non_null none = thrown
non_null (some a) = value a

-- The inner loop: up to an element with a sibling behind it, which is where the walk goes on, or up to
-- the element `top`, at which it ends.
unfoldable pub climb : ℕ → (ℕ → Node) → (top element : ℕ) → Js (Option ℕ)
climb zero nodes top element = spent
climb (suc fuel) nodes top element = elim (nodes element).parent [
  | none ↦ value none
  | some p ↦ if p == top then value (some p) else elim (nodes p).next_sibling [
    | none ↦ climb fuel nodes top p
    | some sibling ↦ value (some sibling)
  ]
]

-- Where the walk goes from an element that is not the one looked for.
unfoldable pub walk_on : ℕ → (ℕ → Node) → (top element : ℕ) → Js (Option ℕ)
unfolding climb
walk_on fuel nodes top element =
    elim (if (nodes element).is_div then (nodes element).first_child else none) [
      | some first ↦ value (some first)
      | none ↦ elim (nodes element).next_sibling [
        | some sibling ↦ value (some sibling)
        | none ↦ climb fuel nodes top element
      ]
    ]

-- The outer loop. The value `none` is `undefined`.
unfoldable pub walk : ℕ → (ℕ → Node) → (top : ℕ) → Option ℕ → Js (Option ℕ)
walk zero nodes top element = spent
walk (suc fuel) nodes top none = value none
walk (suc fuel) nodes top (some element) =
    if element == top
    then value none
    else if (nodes element).is_div && (nodes element).is_children
    then value (some element)
    else elim (walk_on fuel nodes top element) [
      | value next ↦ walk fuel nodes top next
      | thrown ↦ thrown
      | spent ↦ spent
    ]

unfoldable pub find_child_element : ℕ → Page → ElementId → Js (Option ℕ)
unfolding walk walk_on
find_child_element fuel page id = do
  top ← non_null (page.get_element id)
  walk fuel page.nodes top (page.nodes top).first_child

abbrev pub show_as : Page → (element : ℕ) → Display → Page
show_as page e d = record page {
  nodes = update page.nodes e (record (page.nodes e) { display = d });
}

abbrev pub toggled : Display → Display
toggled block = hidden
toggled _ = block

unfoldable pub toggle : ℕ → Page → ElementId → Js Page
toggle fuel page id = do
  found ← find_child_element fuel page id
  elim found [
    | none ↦ value page
    | some e ↦ value (show_as page e (toggled (page.nodes e).display))
  ]
