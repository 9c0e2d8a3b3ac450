-- ===== src/DocSearch/Nav.antt =====
-- search.js: moving the focus over the results by the keyboard.
use cring.Prelude.{ℕ, zero, suc, Option, none, some, ℤ, pos, inc, dec, Bool, true, false}
use cring.Prelude.{◌==◌, if◌then◌else◌}
use cring.DocSearch.Rows.{Display, block, hidden}
use cring.DocSearch.Keys.{KeyEvent, KeyState, process_keys}
use cring.DocSearch.Page.{
  item, child, Page, on_element, on_search_field, Js, value, thrown, spent, ◌>>=◌, non_null,
  find_child_element, show_as,
}

abbrev pub is_block : Display → Bool
is_block block = true
is_block _ = false

-- `element.parentNode.parentNode`
abbrev pub grandparent : Page → ℕ → Js ℕ
grandparent page e = do p ← non_null (page.nodes e).parent; non_null (page.nodes p).parent

-- `element.parentNode.parentNode.style.display=='block'`
abbrev pub is_visible : Page → ℕ → Js Bool
is_visible page e = do r ← grandparent page e; value (is_block (page.nodes r).display)

-- The loop that `NavNext` and `NavPrev` share but for the step from index to index.
unfoldable pub nav : (ℤ → ℤ) → ℕ → Page → (index : ℤ) → Js (Option ℕ)
nav step zero page index = spent
nav step (suc fuel) page index = elim (page.get_element (item index)) [
  | none ↦ value none
  | some e ↦ elim (is_visible page e) [
    | value true ↦ value (some e)
    | value false ↦ nav step fuel page (step index)
    | thrown ↦ thrown
    | spent ↦ spent
  ]
]

unfoldable pub nav_next : ℕ → Page → (index : ℤ) → Js (Option ℕ)
unfolding nav
nav_next fuel page index = nav inc fuel page index

unfoldable pub nav_prev : ℕ → Page → (index : ℤ) → Js (Option ℕ)
unfolding nav
nav_prev fuel page index = nav dec fuel page index

-- The search for the last child of a result, from child `n` on; `focus` is the last one so far.
unfoldable pub last_child : ℕ → Page → (index : ℤ) (n : ℕ) → (focus : ℕ) → Js ℕ
last_child zero page index n focus = spent
last_child (suc fuel) page index n focus = elim (page.get_element (child index (pos n))) [
  | none ↦ value focus
  | some e ↦ last_child fuel page index (suc n) e
]

abbrev focus_on : Page → ℕ → Page
focus_on page e = record page { focus = on_element e }

abbrev focus_search_field : Page → Page
focus_search_field page = record page { focus = on_search_field }

-- `FindChildElement` of the row of the element `e`.
abbrev pub children_of : ℕ → Page → (e : ℕ) → Js (Option ℕ)
children_of fuel page e = do r ← grandparent page e; find_child_element fuel page (page.nodes r).id

abbrev pub children_of_item : ℕ → Page → (index : ℤ) → Js (Option ℕ)
children_of_item fuel page index = do
  e ← non_null (page.get_element (item index))
  children_of fuel page e

abbrev pub is_open : Page → Option ℕ → Bool
is_open page none = false
is_open page (some c) = is_block (page.nodes c).display

-- The branches of `Nav`: up, down, right and left, and escape.
unfoldable pub nav_up : ℕ → Page → (index : ℤ) → Js Page
nav_up fuel page index = do
  found ← nav_prev fuel page (dec index)
  elim found [
    | none ↦ value (focus_search_field page)
    | some e ↦ do
      c ← children_of fuel page e
      e' ← (if is_open page c then last_child fuel page (dec index) 0 e else value e)
      value (focus_on page e')
  ]

-- `found` is the first child if the children are shown and there is one.
unfoldable pub nav_down_from : ℕ → Page → (index : ℤ) → (found : Option ℕ) → Js Page
nav_down_from fuel page index (some e) = value (focus_on page e)
nav_down_from fuel page index none = do
  found ← nav_next fuel page (inc index)
  elim found [ none ↦ value page | some e ↦ value (focus_on page e) ]

unfoldable pub nav_down : ℕ → Page → (index : ℤ) → Js Page
unfolding nav_down_from
nav_down fuel page index = do
  c ← children_of_item fuel page index
  nav_down_from fuel page index
      (if is_open page c then page.get_element (child index (pos 0)) else none)

unfoldable pub nav_show : ℕ → Page → (index : ℤ) → Display → Js Page
nav_show fuel page index d = do
  c ← children_of_item fuel page index
  elim c [ none ↦ value page | some e ↦ value (show_as page e d) ]

abbrev pub nav_escape : Page → Page
nav_escape page = record page { close_results = true; focus = on_search_field }

-- What a call leaves: what it returns, the state of the keys, and the page.
pub record Reply : Type 0 where
  pub handled : Bool
  pub keys : KeyState
  pub page : Page

abbrev reply : Bool → KeyState → Js Page → Js Reply
reply b keys r = do page ← r; value (record { handled = b; keys = keys; page = page })

-- `this.lastKey` decides, behind `ProcessKeys`.
unfoldable pub nav_key : ℕ → Page → (index : ℤ) → KeyState → Js Reply
unfolding nav_up nav_down nav_show
nav_key fuel page index keys =
    let k = keys.last_key in
    if k == 38
    then reply false keys (nav_up fuel page index)
    else if k == 40
    then reply false keys (nav_down fuel page index)
    else if k == 39
    then reply false keys (nav_show fuel page index block)
    else if k == 37
    then reply false keys (nav_show fuel page index hidden)
    else if k == 27
    then reply false keys (value (nav_escape page))
    else reply (k == 13) keys (value page)

unfoldable pub nav_item : ℕ → Page → KeyState → KeyEvent → (index : ℤ) → Js Reply
unfolding nav_key
nav_item fuel page keys e index =
    if e.key_code == 13
    then reply true keys (value page)
    else let (passed, keys') = process_keys keys e in
      if passed then nav_key fuel page index keys' else reply false keys' (value page)

-- The branches of `NavChild`.
unfoldable pub nav_child_up : Page → (index : ℤ) (n : ℕ) → Js Page
nav_child_up page index zero = do
  e ← non_null (page.get_element (item index))
  value (focus_on page e)
nav_child_up page index (suc n) = do
  e ← non_null (page.get_element (child index (pos n)))
  value (focus_on page e)

unfoldable pub nav_child_down : ℕ → Page → (index : ℤ) (n : ℕ) → Js Page
nav_child_down fuel page index n =
    nav_down_from fuel page index (page.get_element (child index (pos (suc n))))

unfoldable pub nav_child_key : ℕ → Page → (index : ℤ) (n : ℕ) → KeyState → Js Reply
unfolding nav_child_up nav_child_down
nav_child_key fuel page index n keys =
    let k = keys.last_key in
    if k == 38
    then reply false keys (nav_child_up page index n)
    else if k == 40
    then reply false keys (nav_child_down fuel page index n)
    else if k == 27
    then reply false keys (value (nav_escape page))
    else reply (k == 13) keys (value page)

unfoldable pub nav_child : ℕ → Page → KeyState → KeyEvent → (index : ℤ) (n : ℕ) → Js Reply
unfolding nav_child_key
nav_child fuel page keys e index n =
    if e.key_code == 13
    then reply true keys (value page)
    else let (passed, keys') = process_keys keys e in
      if passed then nav_child_key fuel page index n keys' else reply false keys' (value page)
