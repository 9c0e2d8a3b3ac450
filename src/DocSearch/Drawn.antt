-- ===== src/DocSearch/Drawn.antt =====
-- search.js: `FindChildElement` on a row as `createResults` draws it.
use cring.Prelude.{
  ℕ, zero, suc, ◌≤◌, ◌≡◌, refl, ◌∙◌, none, some, Bool, true, false, arith, ◌==◌, if◌then◌else◌,
}
use cring.DocSearch.Page.{ElementId, Page, value, climb, walk_on, walk, find_child_element}

-- The row with this id holds the entry, a `div`, which holds the link and behind it the element `below`.
pub record IsDrawn (page : Page) (id : ElementId) (below : ℕ) : Type 0 where
  pub top : ℕ
  pub entry : ℕ
  pub link : ℕ
  pub found : page.get_element id ≡ some top
  pub first : (page.nodes top).first_child ≡ some entry
  pub entry_apart : (entry == top) ≡ false
  pub entry_div : (page.nodes entry).is_div ≡ true
  pub entry_class : (page.nodes entry).is_children ≡ false
  pub entry_first : (page.nodes entry).first_child ≡ some link
  pub entry_next : (page.nodes entry).next_sibling ≡ none
  pub entry_parent : (page.nodes entry).parent ≡ some top
  pub top_self : (top == top) ≡ true
  pub link_apart : (link == top) ≡ false
  pub link_div : (page.nodes link).is_div ≡ false
  pub link_next : (page.nodes link).next_sibling ≡ some below
  pub below_apart : (below == top) ≡ false
  pub below_next : (page.nodes below).next_sibling ≡ none
  pub below_parent : (page.nodes below).parent ≡ some entry

module _ {page : Page} {id : ElementId} {below : ℕ} (d : IsDrawn page id below) where
  -- The walk comes to `below`.
  find-walk :
      (fuel : ℕ)
      → find_child_element (suc (suc fuel)) page id ≡ walk fuel page.nodes d.top (some below)
  unfolding find_child_element walk walk_on
  find-walk fuel =
      rw (find_child_element, d.found)
        (rw (d.first) (
          rw (walk, d.entry_apart)
            (rw (walk, d.entry_div, d.entry_class)
              (rw d.entry_first (rw d.link_apart (rw d.link_div (rw d.link_next refl)))))))

  walk-children :
      (fuel : ℕ)
      → (page.nodes below).is_div ≡ true
      → (page.nodes below).is_children ≡ true
      → walk (suc fuel) page.nodes d.top (some below) ≡ value (some below)
  unfolding walk
  walk-children fuel div class = rw (walk, d.below_apart) (rw (div, class) refl)

  walk-single :
      (fuel : ℕ)
      → (page.nodes below).is_div ≡ false
      → walk (suc (suc (suc fuel))) page.nodes d.top (some below) ≡ value none
  unfolding walk walk_on climb
  walk-single fuel div =
      rw (walk, d.below_apart)
        (rw (div) (
          rw d.below_next (
            rw (climb, d.below_parent)
              (rw d.entry_apart
                (rw d.entry_next (rw d.entry_parent (rw d.top_self (rw d.top_self refl))))))))

  -- On a row as `createResults` draws it, and with fuel for five rounds, `FindChildElement` finds the
  -- block of children of a result with several places, and nothing for a result with one, which has a
  -- `span` there.
  pub find_child_element-IsDrawn :
      (fuel : ℕ) (several : Bool)
      → 5 ≤ fuel
      → (page.nodes below).is_div ≡ several
      → (page.nodes below).is_children ≡ several
      → find_child_element fuel page id ≡ value (if several then some below else none)
  find_child_element-IsDrawn zero several le div class = absurd (omega arith)
  find_child_element-IsDrawn (suc zero) several le div class = absurd (omega arith)
  find_child_element-IsDrawn (suc (suc zero)) several le div class = absurd (omega arith)
  find_child_element-IsDrawn (suc (suc (suc zero))) several le div class = absurd (omega arith)
  find_child_element-IsDrawn (suc (suc (suc (suc zero)))) several le div class =
      absurd (omega arith)
  find_child_element-IsDrawn (suc (suc (suc (suc (suc fuel))))) true le div class =
      find-walk (suc (suc (suc fuel))) ∙ walk-children (suc (suc fuel)) div class
  find_child_element-IsDrawn (suc (suc (suc (suc (suc fuel))))) false le div class =
      find-walk (suc (suc (suc fuel))) ∙ walk-single fuel div
