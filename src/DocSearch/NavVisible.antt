-- ===== src/DocSearch/NavVisible.antt =====
-- search.js: the result that `NavNext` and `NavPrev` find.
use cring.Prelude.{
  ℕ, zero, suc, ◌<◌, ◌≡◌, refl, ◌∙◌, Option, none, some, ℤ, inc, dec, true, false, arith,
}
use cring.DocSearch.Page.{item, Page, value}
use cring.DocSearch.Nav.{is_visible, nav, nav_next, nav_prev}

-- The index that is `n` steps from `index`.
abbrev pub walked : (ℤ → ℤ) → ℤ → ℕ → ℤ
walked step index zero = index
walked step index (suc n) = walked step (step index) n

-- The result with this index is there, and is not shown.
abbrev pub IsHidden : Page → ℤ → Type 0
IsHidden page index =
    (e : ℕ) × (page.get_element (item index) ≡ some e) × (is_visible page e ≡ value false)

-- At this index the search ends, with this result: it is shown, or there is none.
abbrev pub IsEnd : Page → ℤ → Option ℕ → Type 0
IsEnd page index none = page.get_element (item index) ≡ none
IsEnd page index (some e) =
    (page.get_element (item index) ≡ some e) × (is_visible page e ≡ value true)

nav-end :
    (step : ℤ → ℤ) (fuel : ℕ) (page : Page) (index : ℤ) (r : Option ℕ)
    → IsEnd page index r
    → nav step (suc fuel) page index ≡ value r
unfolding nav
nav-end step fuel page index none h = rw (nav, h) refl
nav-end step fuel page index (some e) (h, v) = rw (nav, h) (rw (nav, v) refl)

nav-hidden :
    (step : ℤ → ℤ) (fuel : ℕ) (page : Page) (index : ℤ)
    → IsHidden page index
    → nav step (suc fuel) page index ≡ nav step fuel page (step index)
unfolding nav
nav-hidden step fuel page index (e, h, v) = rw (nav, h) (rw (nav, v) refl)

nav-found :
    (step : ℤ → ℤ) (fuel d : ℕ) (page : Page) (index : ℤ) (r : Option ℕ)
    → d < fuel
    → ((j : ℕ) → j < d → IsHidden page (walked step index j))
    → IsEnd page (walked step index d) r
    → nav step fuel page index ≡ value r
nav-found step zero d page index r lt hide end = elim lt [ ]
nav-found step (suc fuel) zero page index r lt hide end = nav-end step fuel page index r end
nav-found step (suc fuel) (suc d) page index r lt hide end =
    nav-hidden step fuel page index (hide 0 (omega arith))
    ∙ nav-found step fuel d page (step index) r (omega arith) (λ j k. hide (suc j) (omega arith))
        end

-- `NavNext` returns the first result from the index on that is shown, or nothing if the results up to the
-- last one are hidden: it passes over the `d` hidden ones, with fuel for each of them and one more.
pub nav_next-IsEnd :
    (fuel d : ℕ) (page : Page) (index : ℤ) (r : Option ℕ)
    → d < fuel
    → ((j : ℕ) → j < d → IsHidden page (walked inc index j))
    → IsEnd page (walked inc index d) r
    → nav_next fuel page index ≡ value r
unfolding nav_next
nav_next-IsEnd fuel d page index r = nav-found inc fuel d page index r

-- `NavPrev` returns the last result up to the index that is shown, or nothing if those down to the first
-- one are hidden: it passes over the `d` hidden ones, with fuel for each of them and one more.
pub nav_prev-IsEnd :
    (fuel d : ℕ) (page : Page) (index : ℤ) (r : Option ℕ)
    → d < fuel
    → ((j : ℕ) → j < d → IsHidden page (walked dec index j))
    → IsEnd page (walked dec index d) r
    → nav_prev fuel page index ≡ value r
unfolding nav_prev
nav_prev-IsEnd fuel d page index r = nav-found dec fuel d page index r
