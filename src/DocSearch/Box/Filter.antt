-- ===== src/DocSearch/Box/Filter.antt =====
-- search.js: which filter `SelectItemSet` marks, in the list that `SelectItemCount` counts.
use cring.Prelude.{
  ℕ, suc, ◌+◌, ◌≡◌, refl, ap, ◌∙◌, List, [], ◌∷◌, Bool, map, arith, ◌==◌, if◌then◌else◌, range_from,
  Bool-cases, inl, inr,
}
use cring.DocSearch.Box.State.{Box, SelectChild}
use cring.DocSearch.Box.Display.{count_items, select_item_count, mark_items, select_item_set}

-- The marks of the items, in order.
abbrev pub marks : List SelectChild → List Bool
marks [] = []
marks (c ∷ cs) = if c.is_item then c.marked ∷ marks cs else marks cs

marks-mark_items :
    (id j : ℕ) (cs : List SelectChild)
    → marks (mark_items id j cs) ≡ map (λ k. k == id) (range_from j (count_items cs))
unfolding mark_items count_items
marks-mark_items id j [] = refl
marks-mark_items id j (c ∷ cs) = elim (Bool-cases c.is_item) [
  | inl h ↦ rw h (
      rw (one_add (count_items cs)) (
        ap (λ bs. (j == id) ∷ bs)
          (marks-mark_items id (j + 1) cs
            ∙ ap (λ i. map (λ k. k == id) (range_from i (count_items cs))) (j_add j))))
  | inr h ↦ rw h (rw (zero_add (count_items cs)) (marks-mark_items id j cs))
]
  where
    one_add : (n : ℕ) → 1 + n ≡ suc n
    one_add n = omega arith

    zero_add : (n : ℕ) → 0 + n ≡ n
    zero_add n = omega arith

    j_add : (n : ℕ) → n + 1 ≡ suc n
    j_add n = omega arith

-- After filter `id` has been set, the filter at place `k` of the list has the bullet if and only if `k`
-- is `id`, for all of the `SelectItemCount()` places.
pub select_item_set-marks :
    (b : Box) (id : ℕ)
    → marks (select_item_set b id).select_children
      ≡ map (λ k. k == id) (range_from 0 (select_item_count b))
unfolding select_item_set select_item_count
select_item_set-marks b id = marks-mark_items id 0 b.select_children
