-- ===== src/DocSearch/CreateLinks.antt =====
-- search.js: the numbers in the links that `createResults` draws.
use cring.Prelude.{
  ℕ, zero, suc, ◌+◌, ◌≡◌, refl, ap, subst, List, [], ◌∷◌, map, some, pos, arith, get_elem?, length,
  range_from,
}
use cring.DocSearch.Text.{Text}
use cring.DocSearch.Page.{ElementId, item, child}
use cring.DocSearch.Create.{
  Place, Datum, Action, nav_call, nav_child_call, Link, Below, scope, children, Drawn,
  create_children, create_result, create_results,
}

-- What a link is called, and what its handler calls.
abbrev pub target : Link → ElementId × Action
target l = (l.id, l.action)

abbrev pub child_links : Below → List Link
child_links (scope t) = []
child_links (children ls) = ls

-- The targets of the link and of the children of the result with number `e`, if there are `n` of these.
abbrev pub numbered : (e n : ℕ) → List (ElementId × Action)
numbered e n =
    (item (pos e), nav_call e)
    ∷ map (λ c. (child (pos e) (pos c), nav_child_call e c)) (range_from 0 n)

IsNumbered : ℕ → Drawn → Type 0
IsNumbered e d =
    map target (d.link ∷ child_links d.below) ≡ numbered e (length (child_links d.below))

create_children-numbered :
    (e c : ℕ) (ps : List Place)
    → map target (create_children e c ps)
      ≡ map
          (λ k. (child (pos e) (pos k), nav_child_call e k))
          (range_from c (length (create_children e c ps)))
unfolding create_children
create_children-numbered e c [] = refl
create_children-numbered e c (p ∷ ps) =
    ap (λ ts. (child (pos e) (pos c), nav_child_call e c) ∷ ts)
      (create_children-numbered e (suc c) ps)

create_result-IsNumbered :
    (e : ℕ) (id name : Text) (ps : List Place) → IsNumbered e (create_result e id name ps)
unfolding create_result IsNumbered
create_result-IsNumbered e id name [] =
    ap (λ ts. (item (pos e), nav_call e) ∷ ts) (create_children-numbered e 0 [])
create_result-IsNumbered e id name (p ∷ []) = refl
create_result-IsNumbered e id name (p ∷ q ∷ ps) =
    ap (λ ts. (item (pos e), nav_call e) ∷ ts) (create_children-numbered e 0 (p ∷ q ∷ ps))

IsNumbered-from :
    (e i n : ℕ) (ds : List Datum) (d : Drawn)
    → e + i ≡ n
    → get_elem? (create_results e ds) i ≡ some d
    → IsNumbered n d
unfolding create_results
IsNumbered-from e i n [] d at h = absurd (ground arith)
IsNumbered-from e zero n (x ∷ ds) d at h =
    let same : create_result e x.id x.name x.places ≡ d = cc in
    let number : e ≡ n = omega arith in
    subst (λ k. IsNumbered k d) number
      (subst (IsNumbered e) same (create_result-IsNumbered e x.id x.name x.places))
IsNumbered-from e (suc i) n (x ∷ ds) d at h = IsNumbered-from (suc e) i n ds d (omega arith) h

-- In the results that `createResults` draws, the link of the result at place `i` is `Item` `i` and its
-- keys call `Nav` with `i`; its children are `Item` `i` `_c0`, `_c1`, and so on in this order, and their
-- keys call `NavChild` with `i` and their own number.
pub create_results-numbered :
    (ds : List Datum) (i : ℕ) (d : Drawn)
    → get_elem? (create_results 0 ds) i ≡ some d
    → map target (d.link ∷ child_links d.below) ≡ numbered i (length (child_links d.below))
unfolding IsNumbered
create_results-numbered ds i d h = IsNumbered-from 0 i i ds d (omega arith) h
