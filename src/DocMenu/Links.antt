-- ===== src/DocMenu/Links.antt =====
-- docs/html/menu.js: the links of the menu.
use cring.Prelude.{
  List, [], ◌∷◌, ◌++◌, ◌≡◌, refl, sym, ap, ap₂, ◌∙◌, map, Bool-cases, inl, inr, count,
}
use mathlib.Core.List.{append-nil, map-append}
use cring.DocSearch.Text.{Text, codes, same_text}
use cring.DocMenu.Tree.{Children, absent, present, Entries, end, entry, ◌▸◌, make_tree}
use cring.DocMenu.Html.{outside, tags, named, tag_name}
use cring.DocMenu.Tags.{tags-make_tree, tree_tags, item_tags, link_tag, IsPlain}

-- The URLs of a menu, an entry's before those of its children.
unfoldable mutual
  pub urls : Children → List Text
  urls absent = []
  urls (present es) = item_urls es

  pub item_urls : Entries → List Text
  item_urls end = []
  item_urls (entry text url children ▸ es) = url ∷ (urls children ++ item_urls es)

named-append :
    (name : Text) (xs ys : List Text) → named name (xs ++ ys) ≡ named name xs ++ named name ys
named-append name [] ys = refl
named-append name (x ∷ xs) ys = elim (Bool-cases (same_text (tag_name x) name)) [
  | inl h ↦ rw h (ap (λ zs. x ∷ zs) (named-append name xs ys))
  | inr h ↦ rw h (named-append name xs ys)
]

mutual
  unfolding tree_tags urls

  named-tree_tags :
      (rel_path : Text) (m : Children)
      → named (codes "a") (tree_tags rel_path m) ≡ map (link_tag rel_path) (urls m)
  named-tree_tags rel_path absent = refl
  named-tree_tags rel_path (present es) =
      named-append (codes "a") (item_tags rel_path es) (codes "/ul" ∷ [])
      ∙ append-nil _
      ∙ named-item_tags rel_path es

  named-item_tags :
      (rel_path : Text) (es : Entries)
      → named (codes "a") (item_tags rel_path es) ≡ map (link_tag rel_path) (item_urls es)
  named-item_tags rel_path end = refl
  named-item_tags rel_path (entry text url children ▸ es) =
      ap (λ ts. link_tag rel_path url ∷ ts)
        (named-append (codes "a") (tree_tags rel_path children)
            (codes "/li" ∷ item_tags rel_path es)
          ∙ ap₂ (λ x y. x ++ y) (named-tree_tags rel_path children) (named-item_tags rel_path es)
          ∙ sym (map-append (link_tag rel_path) (urls children) (item_urls es)))

-- For a path without a quotation mark, and a menu whose URLs have no quotation mark and whose texts no
-- `<`, the links that `makeTree` writes are those of the entries, each with the path in front, in the
-- order of the menu, an entry before its children.
pub make_tree-links :
    (rel_path : Text) (m : Children)
    → count b'"' rel_path ≡ 0
    → IsPlain m
    → named (codes "a") (tags outside (make_tree rel_path m)) ≡ map (link_tag rel_path) (urls m)
make_tree-links rel_path m r p =
    ap (named (codes "a")) (
      ap (tags outside) (sym (append-nil (make_tree rel_path m)))
      ∙ tags-make_tree rel_path m [] r p
      ∙ append-nil (tree_tags rel_path m))
    ∙ named-tree_tags rel_path m
