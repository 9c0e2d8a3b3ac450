-- ===== src/DocMenu/Tags.antt =====
-- docs/html/menu.js: the tags of the menu that `makeTree` writes.
use cring.Prelude.{ℕ, List, [], ◌∷◌, ◌++◌, ◌≡◌, refl, sym, ap, ◌∙◌, false, arith, count}
use cring.Prelude.{◌==◌}
use mathlib.Core.List.{append_assoc, append-nil}
use cring.DocSearch.Text.{Text, codes}
use cring.DocMenu.Tree.{Children, absent, present, Entries, end, entry, ◌▸◌, make_tree, make_items}
use cring.DocMenu.Html.{outside, in_value, tags}

quote_count : (c : ℕ) (u : Text) → count b'"' (c ∷ u) ≡ 0 → (c == b'"') ≡ false
quote_count c u h = ground arith

-- A text with no quotation mark stays in the value.
pub tags-value :
    (acc u t : Text)
    → count b'"' u ≡ 0
    → tags (in_value acc) (u ++ t) ≡ tags (in_value (acc ++ u)) t
tags-value acc [] t h = rw (append-nil acc) refl
tags-value acc (c ∷ u) t h = rw (quote_count c u h) (
    tags-value (acc ++ (c ∷ [])) u t (omega (arith))
    ∙ ap (λ x. tags (in_value x) t) (append_assoc acc (c ∷ []) u))

-- A text without `<` has no tag.
pub tags-outside : (u t : Text) → count b'<' u ≡ 0 → tags outside (u ++ t) ≡ tags outside t
tags-outside [] t h = refl
tags-outside (c ∷ u) t h = ground (arith, tags-outside u t)

-- The quotation mark ends a value and `<` begins a tag, so the URLs and the texts of a menu have none.
unfoldable mutual
  pub IsPlain : Children → Type 0
  IsPlain absent = Unit {0}
  IsPlain (present es) = ArePlain es

  pub ArePlain : Entries → Type 0
  ArePlain end = Unit {0}
  ArePlain (entry text url children ▸ es) =
      (count b'<' text ≡ 0) × (count b'"' url ≡ 0) × IsPlain children × ArePlain es

abbrev pub link_tag : (rel_path url : Text) → Text
link_tag rel_path url = ((codes "a href=\"" ++ rel_path) ++ url) ++ codes "\""

unfoldable mutual
  pub tree_tags : (rel_path : Text) → Children → List Text
  tree_tags rel_path absent = []
  tree_tags rel_path (present es) = codes "ul" ∷ (item_tags rel_path es ++ (codes "/ul" ∷ []))

  pub item_tags : (rel_path : Text) → Entries → List Text
  item_tags rel_path end = []
  item_tags rel_path (entry text url children ▸ es) =
      codes "li"
      ∷ link_tag rel_path url
      ∷ codes "/a"
      ∷ (tree_tags rel_path children ++ (codes "/li" ∷ item_tags rel_path es))

mutual
  unfolding make_tree tree_tags IsPlain

  pub tags-make_tree :
      (rel_path : Text) (m : Children) (t : Text)
      → count b'"' rel_path ≡ 0
      → IsPlain m
      → tags outside (make_tree rel_path m ++ t) ≡ tree_tags rel_path m ++ tags outside t
  tags-make_tree rel_path absent t r p = refl
  tags-make_tree rel_path (present es) t r p =
      ap (λ ts. codes "ul" ∷ ts)
        (ap (tags outside) (append_assoc (make_items rel_path es) (codes "</ul>") t)
          ∙ tags-make_items rel_path es (codes "</ul>" ++ t) r p
          ∙ sym (append_assoc (item_tags rel_path es) (codes "/ul" ∷ []) (tags outside t)))

  tags-make_items :
      (rel_path : Text) (es : Entries) (t : Text)
      → count b'"' rel_path ≡ 0
      → ArePlain es
      → tags outside (make_items rel_path es ++ t) ≡ item_tags rel_path es ++ tags outside t
  tags-make_items rel_path end t r p = refl
  tags-make_items rel_path (entry text url children ▸ es) t r p =
      let behind = codes "</li>" ++ make_items rel_path es in
      let below = make_tree rel_path children ++ behind in
      let shown = text ++ (codes "</a>" ++ below) in
      let target = url ++ (codes "\">" ++ shown) in
      let opening = codes "a href=\"" in
      ap (λ ts. codes "li" ∷ ts)
        (ap (tags (in_value opening)) (append_assoc rel_path target t)
          ∙ tags-value opening rel_path (target ++ t) r
          ∙ ap (tags (in_value (opening ++ rel_path))) (append_assoc url (codes "\">" ++ shown) t)
          ∙ tags-value (opening ++ rel_path) url ((codes "\">" ++ shown) ++ t) p.1
          ∙ ap (λ ts. link_tag rel_path url ∷ ts)
              (ap (tags outside) (append_assoc text (codes "</a>" ++ below) t)
                ∙ tags-outside text ((codes "</a>" ++ below) ++ t) p.0
                ∙ ap (λ ts. codes "/a" ∷ ts)
                    (ap (tags outside) (append_assoc (make_tree rel_path children) behind t)
                      ∙ tags-make_tree rel_path children (behind ++ t) r p.2
                      ∙ ap (λ ts. tree_tags rel_path children ++ (codes "/li" ∷ ts))
                          (tags-make_items rel_path es t r p.3)
                      ∙ sym (
                          append_assoc (tree_tags rel_path children)
                            (codes "/li" ∷ item_tags rel_path es) (tags outside t)))))
