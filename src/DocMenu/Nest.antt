-- ===== src/DocMenu/Nest.antt =====
-- docs/html/menu.js: the elements that `initMenu` writes are nested.
use cring.Prelude.{List, [], ◌∷◌, ◌++◌, ◌≡◌, refl, sym, ap, ◌∙◌, some, Bool, true, false, count}
use mathlib.Core.List.{append_assoc, append-nil}
use cring.DocSearch.Text.{Text, codes}
use cring.DocMenu.Tree.{
  Children, absent, present, Entries, end, entry, ◌▸◌, make_tree, server_box, page_box, init_menu,
  MenuCall, append, first_child, smartmenus,
}
use cring.DocMenu.Html.{outside, tags, nest}
use cring.DocMenu.Tags.{tags-value, tags-make_tree, tree_tags, item_tags, IsPlain}

-- What is open in front of a menu is open behind it.
mutual
  unfolding tree_tags

  nest-tree_tags :
      (rel_path : Text) (m : Children) (os ts : List Text)
      → nest (some os) (tree_tags rel_path m ++ ts) ≡ nest (some os) ts
  nest-tree_tags rel_path absent os ts = refl
  nest-tree_tags rel_path (present es) os ts =
      ap (nest (some (codes "ul" ∷ os)))
        (append_assoc (item_tags rel_path es) (codes "/ul" ∷ []) ts)
      ∙ nest-item_tags rel_path es (codes "ul" ∷ os) (codes "/ul" ∷ ts)

  nest-item_tags :
      (rel_path : Text) (es : Entries) (os ts : List Text)
      → nest (some os) (item_tags rel_path es ++ ts) ≡ nest (some os) ts
  nest-item_tags rel_path end os ts = refl
  nest-item_tags rel_path (entry text url children ▸ es) os ts =
      ap (nest (some (codes "li" ∷ os)))
        (append_assoc (tree_tags rel_path children) (codes "/li" ∷ item_tags rel_path es) ts)
      ∙ nest-tree_tags rel_path children (codes "li" ∷ os)
          ((codes "/li" ∷ item_tags rel_path es) ++ ts)
      ∙ nest-item_tags rel_path es os ts

-- Every text that is appended closes what it opens, in order.
abbrev pub IsNested : Text → Type 0
IsNested html = nest (some []) (tags outside html) ≡ some []

abbrev pub AreNested : List MenuCall → Type 0
AreNested [] = Unit {0}
AreNested (append to html ∷ cs) = IsNested html × AreNested cs
AreNested (first_child of class id ∷ cs) = AreNested cs
AreNested (smartmenus of ∷ cs) = AreNested cs

make_tree-IsNested :
    (rel_path : Text) (m : Children)
    → count b'"' rel_path ≡ 0
    → IsPlain m
    → IsNested (make_tree rel_path m)
make_tree-IsNested rel_path m r p =
    ap (nest (some [])) (
      ap (tags outside) (sym (append-nil (make_tree rel_path m)))
      ∙ tags-make_tree rel_path m [] r p)
    ∙ nest-tree_tags rel_path m [] []

server_box-IsNested :
    (rel_path search_page search : Text)
    → count b'"' rel_path ≡ 0
    → count b'"' search_page ≡ 0
    → count b'"' search ≡ 0
    → IsNested (server_box rel_path search_page search)
server_box-IsNested rel_path search_page search r p s =
    rw
      (
        tags-value _ rel_path _ r,
        tags-value _ search_page _ p,
        tags-value _ rel_path _ r,
        tags-value _ search _ s,
      )
      refl

page_box-IsNested :
    (rel_path search : Text)
    → count b'"' rel_path ≡ 0
    → count b'"' search ≡ 0
    → IsNested (page_box rel_path search)
page_box-IsNested rel_path search r s =
    rw (tags-value _ rel_path _ r, tags-value _ search _ s, tags-value _ rel_path _ r) refl

-- For a menu whose URLs have no quotation mark and whose texts no `<`, and paths and a search text
-- without a quotation mark, every text that `initMenu` appends, the menu and the search box of either
-- kind, closes the elements it opens, in order.
pub init_menu-AreNested :
    (m : Children) (rel_path : Text) (enabled server : Bool) (search_page search : Text)
    → IsPlain m
    → count b'"' rel_path ≡ 0
    → count b'"' search_page ≡ 0
    → count b'"' search ≡ 0
    → AreNested (init_menu m rel_path enabled server search_page search)
unfolding init_menu
init_menu-AreNested m rel_path false server search_page search p r g s =
    (make_tree-IsNested rel_path m r p, tt)
init_menu-AreNested m rel_path true true search_page search p r g s =
    (make_tree-IsNested rel_path m r p, (server_box-IsNested rel_path search_page search r g s, tt))
init_menu-AreNested m rel_path true false search_page search p r g s =
    (make_tree-IsNested rel_path m r p, (page_box-IsNested rel_path search r s, tt))
