-- ===== src/DocMenu/Tree.antt =====
-- docs/html/menu.js: the menu of the pages as text, and what `initMenu` asks of jQuery.
use cring.Prelude.{List, [], ◌∷◌, ◌++◌, Bool}
use cring.Prelude.{if◌then◌else◌}
use cring.DocSearch.Text.{Text, codes}

infixr 60 ◌▸◌
-- An entry has a text, a URL and, maybe, children: `'children' in data`.
mutual
  pub data Entry : Type 0 where
    entry : (text url : Text) (children : Children) → Entry

  pub data Children : Type 0 where
    absent : Children
    present : Entries → Children

  pub data Entries : Type 0 where
    end : Entries
    ◌▸◌ : Entry → Entries → Entries

unfoldable mutual
  pub make_tree : (rel_path : Text) → Children → Text
  make_tree rel_path absent = []
  make_tree rel_path (present es) = codes "<ul>" ++ (make_items rel_path es ++ codes "</ul>")

  pub make_items : (rel_path : Text) → Entries → Text
  make_items rel_path end = []
  make_items rel_path (entry text url children ▸ es) =
      codes "<li><a href=\""
      ++ (rel_path
          ++ (url
              ++ (codes "\">"
                  ++ (text
                      ++ (codes "</a>"
                          ++ (make_tree rel_path children
                              ++ (codes "</li>" ++ make_items rel_path es)))))))

-- The box of a search on a server, and that of a search in the page.
abbrev pub server_box : (rel_path search_page search : Text) → Text
server_box rel_path search_page search =
    codes
      "<li style=\"float:right\"><div id=\"MSearchBox\" class=\"MSearchBoxInactive\"><div class=\"left\"><form id=\"FSearchBox\" action=\""
    ++ (rel_path
        ++ (search_page
            ++ (codes "\" method=\"get\"><img id=\"MSearchSelect\" src=\""
                ++ (rel_path
                    ++ (codes
                          "search/mag.svg\" alt=\"\"/><input type=\"text\" id=\"MSearchField\" name=\"query\" value=\""
                        ++ (search
                            ++ codes
                                "\" size=\"20\" accesskey=\"S\" onfocus=\"searchBox.OnSearchFieldFocus(true)\" onblur=\"searchBox.OnSearchFieldFocus(false)\"></form></div><div class=\"right\"></div></div></li>"))))))

abbrev pub page_box : (rel_path search : Text) → Text
page_box rel_path search =
    codes
      "<li style=\"float:right\"><div id=\"MSearchBox\" class=\"MSearchBoxInactive\"><span class=\"left\"><img id=\"MSearchSelect\" src=\""
    ++ (rel_path
        ++ (codes
              "search/mag_sel.svg\" onmouseover=\"return searchBox.OnSearchSelectShow()\" onmouseout=\"return searchBox.OnSearchSelectHide()\" alt=\"\"/><input type=\"text\" id=\"MSearchField\" value=\""
            ++ (search
                ++ (codes
                      "\" accesskey=\"S\" onfocus=\"searchBox.OnSearchFieldFocus(true)\" onblur=\"searchBox.OnSearchFieldFocus(false)\" onkeyup=\"searchBox.OnSearchFieldChange(event)\"/></span><span class=\"right\"><a id=\"MSearchClose\" href=\"javascript:searchBox.CloseResultsWindow()\"><img id=\"MSearchCloseImg\" border=\"0\" src=\""
                    ++ (rel_path ++ codes "search/close.svg\" alt=\"\"/></a></span></div></li>")))))

-- The calls of jQuery, in their order: `append`, `addClass` and `attr('id', …)` of the first child of
-- `#main-nav`, and `smartmenus`.
pub data MenuCall : Type 0 where
  append : (to html : Text) → MenuCall
  first_child : (of class id : Text) → MenuCall
  smartmenus : (of : Text) → MenuCall

unfoldable pub init_menu :
    (menudata : Children) (rel_path : Text) (search_enabled server_side : Bool)
    (search_page search : Text)
    → List MenuCall
unfolding make_tree
init_menu menudata rel_path search_enabled server_side search_page search =
    append (codes "#main-nav") (make_tree rel_path menudata)
      ∷ first_child (codes "#main-nav") (codes "sm sm-dox") (codes "main-menu")
      ∷ (if search_enabled
          then (if server_side
              then append (codes "#main-menu") (server_box rel_path search_page search)
              else append (codes "#main-menu") (page_box rel_path search))
            ∷ []
          else [])
    ++ (smartmenus (codes "#main-menu") ∷ [])
