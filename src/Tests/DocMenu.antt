-- ===== src/Tests/DocMenu.antt =====
-- The menu of the pages, and the search in them.
use cring.Prelude.{[], ◌∷◌, ◌++◌, ◌≡◌, refl, Bool, true, false, ◌&&◌, arith, map, count, some}
use cring.Prelude.{get_or, get_elem?, ◌==◌}
use cring.DocSearch.Text.{Text, codes, ascii_lower}
use cring.DocMenu.Tree.{Children, absent, present, Entries, end, entry, ◌▸◌, make_tree, init_menu}
use cring.DocMenu.Html.{outside, tags, named}
use cring.DocMenu.Tags.{IsPlain, ArePlain, link_tag}
use cring.DocMenu.Links.{urls, make_tree-links}
use cring.DocMenu.Nest.{AreNested, init_menu-AreNested}
use cring.DocMenu.Data.{menudata}
use cring.DocSearch.Box.State.{Box}
use cring.DocSearch.Box.Events.{search_box}
use cring.DocSearch.Box.Search.{Site, returned, search, results_location}
use cring.DocSearch.Data.{index_sections_with_content, index_section_names, search_pages}
use cring.DocSearch.Rows.{Results, search_results, block, unset}
use cring.DocSearch.Create.{Datum, create_results, rows_of}
use cring.DocSearch.CreateSearch.{displays}
use cring.DocSearch.Shown.{TextLaws, search-shows}
use cring.DocSearch.Data.Tables.{functions_tables}
use cring.DocSearch.Data.FunctionsB.{functions_b}
use cring.DocSearch.Files.{one_of, search-one_of, IsQuery}

mutual
  is_plain : Children → Bool
  is_plain absent = true
  is_plain (present es) = are_plain es

  are_plain : Entries → Bool
  are_plain end = true
  are_plain (entry text url children ▸ es) =
      count b'<' text == 0 && (count b'"' url == 0 && (is_plain children && are_plain es))

mutual
  unfolding is_plain IsPlain

  is_plain-IsPlain : (m : Children) → is_plain m ≡ true → IsPlain m
  is_plain-IsPlain absent h = tt
  is_plain-IsPlain (present es) h = are_plain-ArePlain es h

  are_plain-ArePlain : (es : Entries) → are_plain es ≡ true → ArePlain es
  are_plain-ArePlain end h = tt
  are_plain-ArePlain (entry text url children ▸ es) h = (
    ground arith,
    ground arith,
    is_plain-IsPlain children (ground arith),
    are_plain-ArePlain es (ground arith),
  )

menudata-IsPlain : IsPlain menudata
unfolding is_plain
menudata-IsPlain = is_plain-IsPlain menudata refl

make_tree-links_example :
    named (codes "a") (tags outside (make_tree (codes "../") menudata))
    ≡ map (link_tag (codes "../")) (urls menudata)
make_tree-links_example = make_tree-links (codes "../") menudata refl menudata-IsPlain

init_menu-AreNested_example :
    AreNested (init_menu menudata [] true false (codes "search.php") (codes "Search"))
init_menu-AreNested_example =
    init_menu-AreNested menudata [] true false (codes "search.php") (codes "Search")
      menudata-IsPlain refl refl refl

abbrev same : Text → Text
same t = t

-- The strings of the page are as they are written.
abbrev site : Site
site = record {
  to_lower_case = same;
  escape = same;
  above_one = λ t. false;
  sections = index_sections_with_content;
  section_names = index_section_names;
  search_box = record { width = 0; height = 0; ancestors = [] };
  search_select = record { width = 0; height = 0; ancestors = [] };
  client_width = 100;
  popup_width = 50;
  select_window_width = 20;
}

-- The field has `run`, in the filter of the functions.
abbrev box : Box
box = record (search_box (codes "search") false (codes "Search") (codes ".html") (codes "run") []) {
  search_index = 3;
}

search-one_of_example :
    (c : Box) × (page : Text) × (query : Text) × (search site box ≡ returned c)
    × (c.results_location ≡ box.results_path ++ (b'/' ∷ (page ++ (box.extension ++ query))))
    × (c.last_results_page ≡ box.results_path ++ (b'/' ∷ (page ++ box.extension)))
    × (one_of page search_pages ≡ true)
    × IsQuery site box query
search-one_of_example = search-one_of site box refl refl (omega arith)

abbrev lowering : Site
lowering = record site { to_lower_case = ascii_lower }

lowering-TextLaws : TextLaws lowering same
lowering-TextLaws = record { lowers = λ t a. refl; lower_sr = λ id. refl; unescapes = λ t. refl }

-- The functions with `r` have place 11, and `release_token` is the second of them.
abbrev typed : Box
typed = record box { field_value = codes "release_token" }

abbrev drawn : Results
drawn = record {
  rows = rows_of (create_results 0 functions_b);
  searching = block;
  no_matches = unset;
  last_match_count = 0;
}

abbrev token : Datum
token = get_or functions_b 1 (record { id = []; name = []; places = [] })

search-shows_example :
    (c : Box) × (search lowering typed ≡ returned c)
    × (c.results_location ≡ results_location lowering typed (codes "release_token") (some 11))
    × (get_elem?
          (displays (search_results ascii_lower same drawn [] (b'?' ∷ codes "release_token")).rows)
          1
        ≡ some block)
search-shows_example =
    search-shows lowering same lowering-TextLaws typed 11 1 functions_tables functions_b token drawn
      refl refl refl refl refl refl
