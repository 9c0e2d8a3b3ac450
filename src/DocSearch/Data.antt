-- ===== src/DocSearch/Data.antt =====
-- docs/html/search/searchdata.js: the tables of the search, and the pages that are there.
pub mod Datum
pub mod All0
pub mod All5
pub mod All8
pub mod AllB
pub mod AllD
pub mod AllE
pub mod Classes
pub mod Files
pub mod Functions0
pub mod Functions8
pub mod FunctionsB
pub mod FunctionsE
pub mod Variables
pub mod Typedefs
pub mod Enums
pub mod Enumvalues
pub mod Defines
pub mod Pages
pub mod Tables
use cring.Prelude.{List, [], ◌∷◌}
use cring.DocSearch.Text.{Text, codes}

abbrev pub index_sections_with_content : List Text
index_sections_with_content =
    codes "_abcdefgilmpqrstuvw"
    ∷ codes "efit"
    ∷ codes "ceimpru"
    ∷ codes "_abcdefgimprsvw"
    ∷ codes "_acdefipqrst"
    ∷ codes "acfrw"
    ∷ codes "r"
    ∷ codes "arw"
    ∷ codes "_bcflmprstu"
    ∷ codes "c"
    ∷ []

abbrev pub index_section_names : List Text
index_section_names =
    codes "all"
    ∷ codes "classes"
    ∷ codes "files"
    ∷ codes "functions"
    ∷ codes "variables"
    ∷ codes "typedefs"
    ∷ codes "enums"
    ∷ codes "enumvalues"
    ∷ codes "defines"
    ∷ codes "pages"
    ∷ []

abbrev pub index_section_labels : List Text
index_section_labels =
    codes "All"
    ∷ codes "Data Structures"
    ∷ codes "Files"
    ∷ codes "Functions"
    ∷ codes "Variables"
    ∷ codes "Typedefs"
    ∷ codes "Enumerations"
    ∷ codes "Enumerator"
    ∷ codes "Macros"
    ∷ codes "Pages"
    ∷ []

-- The files `*.html` of docs/html/search, without the extension.
abbrev pub search_pages : List Text
search_pages =
    codes "all_0"
    ∷ codes "all_1"
    ∷ codes "all_10"
    ∷ codes "all_11"
    ∷ codes "all_12"
    ∷ codes "all_2"
    ∷ codes "all_3"
    ∷ codes "all_4"
    ∷ codes "all_5"
    ∷ codes "all_6"
    ∷ codes "all_7"
    ∷ codes "all_8"
    ∷ codes "all_9"
    ∷ codes "all_a"
    ∷ codes "all_b"
    ∷ codes "all_c"
    ∷ codes "all_d"
    ∷ codes "all_e"
    ∷ codes "all_f"
    ∷ codes "classes_0"
    ∷ codes "classes_1"
    ∷ codes "classes_2"
    ∷ codes "classes_3"
    ∷ codes "defines_0"
    ∷ codes "defines_1"
    ∷ codes "defines_2"
    ∷ codes "defines_3"
    ∷ codes "defines_4"
    ∷ codes "defines_5"
    ∷ codes "defines_6"
    ∷ codes "defines_7"
    ∷ codes "defines_8"
    ∷ codes "defines_9"
    ∷ codes "defines_a"
    ∷ codes "enums_0"
    ∷ codes "enumvalues_0"
    ∷ codes "enumvalues_1"
    ∷ codes "enumvalues_2"
    ∷ codes "files_0"
    ∷ codes "files_1"
    ∷ codes "files_2"
    ∷ codes "files_3"
    ∷ codes "files_4"
    ∷ codes "files_5"
    ∷ codes "files_6"
    ∷ codes "functions_0"
    ∷ codes "functions_1"
    ∷ codes "functions_2"
    ∷ codes "functions_3"
    ∷ codes "functions_4"
    ∷ codes "functions_5"
    ∷ codes "functions_6"
    ∷ codes "functions_7"
    ∷ codes "functions_8"
    ∷ codes "functions_9"
    ∷ codes "functions_a"
    ∷ codes "functions_b"
    ∷ codes "functions_c"
    ∷ codes "functions_d"
    ∷ codes "functions_e"
    ∷ codes "nomatches"
    ∷ codes "pages_0"
    ∷ codes "typedefs_0"
    ∷ codes "typedefs_1"
    ∷ codes "typedefs_2"
    ∷ codes "typedefs_3"
    ∷ codes "typedefs_4"
    ∷ codes "variables_0"
    ∷ codes "variables_1"
    ∷ codes "variables_2"
    ∷ codes "variables_3"
    ∷ codes "variables_4"
    ∷ codes "variables_5"
    ∷ codes "variables_6"
    ∷ codes "variables_7"
    ∷ codes "variables_8"
    ∷ codes "variables_9"
    ∷ codes "variables_a"
    ∷ codes "variables_b"
    ∷ []
