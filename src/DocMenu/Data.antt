-- ===== src/DocMenu/Data.antt =====
-- docs/html/menudata.js: the menu of the pages.
use cring.DocSearch.Text.{codes}
use cring.DocMenu.Tree.{Children, absent, present, Entries, end, entry, ◌▸◌}

abbrev data_structures_data_fields : Entries
data_structures_data_fields =
    entry (codes "All") (codes "functions.html") absent
    ▸ entry (codes "Variables") (codes "functions_vars.html") absent
    ▸ end

abbrev data_structures : Entries
data_structures =
    entry (codes "Data Structures") (codes "annotated.html") absent
    ▸ entry (codes "Data Structure Index") (codes "classes.html") absent
    ▸ entry (codes "Data Fields") (codes "functions.html") (present data_structures_data_fields)
    ▸ end

abbrev files_globals_all : Entries
files_globals_all =
    entry (codes "_") (codes "globals.html#index__5F") absent
    ▸ entry (codes "a") (codes "globals.html#index_a") absent
    ▸ entry (codes "b") (codes "globals.html#index_b") absent
    ▸ entry (codes "c") (codes "globals.html#index_c") absent
    ▸ entry (codes "d") (codes "globals.html#index_d") absent
    ▸ entry (codes "e") (codes "globals.html#index_e") absent
    ▸ entry (codes "f") (codes "globals.html#index_f") absent
    ▸ entry (codes "g") (codes "globals.html#index_g") absent
    ▸ entry (codes "i") (codes "globals.html#index_i") absent
    ▸ entry (codes "l") (codes "globals.html#index_l") absent
    ▸ entry (codes "m") (codes "globals.html#index_m") absent
    ▸ entry (codes "p") (codes "globals.html#index_p") absent
    ▸ entry (codes "q") (codes "globals.html#index_q") absent
    ▸ entry (codes "r") (codes "globals.html#index_r") absent
    ▸ entry (codes "s") (codes "globals.html#index_s") absent
    ▸ entry (codes "t") (codes "globals.html#index_t") absent
    ▸ entry (codes "u") (codes "globals.html#index_u") absent
    ▸ entry (codes "v") (codes "globals.html#index_v") absent
    ▸ entry (codes "w") (codes "globals.html#index_w") absent
    ▸ end

abbrev files_globals_functions : Entries
files_globals_functions =
    entry (codes "_") (codes "globals_func.html#index__5F") absent
    ▸ entry (codes "a") (codes "globals_func.html#index_a") absent
    ▸ entry (codes "b") (codes "globals_func.html#index_b") absent
    ▸ entry (codes "c") (codes "globals_func.html#index_c") absent
    ▸ entry (codes "d") (codes "globals_func.html#index_d") absent
    ▸ entry (codes "e") (codes "globals_func.html#index_e") absent
    ▸ entry (codes "f") (codes "globals_func.html#index_f") absent
    ▸ entry (codes "g") (codes "globals_func.html#index_g") absent
    ▸ entry (codes "i") (codes "globals_func.html#index_i") absent
    ▸ entry (codes "m") (codes "globals_func.html#index_m") absent
    ▸ entry (codes "p") (codes "globals_func.html#index_p") absent
    ▸ entry (codes "r") (codes "globals_func.html#index_r") absent
    ▸ entry (codes "s") (codes "globals_func.html#index_s") absent
    ▸ entry (codes "v") (codes "globals_func.html#index_v") absent
    ▸ entry (codes "w") (codes "globals_func.html#index_w") absent
    ▸ end

abbrev files_globals : Entries
files_globals =
    entry (codes "All") (codes "globals.html") (present files_globals_all)
    ▸ entry (codes "Functions") (codes "globals_func.html") (present files_globals_functions)
    ▸ entry (codes "Variables") (codes "globals_vars.html") absent
    ▸ entry (codes "Typedefs") (codes "globals_type.html") absent
    ▸ entry (codes "Enumerations") (codes "globals_enum.html") absent
    ▸ entry (codes "Enumerator") (codes "globals_eval.html") absent
    ▸ entry (codes "Macros") (codes "globals_defs.html") absent
    ▸ end

abbrev files : Entries
files =
    entry (codes "File List") (codes "files.html") absent
    ▸ entry (codes "Globals") (codes "globals.html") (present files_globals)
    ▸ end

abbrev pub menudata : Children
menudata = present (
    entry (codes "Main Page") (codes "index.html") absent
    ▸ entry (codes "Related Pages") (codes "pages.html") absent
    ▸ entry (codes "Data Structures") (codes "annotated.html") (present data_structures)
    ▸ entry (codes "Files") (codes "files.html") (present files)
    ▸ end)
