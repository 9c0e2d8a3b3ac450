-- ===== src/DocSearch/Data/Tables.antt =====
-- docs/html/search: the tables of all pages, by filter and place.
use cring.Prelude.{List, [], ◌∷◌}
use cring.DocSearch.Create.{Datum}
use cring.DocSearch.Data.All0.{all_0, all_1, all_2, all_3, all_4}
use cring.DocSearch.Data.All5.{all_5, all_6, all_7}
use cring.DocSearch.Data.All8.{all_8, all_9, all_a}
use cring.DocSearch.Data.AllB.{all_b, all_c}
use cring.DocSearch.Data.AllD.{all_d}
use cring.DocSearch.Data.AllE.{all_e, all_f, all_10, all_11, all_12}
use cring.DocSearch.Data.Classes.{classes_0, classes_1, classes_2, classes_3}
use cring.DocSearch.Data.Files.{files_0, files_1, files_2, files_3, files_4, files_5, files_6}
use cring.DocSearch.Data.Functions0.{
  functions_0, functions_1, functions_2, functions_3, functions_4, functions_5, functions_6,
  functions_7,
}
use cring.DocSearch.Data.Functions8.{functions_8, functions_9, functions_a}
use cring.DocSearch.Data.FunctionsB.{functions_b, functions_c, functions_d}
use cring.DocSearch.Data.FunctionsE.{functions_e}
use cring.DocSearch.Data.Variables.{
  variables_0, variables_1, variables_2, variables_3, variables_4, variables_5, variables_6,
  variables_7, variables_8, variables_9, variables_a, variables_b,
}
use cring.DocSearch.Data.Typedefs.{typedefs_0, typedefs_1, typedefs_2, typedefs_3, typedefs_4}
use cring.DocSearch.Data.Enums.{enums_0}
use cring.DocSearch.Data.Enumvalues.{enumvalues_0, enumvalues_1, enumvalues_2}
use cring.DocSearch.Data.Defines.{
  defines_0, defines_1, defines_2, defines_3, defines_4, defines_5, defines_6, defines_7, defines_8,
  defines_9, defines_a,
}
use cring.DocSearch.Data.Pages.{pages_0}

abbrev pub all_tables : List (List Datum)
all_tables =
    all_0 ∷ all_1 ∷ all_2 ∷ all_3 ∷ all_4 ∷ all_5 ∷ all_6 ∷ all_7 ∷ all_8 ∷ all_9 ∷ all_a ∷ all_b
    ∷ all_c ∷ all_d ∷ all_e ∷ all_f ∷ all_10 ∷ all_11 ∷ all_12 ∷ []

abbrev pub classes_tables : List (List Datum)
classes_tables = classes_0 ∷ classes_1 ∷ classes_2 ∷ classes_3 ∷ []

abbrev pub files_tables : List (List Datum)
files_tables = files_0 ∷ files_1 ∷ files_2 ∷ files_3 ∷ files_4 ∷ files_5 ∷ files_6 ∷ []

abbrev pub functions_tables : List (List Datum)
functions_tables =
    functions_0 ∷ functions_1 ∷ functions_2 ∷ functions_3 ∷ functions_4 ∷ functions_5 ∷ functions_6
    ∷ functions_7 ∷ functions_8 ∷ functions_9 ∷ functions_a ∷ functions_b ∷ functions_c
    ∷ functions_d ∷ functions_e ∷ []

abbrev pub variables_tables : List (List Datum)
variables_tables =
    variables_0 ∷ variables_1 ∷ variables_2 ∷ variables_3 ∷ variables_4 ∷ variables_5 ∷ variables_6
    ∷ variables_7 ∷ variables_8 ∷ variables_9 ∷ variables_a ∷ variables_b ∷ []

abbrev pub typedefs_tables : List (List Datum)
typedefs_tables = typedefs_0 ∷ typedefs_1 ∷ typedefs_2 ∷ typedefs_3 ∷ typedefs_4 ∷ []

abbrev pub enums_tables : List (List Datum)
enums_tables = enums_0 ∷ []

abbrev pub enumvalues_tables : List (List Datum)
enumvalues_tables = enumvalues_0 ∷ enumvalues_1 ∷ enumvalues_2 ∷ []

abbrev pub defines_tables : List (List Datum)
defines_tables =
    defines_0 ∷ defines_1 ∷ defines_2 ∷ defines_3 ∷ defines_4 ∷ defines_5 ∷ defines_6 ∷ defines_7
    ∷ defines_8 ∷ defines_9 ∷ defines_a ∷ []

abbrev pub pages_tables : List (List Datum)
pages_tables = pages_0 ∷ []

-- In the order of the filters.
abbrev pub search_tables : List (List (List Datum))
search_tables =
    all_tables ∷ classes_tables ∷ files_tables ∷ functions_tables ∷ variables_tables
    ∷ typedefs_tables ∷ enums_tables ∷ enumvalues_tables ∷ defines_tables ∷ pages_tables ∷ []
