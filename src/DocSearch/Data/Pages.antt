-- ===== src/DocSearch/Data/Pages.antt =====
-- docs/html/search: the tables of pages_0.js.
use cring.Prelude.{List, [], ◌∷◌, true}
use cring.DocSearch.Create.{Datum}
use cring.DocSearch.Data.Datum.{datum, place}

abbrev pub pages_0 : List Datum
pages_0 = datum "cring_272" "Cring" (place "../md_README.html" true "" ∷ []) ∷ []
