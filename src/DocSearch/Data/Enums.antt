-- ===== src/DocSearch/Data/Enums.antt =====
-- docs/html/search: the tables of enums_0.js.
use cring.Prelude.{List, [], ◌∷◌, true}
use cring.DocSearch.Create.{Datum}
use cring.DocSearch.Data.Datum.{datum, place}

abbrev pub enums_0 : List Datum
enums_0 =
    datum "requesttype_251" "RequestType"
      (place "../IOContext_8h.html#ae10b07f2d0feb103db7fe4cfd192e5af" true "IOContext.h" ∷ [])
    ∷ []
