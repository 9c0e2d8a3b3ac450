-- ===== src/DocSearch/Data/Enumvalues.antt =====
-- docs/html/search: the tables of enumvalues_0.js to enumvalues_2.js.
use cring.Prelude.{List, [], ◌∷◌, true}
use cring.DocSearch.Create.{Datum}
use cring.DocSearch.Data.Datum.{datum, place}

abbrev pub enumvalues_0 : List Datum
enumvalues_0 =
    datum "accept_252" "ACCEPT" (
      place
        "../IOContext_8h.html#ae10b07f2d0feb103db7fe4cfd192e5afa5707b7b8bf1b098d620552e9576d8061"
        true "IOContext.h"
      ∷ [])
    ∷ []

abbrev pub enumvalues_1 : List Datum
enumvalues_1 =
    datum "read_253" "READ" (
      place
        "../IOContext_8h.html#ae10b07f2d0feb103db7fe4cfd192e5afacb9be765f361bb7efb9073730aac92c6"
        true "IOContext.h"
      ∷ [])
    ∷ []

abbrev pub enumvalues_2 : List Datum
enumvalues_2 =
    datum "wait_254" "WAIT" (
      place
        "../IOContext_8h.html#ae10b07f2d0feb103db7fe4cfd192e5afa79a322ccb4b29b85b3cab52dbccefd17"
        true "IOContext.h"
      ∷ [])
    ∷ datum "write_255" "WRITE" (
        place
          "../IOContext_8h.html#ae10b07f2d0feb103db7fe4cfd192e5afa61aa7ff70b76bff0fda378cf61d6afbc"
          true "IOContext.h"
        ∷ [])
    ∷ []
