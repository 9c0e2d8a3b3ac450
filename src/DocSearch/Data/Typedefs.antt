-- ===== src/DocSearch/Data/Typedefs.antt =====
-- docs/html/search: the tables of typedefs_0.js to typedefs_4.js.
use cring.Prelude.{List, [], ◌∷◌, true}
use cring.DocSearch.Create.{Datum}
use cring.DocSearch.Data.Datum.{datum, place}

abbrev pub typedefs_0 : List Datum
typedefs_0 =
    datum "accept_5fcb_245" "accept_cb"
      (place "../IOContext_8h.html#a1d8b5c78274b20d9a5b29d415a0b30b6" true "IOContext.h" ∷ [])
    ∷ []

abbrev pub typedefs_1 : List Datum
typedefs_1 =
    datum "cb_246" "Cb"
      (place "../IOContext_8h.html#ac30daa79b7e242358c92c90b0510c1e9" true "IOContext.h" ∷ [])
    ∷ []

abbrev pub typedefs_2 : List Datum
typedefs_2 =
    datum "func_247" "Func"
      (place "../Executor_8h.html#a57320daf3dcdd71cb84894b9a513ab71" true "Executor.h" ∷ [])
    ∷ []

abbrev pub typedefs_3 : List Datum
typedefs_3 =
    datum "read_5fcb_248" "read_cb"
      (place "../IOContext_8h.html#a0fd7973c2ccecbbc7d1823ee3ae47555" true "IOContext.h" ∷ [])
    ∷ []

abbrev pub typedefs_4 : List Datum
typedefs_4 =
    datum "wait_5fcb_249" "wait_cb"
      (place "../IOContext_8h.html#a2caf1d4945fddf83b6a13374cb2b61ef" true "IOContext.h" ∷ [])
    ∷ datum "write_5fcb_250" "write_cb"
        (place "../IOContext_8h.html#a907c02342bcc1e7cfe6a6d4b27d0cc2e" true "IOContext.h" ∷ [])
    ∷ []
