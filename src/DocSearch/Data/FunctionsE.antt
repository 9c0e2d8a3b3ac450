-- ===== src/DocSearch/Data/FunctionsE.antt =====
-- docs/html/search: the tables of functions_e.js.
use cring.Prelude.{List, [], ◌∷◌, true}
use cring.DocSearch.Create.{Datum}
use cring.DocSearch.Data.Datum.{datum, place}

abbrev pub functions_e : List Datum
functions_e =
    datum "wait_5ffn_220" "wait_fn" (
      place "../Executor_8h.html#a1a0266b4945438b6a6cdfc896057a2d7" true
        "wait_fn(void *data):&#160;Executor.c"
      ∷ place "../Executor_8c.html#a1a0266b4945438b6a6cdfc896057a2d7" true
          "wait_fn(void *data):&#160;Executor.c"
      ∷ [])
    ∷ datum "write_5ffn_221" "write_fn" (
        place "../Executor_8h.html#a544ff3ceedb797cc16191d1ae65a93e9" true
          "write_fn(ssize_t length, void *data):&#160;Executor.c"
        ∷ place "../Executor_8c.html#a544ff3ceedb797cc16191d1ae65a93e9" true
            "write_fn(ssize_t length, void *data):&#160;Executor.c"
        ∷ [])
    ∷ []
