-- ===== src/DocSearch/Data/Classes.antt =====
-- docs/html/search: the tables of classes_0.js to classes_3.js.
use cring.Prelude.{List, [], ◌∷◌, true}
use cring.DocSearch.Create.{Datum}
use cring.DocSearch.Data.Datum.{datum, place}

abbrev pub classes_0 : List Datum
classes_0 = datum "executor_136" "Executor" (place "../structExecutor.html" true "" ∷ []) ∷ []

abbrev pub classes_1 : List Datum
classes_1 = datum "frame_137" "Frame" (place "../structFrame.html" true "" ∷ []) ∷ []

abbrev pub classes_2 : List Datum
classes_2 = datum "iocontext_138" "IOContext" (place "../structIOContext.html" true "" ∷ []) ∷ []

abbrev pub classes_3 : List Datum
classes_3 =
    datum "threadinfo_139" "ThreadInfo" (place "../structThreadInfo.html" true "" ∷ [])
    ∷ datum "token_140" "Token" (place "../structToken.html" true "" ∷ [])
    ∷ []
