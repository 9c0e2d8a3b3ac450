-- ===== src/DocSearch/Data/Files.antt =====
-- docs/html/search: the tables of files_0.js to files_6.js.
use cring.Prelude.{List, [], ◌∷◌, true}
use cring.DocSearch.Create.{Datum}
use cring.DocSearch.Data.Datum.{datum, place}

abbrev pub files_0 : List Datum
files_0 = datum "common_2eh_141" "Common.h" (place "../Common_8h.html" true "" ∷ []) ∷ []

abbrev pub files_1 : List Datum
files_1 =
    datum "echo_2dclient_2ec_142" "echo-client.c" (place "../echo-client_8c.html" true "" ∷ [])
    ∷ datum "echo_2dserver_2ec_143" "echo-server.c" (place "../echo-server_8c.html" true "" ∷ [])
    ∷ datum "executor_2dtest_2ec_144" "executor-test.c"
        (place "../executor-test_8c.html" true "" ∷ [])
    ∷ datum "executor_2dtest_2eh_145" "executor-test.h"
        (place "../executor-test_8h.html" true "" ∷ [])
    ∷ datum "executor_2ec_146" "Executor.c" (place "../Executor_8c.html" true "" ∷ [])
    ∷ datum "executor_2eh_147" "Executor.h" (place "../Executor_8h.html" true "" ∷ [])
    ∷ []

abbrev pub files_2 : List Datum
files_2 =
    datum "io_2dcontext_2dintegration_2dtest_2ec_148" "io-context-integration-test.c"
      (place "../io-context-integration-test_8c.html" true "" ∷ [])
    ∷ datum "io_2dcontext_2dintegration_2dtest_2eh_149" "io-context-integration-test.h"
        (place "../io-context-integration-test_8h.html" true "" ∷ [])
    ∷ datum "io_2dcontext_2dtest_2ec_150" "io-context-test.c"
        (place "../io-context-test_8c.html" true "" ∷ [])
    ∷ datum "io_2dcontext_2dtest_2eh_151" "io-context-test.h"
        (place "../io-context-test_8h.html" true "" ∷ [])
    ∷ datum "iocontext_2ec_152" "IOContext.c" (place "../IOContext_8c.html" true "" ∷ [])
    ∷ datum "iocontext_2eh_153" "IOContext.h" (place "../IOContext_8h.html" true "" ∷ [])
    ∷ []

abbrev pub files_3 : List Datum
files_3 = datum "main_2dtest_2ec_154" "main-test.c" (place "../main-test_8c.html" true "" ∷ []) ∷ []

abbrev pub files_4 : List Datum
files_4 =
    datum "pingpong_2dclient_2ec_155" "pingpong-client.c"
      (place "../pingpong-client_8c.html" true "" ∷ [])
    ∷ datum "pingpong_2dserver_2ec_156" "pingpong-server.c"
        (place "../pingpong-server_8c.html" true "" ∷ [])
    ∷ []

abbrev pub files_5 : List Datum
files_5 = datum "readme_2emd_157" "README.md" (place "../README_8md.html" true "" ∷ []) ∷ []

abbrev pub files_6 : List Datum
files_6 =
    datum "utils_2eh_158" "utils.h" (
      place "../benchmarks_2utils_8h.html" true "(Global Namespace)"
      ∷ place "../examples_2utils_8h.html" true "(Global Namespace)"
      ∷ place "../tests_2utils_8h.html" true "(Global Namespace)"
      ∷ [])
    ∷ []
