-- ===== src/DocSearch/Data/Defines.antt =====
-- docs/html/search: the tables of defines_0.js to defines_a.js.
use cring.Prelude.{List, [], ◌∷◌, true}
use cring.DocSearch.Create.{Datum}
use cring.DocSearch.Data.Datum.{datum, place}

abbrev pub defines_0 : List Datum
defines_0 =
    datum "_5fgnu_5fsource_256" "_GNU_SOURCE" (
      place "../pingpong-server_8c.html#a369266c24eacffb87046522897a570d5" true "pingpong-server.c"
      ∷ [])
    ∷ []

abbrev pub defines_1 : List Datum
defines_1 =
    datum "batch_5fsize_257" "BATCH_SIZE"
      (place "../Executor_8h.html#a9ae2958e436c566413867028fc829ec0" true "Executor.h" ∷ [])
    ∷ []

abbrev pub defines_2 : List Datum
defines_2 =
    datum "client_5fno_258" "CLIENT_NO"
      (place "../echo-client_8c.html#a5b5b3f223a5d0f89db3699861a56e312" true "echo-client.c" ∷ [])
    ∷ []

abbrev pub defines_3 : List Datum
defines_3 =
    datum "frame_5fcount_259" "FRAME_COUNT" (
      place "../pingpong-server_8c.html#a7a6c3aace699ca6cbaf8ac2072ce5485" true "pingpong-server.c"
      ∷ [])
    ∷ []

abbrev pub defines_4 : List Datum
defines_4 =
    datum "likely_260" "likely"
      (place "../Common_8h.html#a217a0bd562b98ae8c2ffce44935351e1" true "Common.h" ∷ [])
    ∷ datum "log_5fdebug_261" "LOG_DEBUG"
        (place "../Common_8h.html#abd0b0523397fb05f0ed46fc217fb630f" true "Common.h" ∷ [])
    ∷ datum "log_5ferror_262" "LOG_ERROR"
        (place "../Common_8h.html#abffaf9cecb61026cac6db71a16ace9c5" true "Common.h" ∷ [])
    ∷ []

abbrev pub defines_5 : List Datum
defines_5 =
    datum "max_5fbatch_5fsize_263" "MAX_BATCH_SIZE"
      (place "../IOContext_8h.html#a18373cd65e0761a3bd4e760a8e015baa" true "IOContext.h" ∷ [])
    ∷ datum "maybe_5funused_264" "MAYBE_UNUSED"
        (place "../tests_2utils_8h.html#a07d932791f722cd5b75c111e51ef2023" true "utils.h" ∷ [])
    ∷ datum "message_265" "MESSAGE" (
        place "../io-context-integration-test_8c.html#af8a3e30cb4858ca8a098acae107286c0" true
          "io-context-integration-test.c"
        ∷ [])
    ∷ datum "messages_5fcount_266" "MESSAGES_COUNT" (
        place "../pingpong-client_8c.html#abc728fd454cbe6b4ff99133f8e303cca" true
          "pingpong-client.c"
        ∷ [])
    ∷ []

abbrev pub defines_6 : List Datum
defines_6 =
    datum "packet_5fsize_267" "PACKET_SIZE" (
      place "../pingpong-client_8c.html#aebdc7d8ca8e25ed8efc90bb88ef7ef5b" true
        "PACKET_SIZE():&#160;pingpong-client.c"
      ∷ place "../pingpong-server_8c.html#aebdc7d8ca8e25ed8efc90bb88ef7ef5b" true
          "PACKET_SIZE():&#160;pingpong-server.c"
      ∷ place "../echo-client_8c.html#aebdc7d8ca8e25ed8efc90bb88ef7ef5b" true
          "PACKET_SIZE():&#160;echo-client.c"
      ∷ place "../echo-server_8c.html#aebdc7d8ca8e25ed8efc90bb88ef7ef5b" true
          "PACKET_SIZE():&#160;echo-server.c"
      ∷ place "../io-context-integration-test_8c.html#aebdc7d8ca8e25ed8efc90bb88ef7ef5b" true
          "PACKET_SIZE():&#160;io-context-integration-test.c"
      ∷ [])
    ∷ []

abbrev pub defines_7 : List Datum
defines_7 =
    datum "ring_5fsize_268" "RING_SIZE" (
      place "../pingpong-server_8c.html#a1d1581e7fe155ec30aa3e34788936e6c" true "pingpong-server.c"
      ∷ [])
    ∷ []

abbrev pub defines_8 : List Datum
defines_8 =
    datum "stack_5fsize_269" "STACK_SIZE"
      (place "../Executor_8h.html#a6423a880df59733d2d9b509c7718d3a9" true "Executor.h" ∷ [])
    ∷ []

abbrev pub defines_9 : List Datum
defines_9 =
    datum "threads_5fno_270" "THREADS_NO"
      (place "../main-test_8c.html#adb72e94c8e572a487859cb3128e34b63" true "main-test.c" ∷ [])
    ∷ []

abbrev pub defines_a : List Datum
defines_a =
    datum "unlikely_271" "unlikely"
      (place "../Common_8h.html#ac6c45889010c1bd68631771b64f18101" true "Common.h" ∷ [])
    ∷ []
