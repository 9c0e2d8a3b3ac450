-- ===== src/DocSearch/Data/AllE.antt =====
-- docs/html/search: the tables of all_e.js to all_12.js.
use cring.Prelude.{List, [], ◌∷◌, true}
use cring.DocSearch.Create.{Datum}
use cring.DocSearch.Data.Datum.{datum, place}

abbrev pub all_e : List Datum
all_e =
    datum "server_5ffd_115" "server_fd" (
      place "../pingpong-server_8c.html#a6cf4711aa7ecd548b03b6e50d44b5aa6" true "pingpong-server.c"
      ∷ [])
    ∷ datum "setup_5flisten_116" "setup_listen" (
        place "../benchmarks_2utils_8h.html#a4bd11af13d4900eef19a08bb70f2c143" true
          "setup_listen(const char *addr, int port):&#160;utils.h"
        ∷ place "../examples_2utils_8h.html#a4bd11af13d4900eef19a08bb70f2c143" true
            "setup_listen(const char *addr, int port):&#160;utils.h"
        ∷ [])
    ∷ datum "size_117" "size"
        (place "../structExecutor.html#a358125b73f8869d02d5308279edbc0c8" true "Executor" ∷ [])
    ∷ datum "stack_5fsize_118" "STACK_SIZE"
        (place "../Executor_8h.html#a6423a880df59733d2d9b509c7718d3a9" true "Executor.h" ∷ [])
    ∷ datum "suspend_5fcurrent_5fframe_119" "suspend_current_frame"
        (place "../Executor_8h.html#aa6c3b94ac2337cc9d0da9ddc80d32888" true "Executor.h" ∷ [])
    ∷ datum "swap_5fcurrent_5fframe_5fwith_5flast_5fframe_120" "swap_current_frame_with_last_frame"
        (place "../Executor_8h.html#a208cf4c4e14da86cfba7be02135475a8" true "Executor.h" ∷ [])
    ∷ []

abbrev pub all_f : List Datum
all_f =
    datum "tail_121" "tail"
      (place "../structIOContext.html#a99aff6c32b697270cdc944a679259517" true "IOContext" ∷ [])
    ∷ datum "threadinfo_122" "ThreadInfo" (place "../structThreadInfo.html" true "" ∷ [])
    ∷ datum "threads_123" "threads" (
        place "../pingpong-client_8c.html#a4f987a98d3e1221916748962e45399fe" true
          "pingpong-client.c"
        ∷ [])
    ∷ datum "threads_5fno_124" "THREADS_NO"
        (place "../main-test_8c.html#adb72e94c8e572a487859cb3128e34b63" true "main-test.c" ∷ [])
    ∷ datum "token_125" "Token" (place "../structToken.html" true "" ∷ [])
    ∷ datum "type_126" "type" (
        place "../structToken.html#a9993ccba27a7e6c30c11cfed7d96cb20" true "Token::type()"
        ∷ place "../IOContext_8h.html#ae024bc940c106f2a0bbf7b7163629495" true
            "type():&#160;IOContext.h"
        ∷ [])
    ∷ []

abbrev pub all_10 : List Datum
all_10 =
    datum "unlikely_127" "unlikely"
      (place "../Common_8h.html#ac6c45889010c1bd68631771b64f18101" true "Common.h" ∷ [])
    ∷ datum "utils_2eh_128" "utils.h" (
        place "../benchmarks_2utils_8h.html" true "(Global Namespace)"
        ∷ place "../examples_2utils_8h.html" true "(Global Namespace)"
        ∷ place "../tests_2utils_8h.html" true "(Global Namespace)"
        ∷ [])
    ∷ []

abbrev pub all_11 : List Datum
all_11 =
    datum "valid_5frequest_5fwait_129" "valid_request_wait" (
      place "../io-context-integration-test_8c.html#a7806f36bc65d8f63a42610453872a6a2" true
        "valid_request_wait(void):&#160;io-context-integration-test.c"
      ∷ place "../io-context-integration-test_8h.html#a7806f36bc65d8f63a42610453872a6a2" true
          "valid_request_wait(void):&#160;io-context-integration-test.c"
      ∷ [])
    ∷ []

abbrev pub all_12 : List Datum
all_12 =
    datum "wait_130" "WAIT" (
      place
        "../IOContext_8h.html#ae10b07f2d0feb103db7fe4cfd192e5afa79a322ccb4b29b85b3cab52dbccefd17"
        true "IOContext.h"
      ∷ [])
    ∷ datum "wait_5fcb_131" "wait_cb"
        (place "../IOContext_8h.html#a2caf1d4945fddf83b6a13374cb2b61ef" true "IOContext.h" ∷ [])
    ∷ datum "wait_5ffn_132" "wait_fn" (
        place "../Executor_8h.html#a1a0266b4945438b6a6cdfc896057a2d7" true
          "wait_fn(void *data):&#160;Executor.c"
        ∷ place "../Executor_8c.html#a1a0266b4945438b6a6cdfc896057a2d7" true
            "wait_fn(void *data):&#160;Executor.c"
        ∷ [])
    ∷ datum "write_133" "WRITE" (
        place
          "../IOContext_8h.html#ae10b07f2d0feb103db7fe4cfd192e5afa61aa7ff70b76bff0fda378cf61d6afbc"
          true "IOContext.h"
        ∷ [])
    ∷ datum "write_5fcb_134" "write_cb"
        (place "../IOContext_8h.html#a907c02342bcc1e7cfe6a6d4b27d0cc2e" true "IOContext.h" ∷ [])
    ∷ datum "write_5ffn_135" "write_fn" (
        place "../Executor_8h.html#a544ff3ceedb797cc16191d1ae65a93e9" true
          "write_fn(ssize_t length, void *data):&#160;Executor.c"
        ∷ place "../Executor_8c.html#a544ff3ceedb797cc16191d1ae65a93e9" true
            "write_fn(ssize_t length, void *data):&#160;Executor.c"
        ∷ [])
    ∷ []
