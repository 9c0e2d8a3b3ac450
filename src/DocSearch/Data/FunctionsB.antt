-- ===== src/DocSearch/Data/FunctionsB.antt =====
-- docs/html/search: the tables of functions_b.js to functions_d.js.
use cring.Prelude.{List, [], ◌∷◌, true}
use cring.DocSearch.Create.{Datum}
use cring.DocSearch.Data.Datum.{datum, place}

abbrev pub functions_b : List Datum
functions_b =
    datum "read_5ffn_202" "read_fn" (
      place "../Executor_8c.html#aebd2bc0662afa33263d2a2c19fb29d05" true
        "read_fn(ssize_t length, void *data):&#160;Executor.c"
      ∷ place "../Executor_8h.html#aebd2bc0662afa33263d2a2c19fb29d05" true
          "read_fn(ssize_t length, void *data):&#160;Executor.c"
      ∷ [])
    ∷ datum "release_5ftoken_203" "release_token"
        (place "../IOContext_8h.html#ad950df966391c0ef12c340f9730462ea" true "IOContext.h" ∷ [])
    ∷ datum "request_5faccept_204" "request_accept" (
        place "../IOContext_8h.html#af512064e1c361ab3ea0c2bc0c6f86ef2" true
          "request_accept(struct IOContext *ioc, int fd, accept_cb cb, void *data):&#160;IOContext.c"
        ∷ place "../IOContext_8c.html#af512064e1c361ab3ea0c2bc0c6f86ef2" true
            "request_accept(struct IOContext *ioc, int fd, accept_cb cb, void *data):&#160;IOContext.c"
        ∷ [])
    ∷ datum "request_5fread_205" "request_read" (
        place "../IOContext_8h.html#a461e4a2881cee4c365206eb14f5be34b" true
          "request_read(struct IOContext *ioc, int fd, void *buffer, size_t size, read_cb cb, void *data):&#160;IOContext.c"
        ∷ place "../IOContext_8c.html#a461e4a2881cee4c365206eb14f5be34b" true
            "request_read(struct IOContext *ioc, int fd, void *buffer, size_t size, read_cb cb, void *data):&#160;IOContext.c"
        ∷ [])
    ∷ datum "request_5fread_5fwrite_206" "request_read_write" (
        place "../io-context-integration-test_8c.html#a7d7418ed967a1b3b95cc921f4b9e1508" true
          "request_read_write(void):&#160;io-context-integration-test.c"
        ∷ place "../io-context-integration-test_8h.html#a7d7418ed967a1b3b95cc921f4b9e1508" true
            "request_read_write(void):&#160;io-context-integration-test.c"
        ∷ [])
    ∷ datum "request_5fwait_207" "request_wait" (
        place "../IOContext_8h.html#a0e04058cf420f56f224f7dc39b23974f" true
          "request_wait(struct IOContext *ioc, struct __kernel_timespec *ts, wait_cb cb, void *data):&#160;IOContext.c"
        ∷ place "../IOContext_8c.html#a0e04058cf420f56f224f7dc39b23974f" true
            "request_wait(struct IOContext *ioc, struct __kernel_timespec *ts, wait_cb cb, void *data):&#160;IOContext.c"
        ∷ [])
    ∷ datum "request_5fwrite_208" "request_write" (
        place "../IOContext_8c.html#acd92ebb9ed5482d7e6bd873b609f678c" true
          "request_write(struct IOContext *ioc, int fd, void *buffer, size_t size, write_cb cb, void *data):&#160;IOContext.c"
        ∷ place "../IOContext_8h.html#acd92ebb9ed5482d7e6bd873b609f678c" true
            "request_write(struct IOContext *ioc, int fd, void *buffer, size_t size, write_cb cb, void *data):&#160;IOContext.c"
        ∷ [])
    ∷ datum "resolve_5fconnect_209" "resolve_connect"
        (place "../tests_2utils_8h.html#a5d8ebf2ac5552d8d2ec22d8e1a4df7da" true "utils.h" ∷ [])
    ∷ datum "run_210" "run" (
        place "../Executor_8h.html#aa0eafbe8622b5ceefccd7aa75c787b6e" true
          "run(struct Executor *executor):&#160;Executor.c"
        ∷ place "../Executor_8c.html#aa0eafbe8622b5ceefccd7aa75c787b6e" true
            "run(struct Executor *executor):&#160;Executor.c"
        ∷ [])
    ∷ datum "run_5fexecutor_5ftests_211" "run_executor_tests" (
        place "../executor-test_8c.html#af248dff4ceea7420f3b695f730577d3e" true
          "run_executor_tests(void):&#160;executor-test.c"
        ∷ place "../executor-test_8h.html#af248dff4ceea7420f3b695f730577d3e" true
            "run_executor_tests(void):&#160;executor-test.c"
        ∷ [])
    ∷ datum "run_5fio_5fcontext_5fintegeration_5ftests_212" "run_io_context_integeration_tests" (
        place "../io-context-integration-test_8c.html#a7540db7781abb98d590fbc6430f44a41" true
          "run_io_context_integeration_tests(void):&#160;io-context-integration-test.c"
        ∷ place "../io-context-integration-test_8h.html#a7540db7781abb98d590fbc6430f44a41" true
            "run_io_context_integeration_tests(void):&#160;io-context-integration-test.c"
        ∷ [])
    ∷ datum "run_5fio_5fcontext_5ftests_213" "run_io_context_tests" (
        place "../io-context-test_8c.html#a022cbef40317771910e70a625c9fba23" true
          "run_io_context_tests(void):&#160;io-context-test.c"
        ∷ place "../io-context-test_8h.html#a022cbef40317771910e70a625c9fba23" true
            "run_io_context_tests(void):&#160;io-context-test.c"
        ∷ [])
    ∷ datum "run_5ftests_214" "run_tests"
        (place "../main-test_8c.html#aa8dcf6fe6075e20999e41e7b8b1dfdfa" true "main-test.c" ∷ [])
    ∷ datum "run_5fthread_215" "run_thread" (
        place "../pingpong-client_8c.html#a5893646dd109b359923b98694f9fcaa2" true
          "pingpong-client.c"
        ∷ [])
    ∷ []

abbrev pub functions_c : List Datum
functions_c =
    datum "setup_5flisten_216" "setup_listen" (
      place "../benchmarks_2utils_8h.html#a4bd11af13d4900eef19a08bb70f2c143" true
        "setup_listen(const char *addr, int port):&#160;utils.h"
      ∷ place "../examples_2utils_8h.html#a4bd11af13d4900eef19a08bb70f2c143" true
          "setup_listen(const char *addr, int port):&#160;utils.h"
      ∷ [])
    ∷ datum "suspend_5fcurrent_5fframe_217" "suspend_current_frame"
        (place "../Executor_8h.html#aa6c3b94ac2337cc9d0da9ddc80d32888" true "Executor.h" ∷ [])
    ∷ datum "swap_5fcurrent_5fframe_5fwith_5flast_5fframe_218" "swap_current_frame_with_last_frame"
        (place "../Executor_8h.html#a208cf4c4e14da86cfba7be02135475a8" true "Executor.h" ∷ [])
    ∷ []

abbrev pub functions_d : List Datum
functions_d =
    datum "valid_5frequest_5fwait_219" "valid_request_wait" (
      place "../io-context-integration-test_8c.html#a7806f36bc65d8f63a42610453872a6a2" true
        "valid_request_wait(void):&#160;io-context-integration-test.c"
      ∷ place "../io-context-integration-test_8h.html#a7806f36bc65d8f63a42610453872a6a2" true
          "valid_request_wait(void):&#160;io-context-integration-test.c"
      ∷ [])
    ∷ []
