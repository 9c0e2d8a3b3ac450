-- ===== src/DocSearch/Data/AllD.antt =====
-- docs/html/search: the tables of all_d.js.
use cring.Prelude.{List, [], ◌∷◌, true}
use cring.DocSearch.Create.{Datum}
use cring.DocSearch.Data.Datum.{datum, place}

abbrev pub all_d : List Datum
all_d =
    datum "read_94" "READ" (
      place
        "../IOContext_8h.html#ae10b07f2d0feb103db7fe4cfd192e5afacb9be765f361bb7efb9073730aac92c6"
        true "IOContext.h"
      ∷ [])
    ∷ datum "read_5fcb_95" "read_cb"
        (place "../IOContext_8h.html#a0fd7973c2ccecbbc7d1823ee3ae47555" true "IOContext.h" ∷ [])
    ∷ datum "read_5ffn_96" "read_fn" (
        place "../Executor_8h.html#aebd2bc0662afa33263d2a2c19fb29d05" true
          "read_fn(ssize_t length, void *data):&#160;Executor.c"
        ∷ place "../Executor_8c.html#aebd2bc0662afa33263d2a2c19fb29d05" true
            "read_fn(ssize_t length, void *data):&#160;Executor.c"
        ∷ [])
    ∷ datum "readme_2emd_97" "README.md" (place "../README_8md.html" true "" ∷ [])
    ∷ datum "release_5ftoken_98" "release_token"
        (place "../IOContext_8h.html#ad950df966391c0ef12c340f9730462ea" true "IOContext.h" ∷ [])
    ∷ datum "request_5faccept_99" "request_accept" (
        place "../IOContext_8c.html#af512064e1c361ab3ea0c2bc0c6f86ef2" true
          "request_accept(struct IOContext *ioc, int fd, accept_cb cb, void *data):&#160;IOContext.c"
        ∷ place "../IOContext_8h.html#af512064e1c361ab3ea0c2bc0c6f86ef2" true
            "request_accept(struct IOContext *ioc, int fd, accept_cb cb, void *data):&#160;IOContext.c"
        ∷ [])
    ∷ datum "request_5fread_100" "request_read" (
        place "../IOContext_8h.html#a461e4a2881cee4c365206eb14f5be34b" true
          "request_read(struct IOContext *ioc, int fd, void *buffer, size_t size, read_cb cb, void *data):&#160;IOContext.c"
        ∷ place "../IOContext_8c.html#a461e4a2881cee4c365206eb14f5be34b" true
            "request_read(struct IOContext *ioc, int fd, void *buffer, size_t size, read_cb cb, void *data):&#160;IOContext.c"
        ∷ [])
    ∷ datum "request_5fread_5fwrite_101" "request_read_write" (
        place "../io-context-integration-test_8c.html#a7d7418ed967a1b3b95cc921f4b9e1508" true
          "request_read_write(void):&#160;io-context-integration-test.c"
        ∷ place "../io-context-integration-test_8h.html#a7d7418ed967a1b3b95cc921f4b9e1508" true
            "request_read_write(void):&#160;io-context-integration-test.c"
        ∷ [])
    ∷ datum "request_5fwait_102" "request_wait" (
        place "../IOContext_8h.html#a0e04058cf420f56f224f7dc39b23974f" true
          "request_wait(struct IOContext *ioc, struct __kernel_timespec *ts, wait_cb cb, void *data):&#160;IOContext.c"
        ∷ place "../IOContext_8c.html#a0e04058cf420f56f224f7dc39b23974f" true
            "request_wait(struct IOContext *ioc, struct __kernel_timespec *ts, wait_cb cb, void *data):&#160;IOContext.c"
        ∷ [])
    ∷ datum "request_5fwrite_103" "request_write" (
        place "../IOContext_8h.html#acd92ebb9ed5482d7e6bd873b609f678c" true
          "request_write(struct IOContext *ioc, int fd, void *buffer, size_t size, write_cb cb, void *data):&#160;IOContext.c"
        ∷ place "../IOContext_8c.html#acd92ebb9ed5482d7e6bd873b609f678c" true
            "request_write(struct IOContext *ioc, int fd, void *buffer, size_t size, write_cb cb, void *data):&#160;IOContext.c"
        ∷ [])
    ∷ datum "requesttype_104" "RequestType"
        (place "../IOContext_8h.html#ae10b07f2d0feb103db7fe4cfd192e5af" true "IOContext.h" ∷ [])
    ∷ datum "resolve_5fconnect_105" "resolve_connect"
        (place "../tests_2utils_8h.html#a5d8ebf2ac5552d8d2ec22d8e1a4df7da" true "utils.h" ∷ [])
    ∷ datum "result_106" "result"
        (place "../structFrame.html#ad0e18281b3b171a0ca321cffd0b2661f" true "Frame" ∷ [])
    ∷ datum "ring_107" "ring"
        (place "../structIOContext.html#ac4c47d1e17133270eb3929413764b29a" true "IOContext" ∷ [])
    ∷ datum "ring_5fsize_108" "RING_SIZE" (
        place "../pingpong-server_8c.html#a1d1581e7fe155ec30aa3e34788936e6c" true
          "pingpong-server.c"
        ∷ [])
    ∷ datum "run_109" "run" (
        place "../Executor_8h.html#aa0eafbe8622b5ceefccd7aa75c787b6e" true
          "run(struct Executor *executor):&#160;Executor.c"
        ∷ place "../Executor_8c.html#aa0eafbe8622b5ceefccd7aa75c787b6e" true
            "run(struct Executor *executor):&#160;Executor.c"
        ∷ [])
    ∷ datum "run_5fexecutor_5ftests_110" "run_executor_tests" (
        place "../executor-test_8c.html#af248dff4ceea7420f3b695f730577d3e" true
          "run_executor_tests(void):&#160;executor-test.c"
        ∷ place "../executor-test_8h.html#af248dff4ceea7420f3b695f730577d3e" true
            "run_executor_tests(void):&#160;executor-test.c"
        ∷ [])
    ∷ datum "run_5fio_5fcontext_5fintegeration_5ftests_111" "run_io_context_integeration_tests" (
        place "../io-context-integration-test_8c.html#a7540db7781abb98d590fbc6430f44a41" true
          "run_io_context_integeration_tests(void):&#160;io-context-integration-test.c"
        ∷ place "../io-context-integration-test_8h.html#a7540db7781abb98d590fbc6430f44a41" true
            "run_io_context_integeration_tests(void):&#160;io-context-integration-test.c"
        ∷ [])
    ∷ datum "run_5fio_5fcontext_5ftests_112" "run_io_context_tests" (
        place "../io-context-test_8c.html#a022cbef40317771910e70a625c9fba23" true
          "run_io_context_tests(void):&#160;io-context-test.c"
        ∷ place "../io-context-test_8h.html#a022cbef40317771910e70a625c9fba23" true
            "run_io_context_tests(void):&#160;io-context-test.c"
        ∷ [])
    ∷ datum "run_5ftests_113" "run_tests"
        (place "../main-test_8c.html#aa8dcf6fe6075e20999e41e7b8b1dfdfa" true "main-test.c" ∷ [])
    ∷ datum "run_5fthread_114" "run_thread" (
        place "../pingpong-client_8c.html#a5893646dd109b359923b98694f9fcaa2" true
          "pingpong-client.c"
        ∷ [])
    ∷ []
