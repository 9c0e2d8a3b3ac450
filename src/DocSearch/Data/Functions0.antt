-- ===== src/DocSearch/Data/Functions0.antt =====
-- docs/html/search: the tables of functions_0.js to functions_7.js.
use cring.Prelude.{List, [], ◌∷◌, true}
use cring.DocSearch.Create.{Datum}
use cring.DocSearch.Data.Datum.{datum, place}

abbrev pub functions_0 : List Datum
functions_0 =
    datum "_5f_5fattribute_5f_5f_159" "__attribute__"
      (place "../IOContext_8h.html#af865719cf768fc147b69a16d4db91c8e" true "IOContext.h" ∷ [])
    ∷ []

abbrev pub functions_1 : List Datum
functions_1 =
    datum "accept_5ffn_160" "accept_fn" (
      place "../Executor_8h.html#a80cacd42cbda4c749c6f03976dd3f015" true
        "accept_fn(int fd, void *data):&#160;Executor.c"
      ∷ place "../Executor_8c.html#a80cacd42cbda4c749c6f03976dd3f015" true
          "accept_fn(int fd, void *data):&#160;Executor.c"
      ∷ [])
    ∷ datum "align32pow2_161" "align32pow2"
        (place "../Common_8h.html#a3919466116f3e3201ee4d982cde797c1" true "Common.h" ∷ [])
    ∷ datum "align64pow2_162" "align64pow2"
        (place "../Common_8h.html#a22f9ba4d0b088a4f0ae03e1e10c75e78" true "Common.h" ∷ [])
    ∷ datum "async_5faccept_163" "async_accept"
        (place "../Executor_8h.html#a5b470335526bd6fac7e9a07b1253f492" true "Executor.h" ∷ [])
    ∷ datum "async_5fexec_164" "async_exec" (
        place "../Executor_8h.html#a2ed29df4c37bbb8d77979d88b0cce9b8" true
          "async_exec(struct Executor *executor, Func fn, void *data):&#160;Executor.c"
        ∷ place "../Executor_8c.html#a2ed29df4c37bbb8d77979d88b0cce9b8" true
            "async_exec(struct Executor *executor, Func fn, void *data):&#160;Executor.c"
        ∷ [])
    ∷ datum "async_5fread_165" "async_read"
        (place "../Executor_8h.html#ae1d2e7a866535d60cd9fe8bce1f0643d" true "Executor.h" ∷ [])
    ∷ datum "async_5fwait_166" "async_wait"
        (place "../Executor_8h.html#adfa1a96dd99234a6ca65764dfb02e905" true "Executor.h" ∷ [])
    ∷ datum "async_5fwrite_167" "async_write"
        (place "../Executor_8h.html#a6de4bb7573b224457dea7b43f44cbbda" true "Executor.h" ∷ [])
    ∷ []

abbrev pub functions_2 : List Datum
functions_2 =
    datum "bind_5fcpu_168" "bind_cpu" (
      place "../pingpong-server_8c.html#af8b4bb1ceb4cb3c9b45a501c8b1831a2" true "pingpong-server.c"
      ∷ [])
    ∷ datum "bind_5fto_169" "bind_to"
        (place "../tests_2utils_8h.html#a687674819d07dc1787d5737a87eb925c" true "utils.h" ∷ [])
    ∷ []

abbrev pub functions_3 : List Datum
functions_3 =
    datum "check_5felapced_5ftime_5fmsec_170" "check_elapced_time_msec"
      (place "../tests_2utils_8h.html#aca6088d22de68219f5b65d19c3bed168" true "utils.h" ∷ [])
    ∷ datum "client_5fhandler_171" "client_handler" (
        place "../pingpong-server_8c.html#ac2771343f61b7065e14b1d61de92f6c6" true
          "client_handler(struct Executor *executor, void *data):&#160;pingpong-server.c"
        ∷ place "../echo-server_8c.html#ac2771343f61b7065e14b1d61de92f6c6" true
            "client_handler(struct Executor *executor, void *data):&#160;echo-server.c"
        ∷ [])
    ∷ datum "connect_5fto_5fserver_172" "connect_to_server" (
        place "../benchmarks_2utils_8h.html#af0698ca484f33252295b384563269ff9" true
          "connect_to_server(const char *addr, int port):&#160;utils.h"
        ∷ place "../examples_2utils_8h.html#af0698ca484f33252295b384563269ff9" true
            "connect_to_server(const char *addr, int port):&#160;utils.h"
        ∷ [])
    ∷ []

abbrev pub functions_4 : List Datum
functions_4 =
    datum "do_5fwrite_173" "do_write" (
      place "../io-context-integration-test_8c.html#a634481ed95f1a0a68fe827f65cc758da" true
        "io-context-integration-test.c"
      ∷ [])
    ∷ []

abbrev pub functions_5 : List Datum
functions_5 =
    datum "echo_5fclient_174" "echo_client"
      (place "../echo-client_8c.html#abaabd20a643290774d14c2fabab4df58" true "echo-client.c" ∷ [])
    ∷ datum "echo_5fserver_175" "echo_server"
        (place "../echo-server_8c.html#aed0f17f11bc511523799ba2f8266b5d8" true "echo-server.c" ∷ [])
    ∷ datum "execute_176" "execute" (
        place "../Executor_8h.html#a63dd1c25e6503b80ffa68fb7905faddb" true
          "execute(Func fn, struct Executor *executor, void *data):&#160;Executor.c"
        ∷ place "../Executor_8c.html#a63dd1c25e6503b80ffa68fb7905faddb" true
            "execute(Func fn, struct Executor *executor, void *data):&#160;Executor.c"
        ∷ [])
    ∷ datum "executor_5finvalid_5ffree_177" "executor_invalid_free" (
        place "../executor-test_8c.html#af098270cc5a2bc7452d0d19889cca095" true
          "executor_invalid_free(void):&#160;executor-test.c"
        ∷ place "../executor-test_8h.html#af098270cc5a2bc7452d0d19889cca095" true
            "executor_invalid_free(void):&#160;executor-test.c"
        ∷ [])
    ∷ datum "executor_5finvalid_5finit_178" "executor_invalid_init" (
        place "../executor-test_8c.html#aed4c98e92539bf8411b2c1df79fbea00" true
          "executor_invalid_init(void):&#160;executor-test.c"
        ∷ place "../executor-test_8h.html#aed4c98e92539bf8411b2c1df79fbea00" true
            "executor_invalid_init(void):&#160;executor-test.c"
        ∷ [])
    ∷ datum "executor_5fvalid_5finit_179" "executor_valid_init" (
        place "../executor-test_8c.html#a31be36c0a09d6de97ea1f468a53f18cf" true
          "executor_valid_init(void):&#160;executor-test.c"
        ∷ place "../executor-test_8h.html#a31be36c0a09d6de97ea1f468a53f18cf" true
            "executor_valid_init(void):&#160;executor-test.c"
        ∷ [])
    ∷ []

abbrev pub functions_6 : List Datum
functions_6 =
    datum "free_5fexecutor_180" "free_executor" (
      place "../Executor_8h.html#ac6c63cd4530b7ba82b6217186e97c411" true
        "free_executor(struct Executor *executor):&#160;Executor.c"
      ∷ place "../Executor_8c.html#ac6c63cd4530b7ba82b6217186e97c411" true
          "free_executor(struct Executor *executor):&#160;Executor.c"
      ∷ [])
    ∷ datum "free_5fio_5fcontext_181" "free_io_context" (
        place "../IOContext_8h.html#ac1dc00ac986e63b75bdf7680b38e06e3" true
          "free_io_context(struct IOContext *ioc):&#160;IOContext.c"
        ∷ place "../IOContext_8c.html#ac1dc00ac986e63b75bdf7680b38e06e3" true
            "free_io_context(struct IOContext *ioc):&#160;IOContext.c"
        ∷ [])
    ∷ []

abbrev pub functions_7 : List Datum
functions_7 =
    datum "get_5fcurrent_5fframe_182" "get_current_frame"
      (place "../Executor_8h.html#a082e06a39d833d4afaeb4db0483f9125" true "Executor.h" ∷ [])
    ∷ datum "get_5flast_5fframe_183" "get_last_frame"
        (place "../Executor_8h.html#a58ab6c10d611d9b43d2674c660a9504a" true "Executor.h" ∷ [])
    ∷ datum "get_5ftoken_184" "get_token"
        (place "../IOContext_8h.html#a120095877fa22ff8ba4ad9a905d275e3" true "IOContext.h" ∷ [])
    ∷ []
