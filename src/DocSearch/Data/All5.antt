-- ===== src/DocSearch/Data/All5.antt =====
-- docs/html/search: the tables of all_5.js to all_7.js.
use cring.Prelude.{List, [], ◌∷◌, true}
use cring.DocSearch.Create.{Datum}
use cring.DocSearch.Data.Datum.{datum, place}

abbrev pub all_5 : List Datum
all_5 =
    datum "echo_2dclient_2ec_31" "echo-client.c" (place "../echo-client_8c.html" true "" ∷ [])
    ∷ datum "echo_2dserver_2ec_32" "echo-server.c" (place "../echo-server_8c.html" true "" ∷ [])
    ∷ datum "echo_5fclient_33" "echo_client"
        (place "../echo-client_8c.html#abaabd20a643290774d14c2fabab4df58" true "echo-client.c" ∷ [])
    ∷ datum "echo_5fserver_34" "echo_server"
        (place "../echo-server_8c.html#aed0f17f11bc511523799ba2f8266b5d8" true "echo-server.c" ∷ [])
    ∷ datum "exe_35" "exe"
        (place "../structFrame.html#a7e19c4df48b66a86a3a18e22d2321e43" true "Frame" ∷ [])
    ∷ datum "execute_36" "execute" (
        place "../Executor_8h.html#a63dd1c25e6503b80ffa68fb7905faddb" true
          "execute(Func fn, struct Executor *executor, void *data):&#160;Executor.c"
        ∷ place "../Executor_8c.html#a63dd1c25e6503b80ffa68fb7905faddb" true
            "execute(Func fn, struct Executor *executor, void *data):&#160;Executor.c"
        ∷ [])
    ∷ datum "executor_37" "Executor" (place "../structExecutor.html" true "" ∷ [])
    ∷ datum "executor_2dtest_2ec_38" "executor-test.c"
        (place "../executor-test_8c.html" true "" ∷ [])
    ∷ datum "executor_2dtest_2eh_39" "executor-test.h"
        (place "../executor-test_8h.html" true "" ∷ [])
    ∷ datum "executor_2ec_40" "Executor.c" (place "../Executor_8c.html" true "" ∷ [])
    ∷ datum "executor_2eh_41" "Executor.h" (place "../Executor_8h.html" true "" ∷ [])
    ∷ datum "executor_5finvalid_5ffree_42" "executor_invalid_free" (
        place "../executor-test_8c.html#af098270cc5a2bc7452d0d19889cca095" true
          "executor_invalid_free(void):&#160;executor-test.c"
        ∷ place "../executor-test_8h.html#af098270cc5a2bc7452d0d19889cca095" true
            "executor_invalid_free(void):&#160;executor-test.c"
        ∷ [])
    ∷ datum "executor_5finvalid_5finit_43" "executor_invalid_init" (
        place "../executor-test_8c.html#aed4c98e92539bf8411b2c1df79fbea00" true
          "executor_invalid_init(void):&#160;executor-test.c"
        ∷ place "../executor-test_8h.html#aed4c98e92539bf8411b2c1df79fbea00" true
            "executor_invalid_init(void):&#160;executor-test.c"
        ∷ [])
    ∷ datum "executor_5fvalid_5finit_44" "executor_valid_init" (
        place "../executor-test_8c.html#a31be36c0a09d6de97ea1f468a53f18cf" true
          "executor_valid_init(void):&#160;executor-test.c"
        ∷ place "../executor-test_8h.html#a31be36c0a09d6de97ea1f468a53f18cf" true
            "executor_valid_init(void):&#160;executor-test.c"
        ∷ [])
    ∷ []

abbrev pub all_6 : List Datum
all_6 =
    datum "fd_45" "fd" (
      place "../structToken.html#a5e2b8730f7045e78147c1234173f34ed" true "Token::fd()"
      ∷ place "../IOContext_8h.html#a6f8059414f0228f0256115e024eeed4b" true "fd():&#160;IOContext.h"
      ∷ [])
    ∷ datum "frame_46" "Frame" (place "../structFrame.html" true "" ∷ [])
    ∷ datum "frame_5fcount_47" "FRAME_COUNT" (
        place "../pingpong-server_8c.html#a7a6c3aace699ca6cbaf8ac2072ce5485" true
          "pingpong-server.c"
        ∷ [])
    ∷ datum "frames_48" "frames"
        (place "../structExecutor.html#a630ff91cd43b8ca1cd04cecdb2ecc51d" true "Executor" ∷ [])
    ∷ datum "free_5fexecutor_49" "free_executor" (
        place "../Executor_8h.html#ac6c63cd4530b7ba82b6217186e97c411" true
          "free_executor(struct Executor *executor):&#160;Executor.c"
        ∷ place "../Executor_8c.html#ac6c63cd4530b7ba82b6217186e97c411" true
            "free_executor(struct Executor *executor):&#160;Executor.c"
        ∷ [])
    ∷ datum "free_5fio_5fcontext_50" "free_io_context" (
        place "../IOContext_8h.html#ac1dc00ac986e63b75bdf7680b38e06e3" true
          "free_io_context(struct IOContext *ioc):&#160;IOContext.c"
        ∷ place "../IOContext_8c.html#ac1dc00ac986e63b75bdf7680b38e06e3" true
            "free_io_context(struct IOContext *ioc):&#160;IOContext.c"
        ∷ [])
    ∷ datum "func_51" "Func"
        (place "../Executor_8h.html#a57320daf3dcdd71cb84894b9a513ab71" true "Executor.h" ∷ [])
    ∷ []

abbrev pub all_7 : List Datum
all_7 =
    datum "get_5fcurrent_5fframe_52" "get_current_frame"
      (place "../Executor_8h.html#a082e06a39d833d4afaeb4db0483f9125" true "Executor.h" ∷ [])
    ∷ datum "get_5flast_5fframe_53" "get_last_frame"
        (place "../Executor_8h.html#a58ab6c10d611d9b43d2674c660a9504a" true "Executor.h" ∷ [])
    ∷ datum "get_5ftoken_54" "get_token"
        (place "../IOContext_8h.html#a120095877fa22ff8ba4ad9a905d275e3" true "IOContext.h" ∷ [])
    ∷ []
