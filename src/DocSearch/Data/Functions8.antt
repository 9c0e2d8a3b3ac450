-- ===== src/DocSearch/Data/Functions8.antt =====
-- docs/html/search: the tables of functions_8.js to functions_a.js.
use cring.Prelude.{List, [], ◌∷◌, true}
use cring.DocSearch.Create.{Datum}
use cring.DocSearch.Data.Datum.{datum, place}

abbrev pub functions_8 : List Datum
functions_8 =
    datum "init_5fexecutor_185" "init_executor" (
      place "../Executor_8h.html#a609695c94a5505e24923a6b08cf9fc1b" true
        "init_executor(struct Executor *executor, size_t count, size_t capacity):&#160;Executor.c"
      ∷ place "../Executor_8c.html#a609695c94a5505e24923a6b08cf9fc1b" true
          "init_executor(struct Executor *executor, size_t count, size_t capacity):&#160;Executor.c"
      ∷ [])
    ∷ datum "init_5fio_5fcontext_186" "init_io_context" (
        place "../IOContext_8h.html#aa02cf56b0f720bb557d3c787d3e8f123" true
          "init_io_context(struct IOContext *ioc, size_t capacity):&#160;IOContext.c"
        ∷ place "../IOContext_8c.html#aa02cf56b0f720bb557d3c787d3e8f123" true
            "init_io_context(struct IOContext *ioc, size_t capacity):&#160;IOContext.c"
        ∷ [])
    ∷ datum "init_5fserver_187" "init_server" (
        place "../pingpong-server_8c.html#ad2d9542dd85c2752302411678f2307c7" true
          "pingpong-server.c"
        ∷ [])
    ∷ datum "ioc_5fcapacity_5fcheck_188" "ioc_capacity_check" (
        place "../io-context-test_8c.html#a93d913d42f98f1752f32561d27cd6fa4" true
          "ioc_capacity_check(void):&#160;io-context-test.c"
        ∷ place "../io-context-test_8h.html#a93d913d42f98f1752f32561d27cd6fa4" true
            "ioc_capacity_check(void):&#160;io-context-test.c"
        ∷ [])
    ∷ datum "ioc_5fevaluate_5ftokens_189" "ioc_evaluate_tokens" (
        place "../io-context-test_8c.html#a75d24a456ca61dbd83eaff91c3b4aa0b" true
          "ioc_evaluate_tokens(void):&#160;io-context-test.c"
        ∷ place "../io-context-test_8h.html#a75d24a456ca61dbd83eaff91c3b4aa0b" true
            "ioc_evaluate_tokens(void):&#160;io-context-test.c"
        ∷ [])
    ∷ datum "ioc_5finvalid_5ffree_190" "ioc_invalid_free" (
        place "../io-context-test_8c.html#ac8376f159772e8d5fa89d591a9becbea" true
          "ioc_invalid_free(void):&#160;io-context-test.c"
        ∷ place "../io-context-test_8h.html#ac8376f159772e8d5fa89d591a9becbea" true
            "ioc_invalid_free(void):&#160;io-context-test.c"
        ∷ [])
    ∷ datum "ioc_5finvalid_5finit_191" "ioc_invalid_init" (
        place "../io-context-test_8c.html#a53af07c5f86a915fc3d6176cff69464b" true
          "ioc_invalid_init(void):&#160;io-context-test.c"
        ∷ place "../io-context-test_8h.html#a53af07c5f86a915fc3d6176cff69464b" true
            "ioc_invalid_init(void):&#160;io-context-test.c"
        ∷ [])
    ∷ datum "ioc_5fvalid_5ffree_192" "ioc_valid_free" (
        place "../io-context-test_8c.html#a0213882099d9d49f968b62d8a383f38d" true
          "ioc_valid_free(void):&#160;io-context-test.c"
        ∷ place "../io-context-test_8h.html#a0213882099d9d49f968b62d8a383f38d" true
            "ioc_valid_free(void):&#160;io-context-test.c"
        ∷ [])
    ∷ datum "is_5fmemory_5fset_5fzero_193" "is_memory_set_zero"
        (place "../tests_2utils_8h.html#a33a90722c98b4511fa452cec394ed4df" true "utils.h" ∷ [])
    ∷ []

abbrev pub functions_9 : List Datum
functions_9 =
    datum "main_194" "main" (
      place "../pingpong-client_8c.html#a0ddf1224851353fc92bfbff6f499fa97" true
        "main(int argc, char *argv[]):&#160;pingpong-client.c"
      ∷ place "../pingpong-server_8c.html#a0ddf1224851353fc92bfbff6f499fa97" true
          "main(int argc, char *argv[]):&#160;pingpong-server.c"
      ∷ place "../echo-client_8c.html#a840291bc02cba5474a4cb46a9b9566fe" true
          "main(void):&#160;echo-client.c"
      ∷ place "../echo-server_8c.html#a840291bc02cba5474a4cb46a9b9566fe" true
          "main(void):&#160;echo-server.c"
      ∷ place "../main-test_8c.html#a840291bc02cba5474a4cb46a9b9566fe" true
          "main(void):&#160;main-test.c"
      ∷ [])
    ∷ datum "main_5fframe_195" "main_frame"
        (place "../Executor_8h.html#a4555b4d314f0e58e2ab7469248843b45" true "Executor.h" ∷ [])
    ∷ datum "manage_5fasync_5ffinish_196" "manage_async_finish"
        (place "../Executor_8h.html#a3d91256b813715285159282a91d48f45" true "Executor.h" ∷ [])
    ∷ datum "move_5fto_5fnext_5fready_5fframe_197" "move_to_next_ready_frame"
        (place "../Executor_8h.html#a09729da0bdaf490fb7b497e7698c96e2" true "Executor.h" ∷ [])
    ∷ datum "msec_5fto_5fts_198" "msec_to_ts"
        (place "../tests_2utils_8h.html#ac6a528009db1023ca1d024dd08b39b79" true "utils.h" ∷ [])
    ∷ []

abbrev pub functions_a : List Datum
functions_a =
    datum "pingpong_5fclient_199" "pingpong_client" (
      place "../pingpong-client_8c.html#a69af613db7b0a32eaa05b2bd13f04113" true "pingpong-client.c"
      ∷ [])
    ∷ datum "pingpong_5fserver_200" "pingpong_server" (
        place "../pingpong-server_8c.html#a379b07c1b1ae1e1eef5d6ac6d0cba68a" true
          "pingpong-server.c"
        ∷ [])
    ∷ datum "process_201" "process" (
        place "../IOContext_8h.html#af84b9183f32b8138167a38027d6f109d" true
          "process(struct IOContext *ioc, size_t batch):&#160;IOContext.c"
        ∷ place "../IOContext_8c.html#af84b9183f32b8138167a38027d6f109d" true
            "process(struct IOContext *ioc, size_t batch):&#160;IOContext.c"
        ∷ [])
    ∷ []
