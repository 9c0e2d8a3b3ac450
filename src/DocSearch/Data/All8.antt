-- ===== src/DocSearch/Data/All8.antt =====
-- docs/html/search: the tables of all_8.js to all_a.js.
use cring.Prelude.{List, [], ◌∷◌, true}
use cring.DocSearch.Create.{Datum}
use cring.DocSearch.Data.Datum.{datum, place}

abbrev pub all_8 : List Datum
all_8 =
    datum "init_5fexecutor_55" "init_executor" (
      place "../Executor_8h.html#a609695c94a5505e24923a6b08cf9fc1b" true
        "init_executor(struct Executor *executor, size_t count, size_t capacity):&#160;Executor.c"
      ∷ place "../Executor_8c.html#a609695c94a5505e24923a6b08cf9fc1b" true
          "init_executor(struct Executor *executor, size_t count, size_t capacity):&#160;Executor.c"
      ∷ [])
    ∷ datum "init_5fio_5fcontext_56" "init_io_context" (
        place "../IOContext_8h.html#aa02cf56b0f720bb557d3c787d3e8f123" true
          "init_io_context(struct IOContext *ioc, size_t capacity):&#160;IOContext.c"
        ∷ place "../IOContext_8c.html#aa02cf56b0f720bb557d3c787d3e8f123" true
            "init_io_context(struct IOContext *ioc, size_t capacity):&#160;IOContext.c"
        ∷ [])
    ∷ datum "init_5fserver_57" "init_server" (
        place "../pingpong-server_8c.html#ad2d9542dd85c2752302411678f2307c7" true
          "pingpong-server.c"
        ∷ [])
    ∷ datum "io_2dcontext_2dintegration_2dtest_2ec_58" "io-context-integration-test.c"
        (place "../io-context-integration-test_8c.html" true "" ∷ [])
    ∷ datum "io_2dcontext_2dintegration_2dtest_2eh_59" "io-context-integration-test.h"
        (place "../io-context-integration-test_8h.html" true "" ∷ [])
    ∷ datum "io_2dcontext_2dtest_2ec_60" "io-context-test.c"
        (place "../io-context-test_8c.html" true "" ∷ [])
    ∷ datum "io_2dcontext_2dtest_2eh_61" "io-context-test.h"
        (place "../io-context-test_8h.html" true "" ∷ [])
    ∷ datum "ioc_62" "ioc"
        (place "../structExecutor.html#a523c05ea10220bb5b13006a0016410f2" true "Executor" ∷ [])
    ∷ datum "ioc_5fcapacity_5fcheck_63" "ioc_capacity_check" (
        place "../io-context-test_8h.html#a93d913d42f98f1752f32561d27cd6fa4" true
          "ioc_capacity_check(void):&#160;io-context-test.c"
        ∷ place "../io-context-test_8c.html#a93d913d42f98f1752f32561d27cd6fa4" true
            "ioc_capacity_check(void):&#160;io-context-test.c"
        ∷ [])
    ∷ datum "ioc_5fevaluate_5ftokens_64" "ioc_evaluate_tokens" (
        place "../io-context-test_8h.html#a75d24a456ca61dbd83eaff91c3b4aa0b" true
          "ioc_evaluate_tokens(void):&#160;io-context-test.c"
        ∷ place "../io-context-test_8c.html#a75d24a456ca61dbd83eaff91c3b4aa0b" true
            "ioc_evaluate_tokens(void):&#160;io-context-test.c"
        ∷ [])
    ∷ datum "ioc_5finvalid_5ffree_65" "ioc_invalid_free" (
        place "../io-context-test_8c.html#ac8376f159772e8d5fa89d591a9becbea" true
          "ioc_invalid_free(void):&#160;io-context-test.c"
        ∷ place "../io-context-test_8h.html#ac8376f159772e8d5fa89d591a9becbea" true
            "ioc_invalid_free(void):&#160;io-context-test.c"
        ∷ [])
    ∷ datum "ioc_5finvalid_5finit_66" "ioc_invalid_init" (
        place "../io-context-test_8c.html#a53af07c5f86a915fc3d6176cff69464b" true
          "ioc_invalid_init(void):&#160;io-context-test.c"
        ∷ place "../io-context-test_8h.html#a53af07c5f86a915fc3d6176cff69464b" true
            "ioc_invalid_init(void):&#160;io-context-test.c"
        ∷ [])
    ∷ datum "ioc_5fvalid_5ffree_67" "ioc_valid_free" (
        place "../io-context-test_8c.html#a0213882099d9d49f968b62d8a383f38d" true
          "ioc_valid_free(void):&#160;io-context-test.c"
        ∷ place "../io-context-test_8h.html#a0213882099d9d49f968b62d8a383f38d" true
            "ioc_valid_free(void):&#160;io-context-test.c"
        ∷ [])
    ∷ datum "iocontext_68" "IOContext" (place "../structIOContext.html" true "" ∷ [])
    ∷ datum "iocontext_2ec_69" "IOContext.c" (place "../IOContext_8c.html" true "" ∷ [])
    ∷ datum "iocontext_2eh_70" "IOContext.h" (place "../IOContext_8h.html" true "" ∷ [])
    ∷ datum "is_5fmemory_5fset_5fzero_71" "is_memory_set_zero"
        (place "../tests_2utils_8h.html#a33a90722c98b4511fa452cec394ed4df" true "utils.h" ∷ [])
    ∷ datum "is_5fready_72" "is_ready"
        (place "../structFrame.html#a96a6ff4ef2e6bd1e36bd1262eee995b6" true "Frame" ∷ [])
    ∷ []

abbrev pub all_9 : List Datum
all_9 =
    datum "likely_73" "likely"
      (place "../Common_8h.html#a217a0bd562b98ae8c2ffce44935351e1" true "Common.h" ∷ [])
    ∷ datum "log_5fdebug_74" "LOG_DEBUG"
        (place "../Common_8h.html#abd0b0523397fb05f0ed46fc217fb630f" true "Common.h" ∷ [])
    ∷ datum "log_5ferror_75" "LOG_ERROR"
        (place "../Common_8h.html#abffaf9cecb61026cac6db71a16ace9c5" true "Common.h" ∷ [])
    ∷ []

abbrev pub all_a : List Datum
all_a =
    datum "main_76" "main" (
      place "../pingpong-client_8c.html#a0ddf1224851353fc92bfbff6f499fa97" true
        "main(int argc, char *argv[]):&#160;pingpong-client.c"
      ∷ place "../pingpong-server_8c.html#a0ddf1224851353fc92bfbff6f499fa97" true
          "main(int argc, char *argv[]):&#160;pingpong-server.c"
      ∷ place "../echo-client_8c.html#a840291bc02cba5474a4cb46a9b9566fe" true
          "main(void):&#160;echo-client.c"
      ∷ place "../echo-server_8c.html#a840291bc02cba5474a4cb46a9b9566fe" true
          "main(void):&#160;echo-server.c"
      ∷ place "../main-test_8c.html#a840291bc02cba5474a4cb46a9b9566fe" true
          "main(void):&#160;main-test.c"
      ∷ [])
    ∷ datum "main_2dtest_2ec_77" "main-test.c" (place "../main-test_8c.html" true "" ∷ [])
    ∷ datum "main_5fframe_78" "main_frame"
        (place "../Executor_8h.html#a4555b4d314f0e58e2ab7469248843b45" true "Executor.h" ∷ [])
    ∷ datum "manage_5fasync_5ffinish_79" "manage_async_finish"
        (place "../Executor_8h.html#a3d91256b813715285159282a91d48f45" true "Executor.h" ∷ [])
    ∷ datum "max_5fbatch_5fsize_80" "MAX_BATCH_SIZE"
        (place "../IOContext_8h.html#a18373cd65e0761a3bd4e760a8e015baa" true "IOContext.h" ∷ [])
    ∷ datum "maybe_5funused_81" "MAYBE_UNUSED"
        (place "../tests_2utils_8h.html#a07d932791f722cd5b75c111e51ef2023" true "utils.h" ∷ [])
    ∷ datum "message_82" "MESSAGE" (
        place "../io-context-integration-test_8c.html#af8a3e30cb4858ca8a098acae107286c0" true
          "io-context-integration-test.c"
        ∷ [])
    ∷ datum "messages_5fcount_83" "MESSAGES_COUNT" (
        place "../pingpong-client_8c.html#abc728fd454cbe6b4ff99133f8e303cca" true
          "pingpong-client.c"
        ∷ [])
    ∷ datum "move_5fto_5fnext_5fready_5fframe_84" "move_to_next_ready_frame"
        (place "../Executor_8h.html#a09729da0bdaf490fb7b497e7698c96e2" true "Executor.h" ∷ [])
    ∷ datum "msec_5fto_5fts_85" "msec_to_ts"
        (place "../tests_2utils_8h.html#ac6a528009db1023ca1d024dd08b39b79" true "utils.h" ∷ [])
    ∷ []
