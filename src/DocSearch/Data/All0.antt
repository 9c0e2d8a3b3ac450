-- ===== src/DocSearch/Data/All0.antt =====
-- docs/html/search: the tables of all_0.js to all_4.js.
use cring.Prelude.{List, [], ◌∷◌, true}
use cring.DocSearch.Create.{Datum}
use cring.DocSearch.Data.Datum.{datum, place}

abbrev pub all_0 : List Datum
all_0 =
    datum "_5f_5fattribute_5f_5f_0" "__attribute__" (
      place "../IOContext_8h.html#aef141bdd4f363cf76d1025caa5116639" true
        "__attribute__():&#160;IOContext.h"
      ∷ place "../IOContext_8h.html#af865719cf768fc147b69a16d4db91c8e" true
          "__attribute__((packed)):&#160;IOContext.h"
      ∷ [])
    ∷ datum "_5fgnu_5fsource_1" "_GNU_SOURCE" (
        place "../pingpong-server_8c.html#a369266c24eacffb87046522897a570d5" true
          "pingpong-server.c"
        ∷ [])
    ∷ []

abbrev pub all_1 : List Datum
all_1 =
    datum "accept_2" "ACCEPT" (
      place
        "../IOContext_8h.html#ae10b07f2d0feb103db7fe4cfd192e5afa5707b7b8bf1b098d620552e9576d8061"
        true "IOContext.h"
      ∷ [])
    ∷ datum "accept_5fcb_3" "accept_cb"
        (place "../IOContext_8h.html#a1d8b5c78274b20d9a5b29d415a0b30b6" true "IOContext.h" ∷ [])
    ∷ datum "accept_5ffn_4" "accept_fn" (
        place "../Executor_8h.html#a80cacd42cbda4c749c6f03976dd3f015" true
          "accept_fn(int fd, void *data):&#160;Executor.c"
        ∷ place "../Executor_8c.html#a80cacd42cbda4c749c6f03976dd3f015" true
            "accept_fn(int fd, void *data):&#160;Executor.c"
        ∷ [])
    ∷ datum "address_5" "address" (
        place "../pingpong-client_8c.html#a879a8cdf605d02f8af8b2e216b8764f2" true
          "pingpong-client.c"
        ∷ [])
    ∷ datum "align32pow2_6" "align32pow2"
        (place "../Common_8h.html#a3919466116f3e3201ee4d982cde797c1" true "Common.h" ∷ [])
    ∷ datum "align64pow2_7" "align64pow2"
        (place "../Common_8h.html#a22f9ba4d0b088a4f0ae03e1e10c75e78" true "Common.h" ∷ [])
    ∷ datum "async_5faccept_8" "async_accept"
        (place "../Executor_8h.html#a5b470335526bd6fac7e9a07b1253f492" true "Executor.h" ∷ [])
    ∷ datum "async_5fexec_9" "async_exec" (
        place "../Executor_8h.html#a2ed29df4c37bbb8d77979d88b0cce9b8" true
          "async_exec(struct Executor *executor, Func fn, void *data):&#160;Executor.c"
        ∷ place "../Executor_8c.html#a2ed29df4c37bbb8d77979d88b0cce9b8" true
            "async_exec(struct Executor *executor, Func fn, void *data):&#160;Executor.c"
        ∷ [])
    ∷ datum "async_5fread_10" "async_read"
        (place "../Executor_8h.html#ae1d2e7a866535d60cd9fe8bce1f0643d" true "Executor.h" ∷ [])
    ∷ datum "async_5fwait_11" "async_wait"
        (place "../Executor_8h.html#adfa1a96dd99234a6ca65764dfb02e905" true "Executor.h" ∷ [])
    ∷ datum "async_5fwrite_12" "async_write"
        (place "../Executor_8h.html#a6de4bb7573b224457dea7b43f44cbbda" true "Executor.h" ∷ [])
    ∷ datum "available_5ftokens_13" "available_tokens"
        (place "../structIOContext.html#a25ae55419ed66e3f0c7174aa55be0703" true "IOContext" ∷ [])
    ∷ []

abbrev pub all_2 : List Datum
all_2 =
    datum "batch_5fsize_14" "BATCH_SIZE"
      (place "../Executor_8h.html#a9ae2958e436c566413867028fc829ec0" true "Executor.h" ∷ [])
    ∷ datum "bind_5fcpu_15" "bind_cpu" (
        place "../pingpong-server_8c.html#af8b4bb1ceb4cb3c9b45a501c8b1831a2" true
          "pingpong-server.c"
        ∷ [])
    ∷ datum "bind_5fto_16" "bind_to"
        (place "../tests_2utils_8h.html#a687674819d07dc1787d5737a87eb925c" true "utils.h" ∷ [])
    ∷ []

abbrev pub all_3 : List Datum
all_3 =
    datum "capacity_17" "capacity" (
      place "../structExecutor.html#ac198298caef9de2ee8a0469ae01ef161" true "Executor::capacity()"
      ∷ place "../structIOContext.html#a1b65618cc6a2e9f70dd7ba3e463f862c" true
          "IOContext::capacity()"
      ∷ [])
    ∷ datum "cb_18" "cb" (
        place "../structToken.html#a65ffd443d2cbc57fcf3492a3dd48c56c" true "Token::cb()"
        ∷ place "../IOContext_8h.html#a5888fb0fe86612c736032508120d599e" true
            "cb():&#160;IOContext.h"
        ∷ [])
    ∷ datum "cb_19" "Cb"
        (place "../IOContext_8h.html#ac30daa79b7e242358c92c90b0510c1e9" true "IOContext.h" ∷ [])
    ∷ datum "check_5felapced_5ftime_5fmsec_20" "check_elapced_time_msec"
        (place "../tests_2utils_8h.html#aca6088d22de68219f5b65d19c3bed168" true "utils.h" ∷ [])
    ∷ datum "client_5fhandler_21" "client_handler" (
        place "../pingpong-server_8c.html#ac2771343f61b7065e14b1d61de92f6c6" true
          "client_handler(struct Executor *executor, void *data):&#160;pingpong-server.c"
        ∷ place "../echo-server_8c.html#ac2771343f61b7065e14b1d61de92f6c6" true
            "client_handler(struct Executor *executor, void *data):&#160;echo-server.c"
        ∷ [])
    ∷ datum "client_5fno_22" "CLIENT_NO"
        (place "../echo-client_8c.html#a5b5b3f223a5d0f89db3699861a56e312" true "echo-client.c" ∷ [])
    ∷ datum "common_2eh_23" "Common.h" (place "../Common_8h.html" true "" ∷ [])
    ∷ datum "connect_5fto_5fserver_24" "connect_to_server" (
        place "../benchmarks_2utils_8h.html#af0698ca484f33252295b384563269ff9" true
          "connect_to_server(const char *addr, int port):&#160;utils.h"
        ∷ place "../examples_2utils_8h.html#af0698ca484f33252295b384563269ff9" true
            "connect_to_server(const char *addr, int port):&#160;utils.h"
        ∷ [])
    ∷ datum "connections_25" "connections" (
        place "../pingpong-client_8c.html#a0ba17441c382732ee4172abce4f7b31c" true
          "pingpong-client.c"
        ∷ [])
    ∷ datum "core_26" "core"
        (place "../structThreadInfo.html#ad1a32eb4a2285cb14a17b5b01a2336f9" true "ThreadInfo" ∷ [])
    ∷ datum "cring_27" "Cring" (place "../md_README.html" true "" ∷ [])
    ∷ datum "current_28" "current"
        (place "../structExecutor.html#af744883d03cd52d05abb8b5717b8f1db" true "Executor" ∷ [])
    ∷ []

abbrev pub all_4 : List Datum
all_4 =
    datum "data_29" "data" (
      place "../structToken.html#ae884e57b58008a19fd4080e93f8f4beb" true "Token::data()"
      ∷ place "../IOContext_8h.html#a735984d41155bc1032e09bece8f8d66d" true
          "data():&#160;IOContext.h"
      ∷ [])
    ∷ datum "do_5fwrite_30" "do_write" (
        place "../io-context-integration-test_8c.html#a634481ed95f1a0a68fe827f65cc758da" true
          "io-context-integration-test.c"
        ∷ [])
    ∷ []
