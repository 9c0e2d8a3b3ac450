-- ===== src/DocSearch/Data/Variables.antt =====
-- docs/html/search: the tables of variables_0.js to variables_b.js.
use cring.Prelude.{List, [], ◌∷◌, true}
use cring.DocSearch.Create.{Datum}
use cring.DocSearch.Data.Datum.{datum, place}

abbrev pub variables_0 : List Datum
variables_0 =
    datum "_5f_5fattribute_5f_5f_222" "__attribute__"
      (place "../IOContext_8h.html#aef141bdd4f363cf76d1025caa5116639" true "IOContext.h" ∷ [])
    ∷ []

abbrev pub variables_1 : List Datum
variables_1 =
    datum "address_223" "address" (
      place "../pingpong-client_8c.html#a879a8cdf605d02f8af8b2e216b8764f2" true "pingpong-client.c"
      ∷ [])
    ∷ datum "available_5ftokens_224" "available_tokens"
        (place "../structIOContext.html#a25ae55419ed66e3f0c7174aa55be0703" true "IOContext" ∷ [])
    ∷ []

abbrev pub variables_2 : List Datum
variables_2 =
    datum "capacity_225" "capacity" (
      place "../structExecutor.html#ac198298caef9de2ee8a0469ae01ef161" true "Executor::capacity()"
      ∷ place "../structIOContext.html#a1b65618cc6a2e9f70dd7ba3e463f862c" true
          "IOContext::capacity()"
      ∷ [])
    ∷ datum "cb_226" "cb" (
        place "../structToken.html#a65ffd443d2cbc57fcf3492a3dd48c56c" true "Token::cb()"
        ∷ place "../IOContext_8h.html#a5888fb0fe86612c736032508120d599e" true
            "cb():&#160;IOContext.h"
        ∷ [])
    ∷ datum "connections_227" "connections" (
        place "../pingpong-client_8c.html#a0ba17441c382732ee4172abce4f7b31c" true
          "pingpong-client.c"
        ∷ [])
    ∷ datum "core_228" "core"
        (place "../structThreadInfo.html#ad1a32eb4a2285cb14a17b5b01a2336f9" true "ThreadInfo" ∷ [])
    ∷ datum "current_229" "current"
        (place "../structExecutor.html#af744883d03cd52d05abb8b5717b8f1db" true "Executor" ∷ [])
    ∷ []

abbrev pub variables_3 : List Datum
variables_3 =
    datum "data_230" "data" (
      place "../structToken.html#ae884e57b58008a19fd4080e93f8f4beb" true "Token::data()"
      ∷ place "../IOContext_8h.html#a735984d41155bc1032e09bece8f8d66d" true
          "data():&#160;IOContext.h"
      ∷ [])
    ∷ []

abbrev pub variables_4 : List Datum
variables_4 =
    datum "exe_231" "exe"
      (place "../structFrame.html#a7e19c4df48b66a86a3a18e22d2321e43" true "Frame" ∷ [])
    ∷ []

abbrev pub variables_5 : List Datum
variables_5 =
    datum "fd_232" "fd" (
      place "../structToken.html#a5e2b8730f7045e78147c1234173f34ed" true "Token::fd()"
      ∷ place "../IOContext_8h.html#a6f8059414f0228f0256115e024eeed4b" true "fd():&#160;IOContext.h"
      ∷ [])
    ∷ datum "frames_233" "frames"
        (place "../structExecutor.html#a630ff91cd43b8ca1cd04cecdb2ecc51d" true "Executor" ∷ [])
    ∷ []

abbrev pub variables_6 : List Datum
variables_6 =
    datum "ioc_234" "ioc"
      (place "../structExecutor.html#a523c05ea10220bb5b13006a0016410f2" true "Executor" ∷ [])
    ∷ datum "is_5fready_235" "is_ready"
        (place "../structFrame.html#a96a6ff4ef2e6bd1e36bd1262eee995b6" true "Frame" ∷ [])
    ∷ []

abbrev pub variables_7 : List Datum
variables_7 =
    datum "port_236" "port" (
      place "../pingpong-client_8c.html#a63c89c04d1feae07ca35558055155ffb" true "pingpong-client.c"
      ∷ [])
    ∷ []

abbrev pub variables_8 : List Datum
variables_8 =
    datum "qps_237" "qps" (
      place "../pingpong-client_8c.html#a55d46d8bd362494f7b32d1c94497f341" true "pingpong-client.c"
      ∷ [])
    ∷ []

abbrev pub variables_9 : List Datum
variables_9 =
    datum "result_238" "result"
      (place "../structFrame.html#ad0e18281b3b171a0ca321cffd0b2661f" true "Frame" ∷ [])
    ∷ datum "ring_239" "ring"
        (place "../structIOContext.html#ac4c47d1e17133270eb3929413764b29a" true "IOContext" ∷ [])
    ∷ []

abbrev pub variables_a : List Datum
variables_a =
    datum "server_5ffd_240" "server_fd" (
      place "../pingpong-server_8c.html#a6cf4711aa7ecd548b03b6e50d44b5aa6" true "pingpong-server.c"
      ∷ [])
    ∷ datum "size_241" "size"
        (place "../structExecutor.html#a358125b73f8869d02d5308279edbc0c8" true "Executor" ∷ [])
    ∷ []

abbrev pub variables_b : List Datum
variables_b =
    datum "tail_242" "tail"
      (place "../structIOContext.html#a99aff6c32b697270cdc944a679259517" true "IOContext" ∷ [])
    ∷ datum "threads_243" "threads" (
        place "../pingpong-client_8c.html#a4f987a98d3e1221916748962e45399fe" true
          "pingpong-client.c"
        ∷ [])
    ∷ datum "type_244" "type" (
        place "../structToken.html#a9993ccba27a7e6c30c11cfed7d96cb20" true "Token::type()"
        ∷ place "../IOContext_8h.html#ae024bc940c106f2a0bbf7b7163629495" true
            "type():&#160;IOContext.h"
        ∷ [])
    ∷ []
