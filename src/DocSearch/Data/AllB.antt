-- ===== src/DocSearch/Data/AllB.antt =====
-- docs/html/search: the tables of all_b.js to all_c.js.
use cring.Prelude.{List, [], ◌∷◌, true}
use cring.DocSearch.Create.{Datum}
use cring.DocSearch.Data.Datum.{datum, place}

abbrev pub all_b : List Datum
all_b =
    datum "packet_5fsize_86" "PACKET_SIZE" (
      place "../pingpong-client_8c.html#aebdc7d8ca8e25ed8efc90bb88ef7ef5b" true
        "PACKET_SIZE():&#160;pingpong-client.c"
      ∷ place "../pingpong-server_8c.html#aebdc7d8ca8e25ed8efc90bb88ef7ef5b" true
          "PACKET_SIZE():&#160;pingpong-server.c"
      ∷ place "../echo-client_8c.html#aebdc7d8ca8e25ed8efc90bb88ef7ef5b" true
          "PACKET_SIZE():&#160;echo-client.c"
      ∷ place "../echo-server_8c.html#aebdc7d8ca8e25ed8efc90bb88ef7ef5b" true
          "PACKET_SIZE():&#160;echo-server.c"
      ∷ place "../io-context-integration-test_8c.html#aebdc7d8ca8e25ed8efc90bb88ef7ef5b" true
          "PACKET_SIZE():&#160;io-context-integration-test.c"
      ∷ [])
    ∷ datum "pingpong_2dclient_2ec_87" "pingpong-client.c"
        (place "../pingpong-client_8c.html" true "" ∷ [])
    ∷ datum "pingpong_2dserver_2ec_88" "pingpong-server.c"
        (place "../pingpong-server_8c.html" true "" ∷ [])
    ∷ datum "pingpong_5fclient_89" "pingpong_client" (
        place "../pingpong-client_8c.html#a69af613db7b0a32eaa05b2bd13f04113" true
          "pingpong-client.c"
        ∷ [])
    ∷ datum "pingpong_5fserver_90" "pingpong_server" (
        place "../pingpong-server_8c.html#a379b07c1b1ae1e1eef5d6ac6d0cba68a" true
          "pingpong-server.c"
        ∷ [])
    ∷ datum "port_91" "port" (
        place "../pingpong-client_8c.html#a63c89c04d1feae07ca35558055155ffb" true
          "pingpong-client.c"
        ∷ [])
    ∷ datum "process_92" "process" (
        place "../IOContext_8h.html#af84b9183f32b8138167a38027d6f109d" true
          "process(struct IOContext *ioc, size_t batch):&#160;IOContext.c"
        ∷ place "../IOContext_8c.html#af84b9183f32b8138167a38027d6f109d" true
            "process(struct IOContext *ioc, size_t batch):&#160;IOContext.c"
        ∷ [])
    ∷ []

abbrev pub all_c : List Datum
all_c =
    datum "qps_93" "qps" (
      place "../pingpong-client_8c.html#a55d46d8bd362494f7b32d1c94497f341" true "pingpong-client.c"
      ∷ [])
    ∷ []
