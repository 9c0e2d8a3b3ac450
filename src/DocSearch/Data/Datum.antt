-- ===== src/DocSearch/Data/Datum.antt =====
-- docs/html/search: a row of a table, as the files of results write it.
use Prim.Native.String.{String}
use cring.Prelude.{List, Bool}
use cring.DocSearch.Text.{codes}
use cring.DocSearch.Create.{Place, Datum}

abbrev pub place : (url : String) (in_parent : Bool) (scope : String) → Place
place url in_parent scope = record { url = codes url; in_parent = in_parent; scope = codes scope }

abbrev pub datum : (id name : String) → List Place → Datum
datum id name places = record { id = codes id; name = codes name; places = places }
