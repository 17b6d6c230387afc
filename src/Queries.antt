-- ===== src/Queries.antt =====
-- internal/memgraph/queries.go: the texts of the queries. Go's `%q`, which quotes an address and whose
-- table of characters is package `strconv`'s, is a parameter, `quote`.
pub mod Literals
use Prim.Native.Char.{Char, code}
use Prim.Native.String.{String, [], ◌∷◌, ◌++◌}
use mathlib.Core.List as L
use kubernetes_operator.Prelude.{ℕ, Bool, true, false, ◌||◌, eqb, if◌then◌else◌}
use kubernetes_operator.Prelude.Decimal.{decimal}
use kubernetes_operator.Memgraph.{CoordinatorSpec, DataInstanceSpec}

abbrev pub is_quote : Char → Bool
is_quote c = eqb (code c) 34

abbrev pub is_backslash : Char → Bool
is_backslash c = eqb (code c) 92

-- `strings.NewReplacer` of a backslash by two, and of a quote by a backslash and a quote.
unfoldable pub escaped : String → String
escaped [] = []
escaped (c ∷ s) =
    let rest = escaped s in
    if is_backslash c then c ∷ c ∷ rest else if is_quote c then "\\" ∷ c ∷ rest else c ∷ rest

-- `cypherString`
unfoldable pub cypher_string : String → String
unfolding escaped
cypher_string s = "\"" ++ (escaped s ++ "\"")

-- `setSettingQuery` and `setCoordinatorSettingQuery`
unfoldable pub set_setting_query : String → String → String
unfolding cypher_string
set_setting_query name value =
    "SET DATABASE SETTING " ++ (cypher_string name ++ (" TO " ++ cypher_string value))

unfoldable pub set_coordinator_setting_query : String → String → String
unfolding cypher_string
set_coordinator_setting_query name value =
    "SET COORDINATOR SETTING " ++ (cypher_string name ++ (" TO " ++ cypher_string value))

-- `addCoordinatorQuery` and `registerInstanceQuery`
unfoldable pub add_coordinator_query : (String → String) → CoordinatorSpec → String
unfolding decimal
add_coordinator_query quote c =
    "ADD COORDINATOR "
    ++ (decimal c.id
        ++ (" WITH CONFIG {\"bolt_server\": "
            ++ (quote c.bolt_server
                ++ (", \"coordinator_server\": "
                    ++ (quote c.coordinator_server
                        ++ (", \"management_server\": " ++ (quote c.management_server ++ "}")))))))

unfoldable pub register_instance_query : (String → String) → DataInstanceSpec → String
register_instance_query quote d =
    "REGISTER INSTANCE "
    ++ (d.name
        ++ (" WITH CONFIG {\"bolt_server\": "
            ++ (quote d.bolt_server
                ++ (", \"management_server\": "
                    ++ (quote d.management_server
                        ++ (", \"replication_server\": "
                            ++ (quote d.replication_server ++ "}")))))))

-- `updateCoordinatorBoltServerQuery` and `updateInstanceBoltServerQuery`
unfoldable pub update_coordinator_bolt_server_query : (String → String) → ℕ → String → String
unfolding decimal
update_coordinator_bolt_server_query quote id bolt_server =
    "UPDATE CONFIG FOR COORDINATOR "
    ++ (decimal id ++ (" {\"bolt_server\": " ++ (quote bolt_server ++ "}")))

unfoldable pub update_instance_bolt_server_query : (String → String) → String → String → String
update_instance_bolt_server_query quote name bolt_server =
    "UPDATE CONFIG FOR INSTANCE " ++ (name ++ (" {\"bolt_server\": " ++ (quote bolt_server ++ "}")))

unfoldable pub set_instance_to_main_query : String → String
set_instance_to_main_query name = "SET INSTANCE " ++ (name ++ " TO MAIN")

unfoldable pub demote_instance_query : String → String
demote_instance_query name = "DEMOTE INSTANCE " ++ name

unfoldable pub unregister_instance_query : String → String
unregister_instance_query name = "UNREGISTER INSTANCE " ++ name

unfoldable pub remove_coordinator_query : ℕ → String
unfolding decimal
remove_coordinator_query id = "REMOVE COORDINATOR " ++ decimal id
