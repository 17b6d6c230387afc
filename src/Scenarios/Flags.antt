-- ===== src/Scenarios/Flags.antt =====
-- Settings that a spec changes.
use Prim.Native.String.{◌++◌}
use kubernetes_operator.Prelude.{String, ◌≡◌, ◌≢◌, ◌↔◌, refl, sym, subst, some, [], ◌∷◌, In}
use kubernetes_operator.Prelude.Map.{Map, lookup, insert}
use kubernetes_operator.Prelude.Ranges.{Entries, IsRange, one_entry-IsRange}
use kubernetes_operator.Settings.{desired_settings, plan, setting, add_setting, runtime_settings}
use kubernetes_operator.Settings.Plans.{settings_plan_iff}
use kubernetes_operator.Settings.Spelling.{normalize, trim_dashes, underscored}
use kubernetes_operator.Queries.{cypher_string}
use kubernetes_operator.Queries.Literals.{read_literal, read-cypher_string}

abbrev wanted : Map String
wanted = ("log.level", "TRACE") ∷ []

abbrev flags : Entries String
flags = ("--log-level", "TRACE") ∷ []

abbrev in_order : Map String → Entries String
in_order m = m

abbrev reported : Map String
reported = ("log.level", "INFO") ∷ []

whole : IsRange wanted wanted
whole = one_entry-IsRange "log.level" "TRACE"

made : desired_settings flags [] ≡ wanted
unfolding desired_settings add_setting setting runtime_settings normalize trim_dashes underscored
    lookup insert
made = refl

settings_plan_iff_example :
    In (record { setting = "log.level"; value = "TRACE" }) (plan in_order flags reported) ↔ (
      ((flag : String) × In (flag, "TRACE") flags × (setting flag ≡ some "log.level"))
      × (lookup "log.level" reported ≢ some "TRACE"))
settings_plan_iff_example =
    settings_plan_iff in_order flags reported (record { setting = "log.level"; value = "TRACE" })
      (subst (λ m. IsRange m m) (sym made) whole) ((λ e i. absurd i), tt)

read-cypher_string_example : read_literal (cypher_string "a\"b" ++ " TO") ≡ some ("a\"b", " TO")
read-cypher_string_example = read-cypher_string "a\"b" " TO"
