-- ===== src/Samples/Bindings.antt =====
-- A channel of project "q" is bound, and rebound with its predecessor named.
use mathlib.Core.List.{[], ◌∷◌}
use model_lib.Prelude.{◌≡◌, refl, some, none, String, find_row, exists_row, update_rows}
use model_lib.Text.{strip, is_empty, starts_with}
use model_lib.Tx.{ok, tx_steps}
use model_lib.Json.{Json, obj, str, field, end, sha256_json}
use model_lib.Schema.{Db, empty}
use model_lib.Schema.Rows.{BrowserBinding}
use model_lib.Contract.{new_contract}
use model_lib.Binding.{
  find_binding, insert_binding, update_binding, first_binding, rebound, rebind_existing,
  rebind_block, rebind_browser,
}
use model_lib.Binding.Provenance.{Follows, rebind_browser_lem}
use model_lib.Samples.Printer.{codec}

unfoldable run_bindings : Unit {0}
unfolding tx_steps rebind_browser rebind_block rebind_existing insert_binding update_binding
    find_binding sha256_json strip is_empty starts_with find_row exists_row update_rows
run_bindings = tt

abbrev seen : Json
seen = obj (field "seen" (str "turn 1") end)

abbrev old_url : String
old_url = "https://chatgpt.com/c/1"

abbrev new_url : String
new_url = "https://chatgpt.com/c/2"

abbrev bound : Db
bound = record empty {
  contracts = new_contract codec "q" seen seen ∷ [];
  browser_bindings = first_binding codec "q" "A" "actor" old_url none "start" seen ∷ [];
}

abbrev second : BrowserBinding
second =
    rebound codec "q" "A" "actor" new_url (some old_url) "full" seen
      (first_binding codec "q" "A" "actor" old_url none "start" seen)

rebinds :
    (rebind_browser codec "q" "A" "actor" new_url (some old_url) "full" seen bound).0 ≡ ok second
unfolding run_bindings
rebinds = refl

rebind_browser_lem_example :
    (find_binding "q" "A"
        (rebind_browser codec "q" "A" "actor" new_url (some old_url) "full" seen bound).1
      ≡ some second)
    × Follows (strip "actor") (strip new_url) (some old_url) (find_binding "q" "A" bound) second
rebind_browser_lem_example =
    rebind_browser_lem codec "q" "A" "actor" new_url (some old_url) "full" seen bound rebinds
