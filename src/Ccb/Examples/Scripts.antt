-- ===== src/Ccb/Examples/Scripts.antt =====
-- A short script, with and without the marker block.
use ccbroker.Json.{Value, text, to_dict, of_dict}
use ccbroker.Ccb.Settings.{on_edit, off_edit, write_settings}
use ccbroker.Ccb.Settings.Editing.{off_edit-on_edit}
use ccbroker.Ccb.Examples.{world}
use ccbroker.Base.{String, Dict, lookup, some, ◌∷◌, [], ℕ, ◌≡◌, refl, true, none, List, codes, inl}
use ccbroker.Ccb.Script.{marker_begin, index, block_upsert, block_remove}
use ccbroker.Ccb.Script.Block.{block_remove-block_upsert, block_upsert_again}

abbrev script : List ℕ
script = codes "#!/bin/sh\necho hi\n"

script-plain : index marker_begin script ≡ none
script-plain = refl

block_remove-block_upsert_example : block_remove (block_upsert script) ≡ (script, true)
block_remove-block_upsert_example = block_remove-block_upsert script script-plain

block_upsert_again_example : block_upsert (block_upsert script) ≡ block_upsert script
block_upsert_again_example = block_upsert_again script (inl script-plain)

abbrev settings : Dict Value
settings = ("theme", text "dark") ∷ []

no-status_line : lookup "statusLine" settings ≡ none
unfolding lookup
no-status_line = refl

off_edit-on_edit_example :
    (m' m'' : Dict Value) × (on_edit world "/bin/ccb" (some settings) ≡ write_settings m')
    × (off_edit world "/bin/ccb" (some (to_dict (of_dict m'))) ≡ write_settings m'')
    × ((k : String) → lookup k m'' ≡ lookup k settings)
off_edit-on_edit_example = off_edit-on_edit world "/bin/ccb" settings no-status_line
