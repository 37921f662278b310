-- ===== src/Ccb/Settings/Editing.antt =====
-- Installing the status line into settings that have none, and taking it out again.
use Prim.Native.String.{◌++◌}
use package.text.Mathlib.TextLemmas.{nil-append, cons-append}
use ccbroker.Base.{
  Bool-cases, inl, inr, ℕ, String, ◌==◌, eq_iff, ◌≡◌, refl, sym, ap, ◌∙◌, true, none, some, List,
  [], ◌∷◌, Dict, lookup, insert, erase, codes, contains, begins_with, arith, lookup-insert,
  lookup-insert_self, lookup-erase,
}
use ccbroker.Json.{Value, object, text, text_at, to_dict, of_dict}
use ccbroker.Json.Printing.{lookup-of_dict}
use ccbroker.Ccb.State.{World}
use ccbroker.Ccb.Local.{oauth_str}
use ccbroker.Ccb.Settings.{
  write_settings, target_command, is_ccb_statusline_command, on_edit, off_edit, command_of,
}

begins_with-codes :
    (s t u : String)
    → begins_with (codes (s ++ t)) (codes (s ++ u)) ≡ begins_with (codes t) (codes u)
begins_with-codes String.[] t u = rw (nil-append t, nil-append u) refl
begins_with-codes (String.◌∷◌ c s) t u =
    rw (cons-append c s t, cons-append c s u) (ground (arith, begins_with-codes s t u))

contains-begins_with : (cs ds : List ℕ) → begins_with cs ds ≡ true → contains cs ds ≡ true
unfolding contains
contains-begins_with [] ds h = h
contains-begins_with (c ∷ cs) ds h = ground arith

module _ (w : World) (exe : String) where
  own_command : is_ccb_statusline_command w (target_command exe) exe ≡ true
  unfolding is_ccb_statusline_command
  own_command =
      let found : contains (codes (target_command exe)) (codes (exe ++ " statusline")) ≡ true =
        contains-begins_with _ _ (begins_with-codes exe " statusline --all" " statusline") in
      rw found refl

  abbrev entry : Value
  entry = object (of_dict (("type", text "command") ∷ ("command", text (target_command exe)) ∷ []))

  abbrev after_on : Dict Value → Dict Value
  after_on m = insert "statusLine" entry m

  command-entry : command_of w entry ≡ target_command exe
  unfolding oauth_str text_at lookup to_dict of_dict insert
  command-entry = refl

  off-entry :
      (d : Dict Value)
      → lookup "statusLine" d ≡ some entry
      → off_edit w exe (some d) ≡ write_settings (erase "statusLine" d)
  unfolding off_edit
  off-entry d h = rw (h, command-entry, own_command) refl

  restored :
      (m : Dict Value) (k : String)
      → lookup "statusLine" m ≡ none
      → lookup k (erase "statusLine" (to_dict (of_dict (after_on m)))) ≡ lookup k m
  restored m k h =
      rw
        (
          lookup-erase "statusLine" k (to_dict (of_dict (after_on m))),
          lookup-of_dict k (after_on m),
          lookup-insert "statusLine" k entry m,
        )
        (elim (Bool-cases ("statusLine" == k)) [
          | inl p ↦
              let e : "statusLine" ≡ k = ground (arith, eq_iff "statusLine" k) in
              rw p (sym (ap (λ j. lookup j m) (sym e) ∙ h))
          | inr q ↦ rw q refl
        ])

  -- Settings without a statusLine: `statusline on` writes settings from which, as they are read back,
  -- `statusline off` takes the entry out again, so that every key is as it was at first.
  pub off_edit-on_edit :
      (m : Dict Value)
      → lookup "statusLine" m ≡ none
      → (m' m'' : Dict Value) × (on_edit w exe (some m) ≡ write_settings m')
        × (off_edit w exe (some (to_dict (of_dict m'))) ≡ write_settings m'')
        × ((k : String) → lookup k m'' ≡ lookup k m)
  unfolding on_edit
  off_edit-on_edit m h = (
    after_on m,
    erase "statusLine" (to_dict (of_dict (after_on m))),
    rw h refl,
    off-entry _
        (lookup-of_dict "statusLine" (after_on m) ∙ lookup-insert_self "statusLine" entry m),
    λ k. restored m k h,
  )
