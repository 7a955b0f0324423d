-- ===== src/I18n/Tests.antt =====
-- Texts of both languages, and the theorems at concrete inputs.
use antimoney.Prelude.{◌≡◌, ◌≢◌, refl, ◌⊎◌, String, none, some}
use antimoney.I18n.{en, pt_br, Settings, english, portuguese, dictionary, lookup, translate}
use antimoney.I18n.Complete.{translate_lem}

abbrev brazilian : Settings
brazilian = record { current = pt_br; stored = none }

in_portuguese : translate brazilian "plaid.cancel" ≡ "Cancelar"
unfolding translate lookup english portuguese
in_portuguese = refl

falls_back :
    translate brazilian "form.save" ≡ translate (record { current = en; stored = none }) "form.save"
unfolding translate lookup english portuguese
falls_back = refl

english_cancel : lookup "plaid.cancel" english ≡ some "Cancel"
unfolding lookup english
english_cancel = refl

translate_lem_example :
    (lookup "plaid.cancel" english ≡ none → translate brazilian "plaid.cancel" ≡ "plaid.cancel")
    × ((text : String)
        → lookup "plaid.cancel" english ≡ some text
        → (translate brazilian "plaid.cancel" ≢ "")
          × ((translate brazilian "plaid.cancel" ≡ text)
              ⊎ (lookup "plaid.cancel" (dictionary pt_br)
                  ≡ some (translate brazilian "plaid.cancel"))))
translate_lem_example = translate_lem brazilian "plaid.cancel"
