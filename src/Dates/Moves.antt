-- ===== src/Dates/Moves.antt =====
-- Moving a date forth and back.
use antimoney.Prelude.{
  ◌≡◌, ◌≢◌, refl, ap, ◌∙◌, ◌==◌, eq_iff, Bool, true, false, String, some, Bool-cases, inl, inr,
}
use antimoney.Prelude.Int.{ℤ, ◌+ℤ◌, int_laws}
use antimoney.Dates.{KeyPress, Calendar, handle_date_shortcut, date_or_today, days, moved}

abbrev pub press : String → Bool → KeyPress
press key shift = record { key = key; shift_key = shift }

forth_back : (d : ℤ) (shift : Bool) → d +ℤ days (press "+" shift) +ℤ days (press "-" shift) ≡ d
forth_back d true = omega int_laws
forth_back d false = omega int_laws

module _ (c : Calendar) where
  date_or_today-shown : (today value : String) → value ≢ "" → date_or_today today value ≡ value
  date_or_today-shown today value h = elim (Bool-cases (value == "")) [
    | inl blank ↦ absurd (h ((eq_iff value "").0 blank))
    | inr full ↦ rw full refl
  ]

  -- On a text that is a date, `+` and then `-`, both with or both without Shift, give the text of
  -- the same day, where the text of the day between them is not empty and is read as that day.
  handle_date_shortcut_forth_back :
      (today value : String) (shift : Bool) (d : ℤ)
      → let between = d +ℤ days (press "+" shift) in
        c.day_of (date_or_today today value) ≡ some d
        → c.day_of (c.text_of between) ≡ some between
        → c.text_of between ≢ ""
        → (handle_date_shortcut c today (press "+" shift) value ≡ some (c.text_of between))
          × (handle_date_shortcut c today (press "-" shift) (c.text_of between)
              ≡ some (c.text_of d))
  unfolding handle_date_shortcut
  handle_date_shortcut_forth_back today value shift d h reads shown =
      let between = d +ℤ days (press "+" shift) in
      (
        rw h refl,
        ap (λ v. moved c (c.day_of v) (days (press "-" shift)))
              (date_or_today-shown today (c.text_of between) shown)
            ∙ ap (λ o. moved c o (days (press "-" shift))) reads
            ∙ ap (λ x. some (c.text_of x)) (forth_back d shift),
      )
