-- ===== src/Term/Machine/Settings.antt =====
-- Saving and restoring the settings of this emulator.
use yterm.Prelude.{
  ℕ, ◌+◌, ◌≡◌, refl, Bool, true, false, ℤ, pos, negsuc, ltb_ℤ, if◌then◌else◌, ap, ◌∙◌,
}
use yterm.Term.{Term}
use yterm.Term.Yterm.{has_bit, save_values, restore_values}

-- An `escesc` as it is compared: negative, zero or positive.
abbrev pub sign : ℤ → ℤ
sign z = if ltb_ℤ z (pos 0) then negsuc 0 else if ltb_ℤ (pos 0) z then pos 1 else pos 0

-- What `save_values` makes of the two settings, and `restore_values` of that.
abbrev saved : Bool → Bool → Bool → ℕ
saved b neg over =
    0x01 + (if b then 0x02 else 0) + 0x04 + (if neg then 0x08 else if over then 0x10 else 0)

abbrev restored_mods : ℕ → Bool → Bool
restored_mods v b = if has_bit v 0x01 then has_bit v 0x02 else b

abbrev restored_esc : ℕ → ℤ → ℤ
restored_esc v z =
    if has_bit v 0x04
    then if has_bit v 0x08 then negsuc 0 else if has_bit v 0x10 then pos 1 else pos 0
    else z

restored :
    (b neg over : Bool) (b' : Bool) (z' : ℤ)
    → (restored_mods (saved b neg over) b' ≡ b)
      × (restored_esc (saved b neg over) z'
          ≡ (if neg then negsuc 0 else if over then pos 1 else pos 0))
restored true true true b' z' = (refl, refl)
restored true true false b' z' = (refl, refl)
restored true false true b' z' = (refl, refl)
restored true false false b' z' = (refl, refl)
restored false true true b' z' = (refl, refl)
restored false true false b' z' = (refl, refl)
restored false false true b' z' = (refl, refl)
restored false false false b' z' = (refl, refl)

-- Code 142 restores in any later terminal `t'` that still has the saved values what the terminal `t`
-- had when they were saved: the report of modifiers, and the sign of `escesc`. The saved values are
-- used up.
pub restore_values-save_values :
    (t t' : Term)
    → t'.saved_values ≡ (save_values t).saved_values
    → ((restore_values t').report_mods ≡ t.report_mods)
      × ((restore_values t').escesc ≡ sign t.escesc)
      × ((restore_values t').saved_values ≡ 0)
unfolding save_values restore_values
restore_values-save_values t t' e =
    let r =
      restored t.report_mods (ltb_ℤ t.escesc (pos 0)) (ltb_ℤ (pos 0) t.escesc) t'.report_mods
        t'.escesc in
    (
      ap (λ (v : ℕ). restored_mods v t'.report_mods) e ∙ r.0,
      ap (λ (v : ℕ). restored_esc v t'.escesc) e ∙ r.1,
      refl,
    )
