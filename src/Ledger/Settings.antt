-- ===== src/Ledger/Settings.antt =====
-- OrgService.effective_setting (apps/api/src/flo/modules/org/service.py): the nearest override of a
-- setting, from a unit up its ancestors, then the organization's, then the default.
use mathlib.Core.Path.{ap₂}
use xlr8_flo.Common.{
  ◌≡◌, ℕ, zero, suc, String, Bool, false, ◌&&◌, Option, none, some, List, ◌==◌, find,
}
use xlr8_flo.Common.Equality.{◌===◌, String_eq, Option_eq, ℕ_eq}
use xlr8_flo.Common.Problems.{not_found, Result, ok, err}
use xlr8_flo.Ledger.Tables.{Db, OrgUnit, OrgSetting, JsonValue, bool, text}

-- SETTING_DEFAULTS of apps/api/src/flo/modules/org/settings.py, for the keys that budget reads.
pub data SettingKey : Type 0 where
  allow_negative_budget evidence_required funding_mode : SettingKey

abbrev pub key_name : SettingKey → String
key_name allow_negative_budget = "allow_negative_budget"
key_name evidence_required = "budget.evidence_required"
key_name funding_mode = "funding_mode"

abbrev pub setting_default : SettingKey → JsonValue
setting_default allow_negative_budget = bool false
setting_default evidence_required = bool false
setting_default funding_mode = text "roll_down"

unfoldable pub override_at : Option ℕ → SettingKey → List OrgSetting → Option JsonValue
override_at unit key settings =
    elim (find (λ s. s.unit_id === unit && s.key === key_name key) settings) [
      | none ↦ none
      | some s ↦ some s.value
    ]

-- The override of the nearest of a unit and its ancestors; `levels` bounds the walk.
unfoldable pub nearest : ℕ → SettingKey → List OrgUnit → List OrgSetting → ℕ → Option JsonValue
nearest zero key units settings unit = none
nearest (suc levels) key units settings unit = elim (override_at (some unit) key settings) [
  | some v ↦ some v
  | none ↦ elim (find (λ u. u.id == unit) units) [
    | none ↦ none
    | some u ↦ elim u.parent_id [
      | none ↦ none
      | some parent ↦ nearest levels key units settings parent
    ]
  ]
]

-- The organization's row is a candidate at distance 6, so six levels of units come before it.
unfoldable pub setting_in : ℕ → SettingKey → List OrgUnit → List OrgSetting → Result JsonValue
unfolding override_at nearest
setting_in unit key units settings = elim (find (λ u. u.id == unit) units) [
  | none ↦ err not_found
  | some _ ↦ elim (nearest 6 key units settings unit) [
    | some v ↦ ok v
    | none ↦ elim (override_at none key settings) [
      | some v ↦ ok v
      | none ↦ ok (setting_default key)
    ]
  ]
]

unfoldable pub effective_setting : ℕ → SettingKey → Db → Result JsonValue
unfolding setting_in
effective_setting unit key db = setting_in unit key db.units db.settings

-- The setting depends on the units and the settings alone.
pub effective_setting-same :
    (unit : ℕ) (key : SettingKey) (db db' : Db)
    → db'.units ≡ db.units
    → db'.settings ≡ db.settings
    → effective_setting unit key db' ≡ effective_setting unit key db
unfolding effective_setting
effective_setting-same unit key db db' u s = ap₂ (setting_in unit key) u s

-- `….value is True`
abbrev pub is_true : JsonValue → Bool
is_true (bool b) = b
is_true _ = false
