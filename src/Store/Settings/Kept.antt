-- ===== src/Store/Settings/Kept.antt =====
-- A setting that is stored is read back, and the others stay.
use test_analyst_agent.Common.{
  ℕ, String, ◌≡◌, refl, sym, ap, some, List, [], str_eq, if◌then◌else◌, find, find-upsert, upsert,
  is_blank, arith, inl, inr, Bool-cases,
}
use test_analyst_agent.Store.Rows.{Store, Setting, Outcome, done, raised}
use test_analyst_agent.Store.Journal.{write}
use test_analyst_agent.Store.Settings.{setting, setting_key, set_setting, setting_row}

abbrev settings_of : Outcome Store → List Setting
settings_of (done s) = s.settings
settings_of (raised e) = []

set_setting-rows :
    (key value by reason : String) (now : ℕ) (s s' : Store)
    → set_setting key value by reason now s ≡ done s'
    → s'.settings ≡ upsert setting_key (setting_row key value by reason now) s.settings
unfolding set_setting write
set_setting-rows key value by reason now s s' h = elim (Bool-cases (is_blank reason)) [
  | inl e ↦ absurd (ground (arith, rw e at h))
  | inr e ↦ sym (ap settings_of (rw e at h))
]

pub find-set_setting :
    (key value by reason : String) (now : ℕ) (j : String) (s s' : Store)
    → set_setting key value by reason now s ≡ done s'
    → find setting_key j s'.settings ≡ (
        if str_eq key j
        then some (setting_row key value by reason now)
        else find setting_key j s.settings)
find-set_setting key value by reason now j s s' h =
    rw (set_setting-rows key value by reason now s s' h)
      (find-upsert setting_key j (setting_row key value by reason now) s.settings)

-- After a change of a setting that is accepted, reading it gives the new value, whatever was there before
-- and whatever default is asked with, and every other setting reads as before.
pub setting-set_setting :
    (key value by reason : String) (now : ℕ) (j default : String) (s s' : Store)
    → set_setting key value by reason now s ≡ done s'
    → setting j default s' ≡ (if str_eq key j then value else setting j default s)
unfolding setting
setting-set_setting key value by reason now j default s s' h =
    rw (find-set_setting key value by reason now j s s' h)
      (elim (Bool-cases (str_eq key j)) [ inl e ↦ rw e refl | inr e ↦ rw e refl ])
