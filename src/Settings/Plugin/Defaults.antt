-- ===== src/Settings/Plugin/Defaults.antt =====
-- What registering the plugin's settings changes.
use openedx_webhook_relay.Base.{
  String, ◌≡◌, refl, ap, inl, inr, true, Option, some, List, [], ◌∷◌, arith, str_eq, str_eq_iff,
  get_or, if◌then◌else◌, Bool-cases,
}
use openedx_webhook_relay.Settings.{Settings, BeatEntry}
use openedx_webhook_relay.Settings.Plugin.{
  purge_entry_name, set_entry, get_entry, purge_entry, register_defaults, schedule_purge,
  plugin_settings,
}

get_entry-set_entry :
    (entries : List (String × BeatEntry)) (name other : String) (entry : BeatEntry)
    → get_entry (set_entry entries name entry) other
      ≡ (if str_eq name other then some entry else get_entry entries other)
unfolding get_entry set_entry
get_entry-set_entry [] name other entry = refl
get_entry-set_entry ((first, e) ∷ rest) name other entry = ground (
  arith,
  get_entry-set_entry rest name other entry,
  str_eq_iff first name,
  str_eq_iff first other,
  str_eq_iff name other,
)

set_entry_twice :
    (entries : List (String × BeatEntry)) (name : String) (entry : BeatEntry)
    → set_entry (set_entry entries name entry) name entry ≡ set_entry entries name entry
unfolding set_entry
set_entry_twice [] name entry = rw ((str_eq_iff name name).1 refl) refl
set_entry_twice ((first, e) ∷ rest) name entry = elim (Bool-cases (str_eq first name)) [
  | inl h ↦ rw (h, h) refl
  | inr h ↦ rw (h, h) (ap (λ es. (first, e) ∷ es) (set_entry_twice rest name entry))
]

-- The schedule that Celery beat reads.
abbrev pub beat_entry : Settings → String → Option BeatEntry
beat_entry settings name = get_entry (get_or settings.celery_beat_schedule []) name

-- Unless the deployment has turned it off, registering the settings schedules the purge at the hour
-- and minute that the settings name, or at 03:17, and keeps every other entry of the schedule; where
-- it is turned off, the schedule is as it was. Registering twice is registering once.
pub plugin_settings-schedule :
    (settings : Settings) (name : String)
    → (beat_entry (plugin_settings settings) name ≡ (
        if get_or settings.auto_purge_enabled true
        then if str_eq purge_entry_name name
          then some (purge_entry settings)
          else beat_entry settings name
        else beat_entry settings name))
      × (plugin_settings (plugin_settings settings) ≡ plugin_settings settings)
unfolding plugin_settings register_defaults schedule_purge purge_entry
plugin_settings-schedule settings name =
    elim (Bool-cases (get_or settings.auto_purge_enabled true)) [
      | inl on ↦ rw on (
        get_entry-set_entry (get_or settings.celery_beat_schedule []) purge_entry_name name _,
        rw
            (set_entry_twice (get_or settings.celery_beat_schedule []) purge_entry_name
              (purge_entry settings))
            refl,
      )
      | inr off ↦ rw off (refl, refl)
    ]
