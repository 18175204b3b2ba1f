-- ===== src/Witness/Filters.antt =====
-- The payload filters, the receivers and the serializer on concrete payloads.
use mathlib.Core.List.{Memᴰ}
use openedx_webhook_relay.Base.{
  String, ◌≡◌, ◌↔◌, refl, ap, sym, ◌∙◌, true, some, none, List, [], ◌∷◌, ◌++◌, strip_prefix,
  strip_prefix-concat, split_dots, str_eq, concat,
}
use openedx_webhook_relay.Json.{bool, obj}
use openedx_webhook_relay.Json.Dict.{get, put, pop}
use openedx_webhook_relay.Json.Paths.{at}
use openedx_webhook_relay.Security.{event_data_key}
use openedx_webhook_relay.Security.Nested.{delete_path, delete_nested_path}
use openedx_webhook_relay.Security.Selection.{
  Covers, Targets, covers, whole_data, event_data, event_data_below, Names, whole, nested,
  nested_data,
}
use openedx_webhook_relay.Security.Allowlist.{keep_whole, keep_path, keep_paths, apply_allowlist}
use openedx_webhook_relay.Security.Allowlist.Sound.{apply_allowlist_sound}
use openedx_webhook_relay.Security.Allowlist.Complete.{apply_allowlist_complete}
use openedx_webhook_relay.Security.Denylist.{drop_nested, drop_path, drop_paths, apply_denylist}
use openedx_webhook_relay.Security.Denylist.Removal.{apply_denylist-removes}
use openedx_webhook_relay.Security.Denylist.Precision.{apply_denylist_uncovered}
use openedx_webhook_relay.Examples.{raw_payload, data_fields}

abbrev denylist : List String
denylist = "data.name" ∷ []

-- "data.name" points at the learner's name.
name_target : Targets raw_payload "data.name" ("Grade" ∷ "name" ∷ [])
unfolding event_data_key split_dots
name_target = event_data_below "Grade" "name" refl refl refl refl refl

data_target : Targets raw_payload "data" ("Grade" ∷ [])
unfolding event_data_key
data_target = event_data "Grade" refl refl refl refl

apply_denylist-removes_example :
    at (obj (apply_denylist raw_payload denylist)) (("Grade" ∷ "name" ∷ []) ++ []) ≡ none
apply_denylist-removes_example =
    apply_denylist-removes raw_payload denylist "data.name" ("Grade" ∷ "name" ∷ []) []
      (Memᴰ.head refl) name_target

left :
    at (obj (apply_denylist raw_payload denylist)) ("Grade" ∷ "is_passing" ∷ []) ≡ some (bool true)
unfolding apply_denylist drop_paths drop_path drop_nested strip_prefix split_dots event_data_key get
    put pop delete_path delete_nested_path at
left = refl

in_payload : at (obj raw_payload) ("Grade" ∷ "is_passing" ∷ []) ≡ some (bool true)
unfolding at get
in_payload = refl

first_key : {j k : String} {js ks : List String} → (j ∷ js) ≡ (k ∷ ks) → j ≡ k
first_key h = cc

-- "event_metadata" covers nothing of the grade.
not_named :
    (key : String) (segments : List String)
    → "Grade" ≡ key
    → ¬ Names raw_payload "event_metadata" key segments
unfolding strip_prefix
not_named key segments is_key (whole p e) =
    absurd (cc (ap (λ s. str_eq s "event_metadata") (is_key ∙ sym p)))
not_named key segments is_key (whole_data p found e) = absurd (cc (ap (λ s. str_eq s "data") p))
not_named key segments is_key (nested sub_path p e) =
    let at_grade : "event_metadata" ≡ concat "Grade." sub_path = rw (sym is_key) at p in
    absurd (cc (ap (strip_prefix "Grade.") at_grade, strip_prefix-concat "Grade." sub_path))
not_named key segments is_key (nested_data sub_path p found e) =
    absurd (cc (ap (strip_prefix "data.") p, strip_prefix-concat "data." sub_path))

not_covered :
    (path : String)
    → Memᴰ path ("event_metadata" ∷ [])
    → ¬ Covers raw_payload path ("Grade" ∷ "is_passing" ∷ [])
not_covered path (Memᴰ.head p) (covers key segments rest named e) =
    not_named key segments (first_key e) (rw p at named)
not_covered path (Memᴰ.tail among) c = elim among [ ]

allowed :
    at (obj (apply_allowlist raw_payload ("data" ∷ []))) ("Grade" ∷ "is_passing" ∷ [])
    ≡ some (bool true)
unfolding apply_allowlist keep_paths keep_path keep_whole strip_prefix event_data_key get put at
allowed = refl

apply_allowlist_sound_example :
    (at (obj raw_payload) ("Grade" ∷ "is_passing" ∷ []) ≡ some (bool true))
    × ((path : String) × Memᴰ path ("data" ∷ [])
        × Covers raw_payload path ("Grade" ∷ "is_passing" ∷ []))
apply_allowlist_sound_example =
    apply_allowlist_sound raw_payload "data" [] ("Grade" ∷ "is_passing" ∷ []) (bool true) refl
      allowed

whole_data_there : at (obj raw_payload) ("Grade" ∷ []) ≡ some (obj data_fields)
unfolding at get
whole_data_there = refl

apply_allowlist_complete_example :
    at (obj (apply_allowlist raw_payload ("data" ∷ []))) ("Grade" ∷ []) ≡ some (obj data_fields)
apply_allowlist_complete_example =
    apply_allowlist_complete raw_payload ("data" ∷ []) "data" "Grade" [] (obj data_fields)
      (Memᴰ.head refl) data_target refl whole_data_there

apply_denylist_uncovered_example :
    (at (obj (apply_denylist raw_payload ("event_metadata" ∷ []))) ("Grade" ∷ "is_passing" ∷ [])
      ≡ some (bool true))
    ↔ (at (obj raw_payload) ("Grade" ∷ "is_passing" ∷ []) ≡ some (bool true))
apply_denylist_uncovered_example =
    apply_denylist_uncovered raw_payload ("event_metadata" ∷ []) ("Grade" ∷ "is_passing" ∷ [])
      (bool true) refl not_covered
