-- ===== src/Security/Denylist/Retried.antt =====
-- The denylist of a task's retry finds what the first run has left to delete: nothing more.
use openedx_webhook_relay.Base.{
  append_nil, String, ◌≡◌, refl, sym, ap, subst, ◌∙◌, inl, inr, false, Option, none, some, List, [],
  ◌∷◌, str_eq, Option-cases, Bool-cases, arith, split_dots,
}
use openedx_webhook_relay.Json.{Value, obj, Fields}
use openedx_webhook_relay.Json.Dict.{get, keys}
use openedx_webhook_relay.Json.Paths.{at}
use openedx_webhook_relay.Security.{event_data_key, if_truthy}
use openedx_webhook_relay.Security.Nested.{delete_nested_path}
use openedx_webhook_relay.Security.Denylist.{drop_nested, drop_paths, apply_denylist}
use openedx_webhook_relay.Security.Denylist.Carried.{carry_nested, carry_paths, carried}
use openedx_webhook_relay.Security.Denylist.Removal.{drop_nested-absent, drop_nested-gone}
use openedx_webhook_relay.Security.Denylist.Actions.{
  Action, nothing, pop_key, delete_below, action, perform, perform_on, drop_path-perform,
  carry_path-perform_on,
}
use openedx_webhook_relay.Json.Dict.Keys.{keys-put}
use openedx_webhook_relay.Security.Denylist.Copy.{
  drop_nested-settled, pops, keys-pops, contains-same, event_data_key-same, pops-get, pops-put,
  pops-absent,
}

-- `t` is what deletions have left of `s`.
record Later (s t : Fields) : Type 0 where
  same_keys : keys s ≡ keys t
  absent : (q : List String) → at (obj s) q ≡ none → at (obj t) q ≡ none

drop_nested-Later : (s : Fields) (key sub_path : String) → Later s (drop_nested s key sub_path)
unfolding drop_nested
drop_nested-Later s key sub_path = record {
  same_keys = elim (Option-cases (get s key)) [
    | inl e ↦ rw (drop_nested, e) refl
    | inr (w, e) ↦
        rw (drop_nested, e) (sym (keys-put s key (delete_nested_path w sub_path) (rw e refl)))
  ];
  absent = λ q h. drop_nested-absent s key sub_path q h;
}

drop_nested-absent_key :
    (m : Fields) (key sub_path : String) → get m key ≡ none → drop_nested m key sub_path ≡ m
unfolding drop_nested
drop_nested-absent_key m key sub_path e = rw (drop_nested, e) refl

drop_nested-gone_at :
    (m : Fields) (key sub_path : String)
    → str_eq sub_path "" ≡ false
    → at (obj (drop_nested m key sub_path)) (key ∷ split_dots sub_path) ≡ none
drop_nested-gone_at m key sub_path named =
    subst (λ ks. at (obj (drop_nested m key sub_path)) (key ∷ ks) ≡ none)
      (append_nil (split_dots sub_path)) (drop_nested-gone m key sub_path [] named)

Later-trans : (r s t : Fields) → Later r s → Later s t → Later r t
Later-trans r s t h h' = record {
  same_keys = h.same_keys ∙ h'.same_keys;
  absent = λ q gone. h'.absent q (h.absent q gone);
}

carry_nested-absent_key :
    (m s : Fields) (key sub_path : String) → get m key ≡ none → carry_nested m s key sub_path ≡ s
unfolding carry_nested
carry_nested-absent_key m s key sub_path e = rw (carry_nested, e) refl

-- The copy's deletion below a key that it has is the argument's.
module _ (s : Fields) (ks : List String) (key sub_path : String) (v : Value)
    (e : get (pops s ks) key ≡ some v) where
  carry_nested-argument : carry_nested (pops s ks) s key sub_path ≡ drop_nested s key sub_path
  unfolding carry_nested drop_nested
  carry_nested-argument = rw (carry_nested, drop_nested, e, pops-get s ks key v e) refl

  drop_nested-pops : drop_nested (pops s ks) key sub_path ≡ pops (drop_nested s key sub_path) ks
  unfolding drop_nested
  drop_nested-pops =
      rw (drop_nested, e, pops-get s ks key v e)
        (pops-put s ks key v (delete_nested_path v sub_path) e)

  drop_nested-settles :
      (t : Fields)
      → Later (drop_nested s key sub_path) t
      → drop_nested (pops t ks) key sub_path ≡ pops t ks
  drop_nested-settles t later =
      drop_nested-settled (pops t ks) key sub_path (elim (Bool-cases (str_eq sub_path "")) [
        | inl empty ↦ inl empty
        | inr named ↦
            inr (pops-absent t ks _ (later.absent _ (drop_nested-gone_at s key sub_path named)))
      ])

module _ (data_key : Option String) where
  -- The rest of the loop, from the payload `p` and the argument `s`
  -- (which deletions have made of `before`); and the rest of the retry's
  -- loop, on the argument that the first loop leaves, from where `q` says that its payload stands.
  abbrev Replays : Fields → Fields → Fields → (Fields → Fields) → List String → Type 0
  Replays before p s q rest =
      (ks : List String) × (drop_paths data_key p rest ≡ pops (carry_paths data_key p s rest) ks)
      × (drop_paths data_key (q (carry_paths data_key p s rest)) rest
          ≡ pops (carry_paths data_key p s rest) ks)
      × Later before (carry_paths data_key p s rest)

  perform-Replays :
      (a : Action) (s : Fields) (ks rest : List String)
      → ((s' : Fields) (ks' : List String) → Replays s' (pops s' ks') s' (λ t. pops t ks') rest)
      → Replays s
          (perform a (pops s ks))
          (perform_on a (pops s ks) s)
          (λ t. perform a (pops t ks))
          rest
  unfolding perform perform_on
  perform-Replays nothing s ks rest ih = ih s ks
  perform-Replays (pop_key key) s ks rest ih = unfold pops in ih s (key ∷ ks)
  perform-Replays (delete_below key sub_path) s ks rest ih =
      elim (Option-cases (get (pops s ks) key)) [
        | inl e ↦
            let (ks', first, second, later) = ih s ks in
            let t = carry_paths data_key (pops s ks) s rest in
            let missing : get (pops t ks) key ≡ none = ground (
              arith,
              e,
              contains-same (pops s ks) (pops t ks) key (keys-pops s t ks later.same_keys),
            ) in
            rw
              (
                drop_nested-absent_key (pops s ks) key sub_path e,
                carry_nested-absent_key (pops s ks) s key sub_path e,
              )
              (
                ks',
                first,
                ap (λ m. drop_paths data_key m rest)
                      (drop_nested-absent_key (pops t ks) key sub_path missing)
                    ∙ second,
                later,
              )
        | inr (v, e) ↦
            let s' = drop_nested s key sub_path in
            let (ks', first, second, later) = ih s' ks in
            let t = carry_paths data_key (pops s' ks) s' rest in
            rw (drop_nested-pops s ks key sub_path v e, carry_nested-argument s ks key sub_path v e)
              (
                ks',
                first,
                ap (λ m. drop_paths data_key m rest)
                      (drop_nested-settles s ks key sub_path v e t later)
                    ∙ second,
                Later-trans s s' t (drop_nested-Later s key sub_path) later,
              )
      ]

  drop_paths-Replays :
      (denylist : List String) (s : Fields) (ks : List String)
      → Replays s (pops s ks) s (λ t. pops t ks) denylist
  unfolding drop_paths carry_paths
  drop_paths-Replays [] s ks = (ks, refl, refl, record { same_keys = refl; absent = λ q h. h })
  drop_paths-Replays (path ∷ rest) s ks =
      let names = keys (pops s ks) in
      let a = action data_key names path in
      let (ks', first, second, later) =
        perform-Replays a s ks rest (λ s' ks'. drop_paths-Replays rest s' ks') in
      let t = carry_paths data_key (perform a (pops s ks)) (perform_on a (pops s ks) s) rest in
      rw
        (
          drop_path-perform (pops s ks) s path data_key,
          carry_path-perform_on (pops s ks) s path data_key,
        )
        (
          ks',
          first,
          ap (λ m. drop_paths data_key m rest)
                (drop_path-perform (pops t ks) s path data_key
                  ∙ ap (λ names'. perform (action data_key names' path) (pops t ks))
                      (sym (keys-pops s t ks later.same_keys)))
              ∙ second,
          later,
        )

-- The denylist on the argument that the first run leaves gives what it gave on the argument before.
pub apply_denylist-carried :
    (payload : Fields) (denylist : List String)
    → apply_denylist (carried payload denylist) denylist ≡ apply_denylist payload denylist
unfolding apply_denylist carried pops
apply_denylist-carried payload denylist =
    let data_key = if_truthy (event_data_key payload) in
    let t = carry_paths data_key payload payload denylist in
    let (ks, first, second, later) = drop_paths-Replays data_key denylist payload [] in
    ap (λ k. drop_paths (if_truthy k) t denylist)
      (sym (event_data_key-same payload t later.same_keys))
    ∙ second
    ∙ sym first
