-- ===== src/Tasks/Privacy.antt =====
-- What of the event's payload leaves the platform, by the endpoint's two lists.
use mathlib.Core.List.{Memᴰ}
use openedx_webhook_relay.Base.{
  String, ◌≡◌, ◌≢◌, ◌⊎◌, refl, Bool, true, some, List, [], ◌∷◌, ◌++◌, Option-cases, inl, inr,
}
use openedx_webhook_relay.Json.{Value, obj, Fields, is_leaf}
use openedx_webhook_relay.Json.Paths.{at}
use openedx_webhook_relay.Security.Selection.{Covers, Targets}
use openedx_webhook_relay.Security.Allowlist.{apply_allowlist}
use openedx_webhook_relay.Security.Allowlist.Sound.{apply_allowlist_sound}
use openedx_webhook_relay.Security.Denylist.{apply_denylist}
use openedx_webhook_relay.Security.Denylist.Removal.{apply_denylist-removes}
use openedx_webhook_relay.Security.Denylist.Precision.{apply_denylist-adds_nothing}
use openedx_webhook_relay.Security.Passing.{should_send_passing_event}
use openedx_webhook_relay.Models.{Endpoint}
use openedx_webhook_relay.Security.Signing.{Digests, serialize_payload}
use openedx_webhook_relay.Settings.{Settings}
use openedx_webhook_relay.Models.{Status, find_row}
use openedx_webhook_relay.Secrets.{Client}
use openedx_webhook_relay.Tasks.{Request, Post, World, Moment, Ending}
use openedx_webhook_relay.Tasks.Deliver.{if_enabled, deliver_webhook}
use openedx_webhook_relay.Tasks.Runs.{Ran, silent, sent, crashed, delivery_of, deliver_webhook-Ran}
use openedx_webhook_relay.Tasks.Shape.{as_paths, shape_and_check}

-- The shaped payload and the decision, where both lists are lists of paths.
pub shape_and_check_lem :
    (raw : Fields) (endpoint : Endpoint) (allowlist denylist : List String)
    → as_paths endpoint.pii_allowlist ≡ some allowlist
    → as_paths endpoint.pii_denylist ≡ some denylist
    → shape_and_check raw endpoint
      ≡ some (
        apply_denylist (apply_allowlist raw allowlist) denylist,
        should_send_passing_event
            (apply_denylist (apply_allowlist raw allowlist) denylist)
            endpoint.only_on_passing,
      )
unfolding shape_and_check
shape_and_check_lem raw endpoint allowlist denylist allow deny = rw (allow, deny)

-- A filter whose list is not a list of paths raises.
pub shape_and_check_paths :
    (raw payload : Fields) (endpoint : Endpoint) (should_send : Bool)
    → shape_and_check raw endpoint ≡ some (payload, should_send)
    → (allowlist denylist : List String) × (as_paths endpoint.pii_allowlist ≡ some allowlist)
      × (as_paths endpoint.pii_denylist ≡ some denylist)
unfolding shape_and_check
shape_and_check_paths raw payload endpoint should_send h =
    elim (Option-cases (as_paths endpoint.pii_denylist)) [
      | inl e ↦ absurd (cc (rw e at h))
      | inr (denylist, deny) ↦ elim (Option-cases (as_paths endpoint.pii_allowlist)) [
        | inl e ↦ absurd (cc (rw (deny, e) at h))
        | inr (allowlist, allow) ↦ (allowlist, denylist, allow, deny)
      ]
    ]

-- A value other than a dictionary at the place `q` of what an endpoint's filters leave, by the two
-- lists: it stood there in the event's payload, an entry of the allowlist covers it (where there is
-- one), and no entry of the denylist points at it or above it.
pub record Releases (raw : Fields) (allowlist denylist q : List String) (s : Value) : Type 0 where
  pub from_payload : at (obj raw) q ≡ some s
  pub selected : (allowlist ≡ []) ⊎ ((path : String) × Memᴰ path allowlist × Covers raw path q)
  pub not_denied :
      (path : String) (p rest : List String)
      → Memᴰ path denylist
      → Targets (apply_allowlist raw allowlist) path p
      → q ≢ p ++ rest

allowlist-releases :
    (raw : Fields) (allowlist q : List String) (s : Value)
    → is_leaf s ≡ true
    → at (obj (apply_allowlist raw allowlist)) q ≡ some s
    → (at (obj raw) q ≡ some s)
      × ((allowlist ≡ []) ⊎ ((path : String) × Memᴰ path allowlist × Covers raw path q))
unfolding apply_allowlist
allowlist-releases raw [] q s leaf h = (h, inl refl)
allowlist-releases raw (first ∷ others) q s leaf h =
    let (before, chosen) =
      apply_allowlist_sound raw first others q s leaf (unfold apply_allowlist in h) in
    (before, inr chosen)

shaped-Releases :
    (raw : Fields) (allowlist denylist q : List String) (s : Value)
    → is_leaf s ≡ true
    → at (obj (apply_denylist (apply_allowlist raw allowlist) denylist)) q ≡ some s
    → Releases raw allowlist denylist q s
shaped-Releases raw allowlist denylist q s leaf h =
    let between = apply_denylist-adds_nothing (apply_allowlist raw allowlist) denylist q s leaf h in
    let (before, chosen) = allowlist-releases raw allowlist q s leaf between in
    record {
      from_payload = before;
      selected = chosen;
      not_denied = λ path p rest among target e. absurd (
          cc (
            apply_denylist-removes (apply_allowlist raw allowlist) denylist path p rest among
                target,
            e,
            h,
          ));
    }

-- A POST to an endpoint, of a payload from which only what its two lists release can be read.
pub record IsPrivate (d : Digests) (raw : Fields) (endpoint : Endpoint) (post : Post) : Type 0 where
  pub payload : Fields
  pub allowlist : List String
  pub denylist : List String
  pub allow : as_paths endpoint.pii_allowlist ≡ some allowlist
  pub deny : as_paths endpoint.pii_denylist ≡ some denylist
  pub body : post.body ≡ serialize_payload d payload
  pub releases :
      (q : List String) (s : Value)
      → is_leaf s ≡ true
      → at (obj payload) q ≡ some s
      → Releases raw allowlist denylist q s

post-IsPrivate :
    (d : Digests) (raw payload : Fields) (endpoint : Endpoint) (should_send : Bool) (post : Post)
    → shape_and_check raw endpoint ≡ some (payload, should_send)
    → post.body ≡ serialize_payload d payload
    → IsPrivate d raw endpoint post
post-IsPrivate d raw payload endpoint should_send post shaped body =
    let (allowlist, denylist, allow, deny) =
      shape_and_check_paths raw payload endpoint should_send shaped in
    let shape : payload ≡ apply_denylist (apply_allowlist raw allowlist) denylist =
      cc (shape_and_check_lem raw endpoint allowlist denylist allow deny, shaped) in
    record {
      payload = payload;
      allowlist = allowlist;
      denylist = denylist;
      allow = allow;
      deny = deny;
      body = body;
      releases = λ q s leaf h. shaped-Releases raw allowlist denylist q s leaf (rw shape at h);
    }

-- At most one POST, and a private one.
abbrev pub Quiet : Digests → Request → World → World → Type 0
Quiet d request w w' =
    (w'.posts ≡ w.posts)
    ⊎ ((endpoint : Endpoint) × (post : Post) × (if_enabled
            (find_row w.endpoints request.endpoint_id)
          ≡ some endpoint)
        × (w'.posts ≡ w.posts ++ post ∷ [])
        × IsPrivate d request.raw_payload endpoint post)

module _ (d : Digests) (client : Client) (store : client.Store) (boto3_installed : Bool)
    (settings : Settings) (m : Moment) (request : Request) (w : World) where
  Ran-Quiet :
      (endpoint : Endpoint) (payload : Fields) (should_send : Bool) (skip : Status)
      (r : Ending × World)
      → if_enabled (find_row w.endpoints request.endpoint_id) ≡ some endpoint
      → shape_and_check request.raw_payload endpoint ≡ some (payload, should_send)
      → Ran d m (delivery_of d request endpoint payload) skip w r
      → Quiet d request w r.1
  Ran-Quiet endpoint payload should_send skip r found shaped
        (silent e outcome same status empty uncoded logged quiet ends) =
      inl quiet
  Ran-Quiet endpoint payload should_send skip r found shaped
        (sent e outcome post same fits logged body posts told) =
      inr (
        endpoint,
        post,
        found,
        posts,
        post-IsPrivate d _ payload endpoint should_send post shaped body,
      )
  Ran-Quiet endpoint payload should_send skip r found shaped
        (crashed ending attempts emitted (inl quiet)) =
      inl quiet
  Ran-Quiet endpoint payload should_send skip r found shaped
        (crashed ending attempts emitted (inr (post, body, posts))) =
      inr (
        endpoint,
        post,
        found,
        posts,
        post-IsPrivate d _ payload endpoint should_send post shaped body,
      )

  -- However a run ends, it makes at most one POST, and only for an endpoint that exists and is
  -- enabled. The body of the POST is a payload serialized, of which every value other than a
  -- dictionary stood at the same place in the event's payload, is covered by an entry of the
  -- endpoint's allowlist (if that is not empty), and stands neither where an entry of its denylist
  -- points (the event metadata, the event's data, another top-level key, or a path below one of them),
  -- in what the allowlist leaves, nor below.
  pub deliver_webhook-private :
      Quiet d request w (deliver_webhook d client store boto3_installed settings m request w).1
  unfolding deliver_webhook
  deliver_webhook-private =
      elim (Option-cases (if_enabled (find_row w.endpoints request.endpoint_id))) [
        | inl gone ↦ inl (rw gone)
        | inr (endpoint, found) ↦
            elim (Option-cases (shape_and_check request.raw_payload endpoint)) [
              | inl raises ↦ inl (rw (found, raises))
              | inr ((payload, should_send), shaped) ↦
                  Ran-Quiet endpoint payload should_send _ _ found shaped (
                    deliver_webhook-Ran d client store boto3_installed settings m request w endpoint
                      payload should_send found shaped)
            ]
      ]
