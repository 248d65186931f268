-- ===== src/Bridge/Ingress/Writes.antt =====
-- What a reconciliation writes to the panel.
use cascade_vpn.Base.{
  ◌≡◌, ◌⊎◌, Bool-cases, String, any, str_eq, str_eq_iff, arith, ap, ◌∙◌, refl, subst, Bool, true,
  false, not, ◌&&◌, ◌||◌, Option, none, some, inl, inr, List, [], ◌∷◌, ◌++◌, if◌then◌else◌, Result,
  ok, err,
}
use cascade_vpn.Bridge.Json.{ℤ, Json, object, Members, empty, member, member_of}
use cascade_vpn.Bridge.Panel.{
  no_ingress, Config, Endpoint, add, update, Server, Client, Failure, Call, continue, ◌>>=◌, pure,
  raise, lift, list_inbounds, add_inbound, update_inbound,
}
use cascade_vpn.Bridge.Panel.Writes.{
  is_write, written, MayWrite, operate-MayWrite, list_inbounds-Quiet,
}
use cascade_vpn.Bridge.Ingress.{
  Codec, find_ingress, entries_of, has_drift, drift_from, build_ingress_payload, keep_counter,
  keep_counters, set_member, id_of, found_port, create_ingress, update_ingress, repair_ingress,
  settle_ingress, reconcile_ingress,
}

abbrev pub is_counter : String → Bool
is_counter key = any (str_eq key) ("up" ∷ "down" ∷ "total" ∷ "expiryTime" ∷ [])

-- The value in the first, or else the one in the second.
abbrev pub kept : Option Json → Option Json → Option Json
kept none configured = configured
kept (some value) configured = some value

member_of-set_member :
    (k key : String) (value : Json) (ms : Members)
    → member_of k (set_member key value ms) ≡ (if str_eq k key then some value else member_of k ms)
unfolding member_of set_member
member_of-set_member k key value empty = ground (arith, str_eq_iff k key, str_eq_iff key k)
member_of-set_member k key value (member j v ms) = ground (
  arith,
  str_eq_iff k key,
  str_eq_iff key k,
  str_eq_iff j key,
  str_eq_iff j k,
  member_of-set_member k key value ms,
)

four_counters :
    (a b c d : Bool) (e v0 v1 v2 v3 v4 : Option Json)
    → v1 ≡ (if a then kept e v0 else v0)
    → v2 ≡ (if b then kept e v1 else v1)
    → v3 ≡ (if c then kept e v2 else v2)
    → v4 ≡ (if d then kept e v3 else v3)
    → v4 ≡ (if a || (b || (c || (d || false))) then kept e v0 else v0)
four_counters a b c d none v0 v1 v2 v3 v4 h1 h2 h3 h4 = ground arith
four_counters a b c d (some x) v0 v1 v2 v3 v4 h1 h2 h3 h4 = ground arith

module _ (server : Server) (cfg : Config) where
  module _ (codec : Codec) (dry_run : Bool) where
    -- The payload has the counters that the inbound has, and is as configured elsewhere.
    abbrev pub Keeps : Members → Members → Type 0
    Keeps existing payload =
        (key : String)
        → member_of key payload ≡ (
            if is_counter key
            then kept (member_of key existing) (member_of key (build_ingress_payload codec cfg))
            else member_of key (build_ingress_payload codec cfg))

    member_of-keep_counter :
        (existing : Members) (k key : String) (payload : Members)
        → member_of k (keep_counter codec cfg existing key payload) ≡ (
            if str_eq k key
            then kept (member_of k existing) (member_of k payload)
            else member_of k payload)
    member_of-keep_counter existing k key payload =
        by_value (member_of key existing) refl (Bool-cases (str_eq k key))
      where
        by_value :
            (found : Option Json)
            → member_of key existing ≡ found
            → (str_eq k key ≡ true) ⊎ (str_eq k key ≡ false)
            → member_of k
                (elim found [ none ↦ payload | some value ↦ set_member key value payload ])
              ≡ (if str_eq k key
                  then kept (member_of k existing) (member_of k payload)
                  else member_of k payload)
        by_value none e (inr h) = rw h
        by_value none e (inl h) =
            rw (h, ap (λ x. member_of x existing) ((str_eq_iff k key).0 h) ∙ e)
        by_value (some v) e (inr h) = member_of-set_member k key v payload ∙ rw h
        by_value (some v) e (inl h) =
            member_of-set_member k key v payload
            ∙ rw (h, ap (λ x. member_of x existing) ((str_eq_iff k key).0 h) ∙ e)

    keep_counters-Keeps : (existing : Members) → Keeps existing (keep_counters codec cfg existing)
    keep_counters-Keeps existing key =
        let p0 = build_ingress_payload codec cfg in
        let p1 = keep_counter codec cfg existing "up" p0 in
        let p2 = keep_counter codec cfg existing "down" p1 in
        let p3 = keep_counter codec cfg existing "total" p2 in
        four_counters (str_eq key "up") (str_eq key "down") (str_eq key "total")
          (str_eq key "expiryTime") (member_of key existing) (member_of key p0) (member_of key p1)
          (member_of key p2) (member_of key p3)
          (member_of key (keep_counter codec cfg existing "expiryTime" p3))
          (member_of-keep_counter existing key "up" p0)
          (member_of-keep_counter existing key "down" p1)
          (member_of-keep_counter existing key "total" p2)
          (member_of-keep_counter existing key "expiryTime" p3)

    -- What a reconciliation asks the panel to change: nothing; or to create an inbound as configured,
    -- where none with its remark was listed; or to update, by its id, the one that was, because a
    -- field of it is not as configured.
    module _ (IsListed : Option Members → Type 0) where
      pub data Change (before after : List Endpoint) : Type 0 where
        unchanged : after ≡ before → Change before after
        created :
            IsListed none
            → cfg.ing_manage ≡ true
            → dry_run ≡ false
            → after ≡ before ++ add (build_ingress_payload codec cfg) ∷ []
            → Change before after
        repaired :
            (existing : Members) (found id : ℤ) (payload : Members)
            → IsListed (some existing)
            → found_port codec cfg existing ≡ ok found
            → has_drift (drift_from codec cfg found existing) ≡ true
            → id_of codec cfg existing ≡ ok id
            → Keeps existing payload
            → cfg.ing_manage ≡ true
            → dry_run ≡ false
            → after ≡ before ++ update id payload ∷ []
            → Change before after

      create_ingress-Change :
          IsListed none
          → (c : Client)
          → Change (written c) (written (create_ingress codec cfg server dry_run c).1)
      unfolding create_ingress add_inbound is_write
      create_ingress-Change absent c = by_settings cfg.ing_manage dry_run refl refl
        where
          payload : Members
          payload = build_ingress_payload codec cfg

          asked_to_add :
              (c' : Client)
              → cfg.ing_manage ≡ true
              → dry_run ≡ false
              → MayWrite server cfg (add payload) c c'
              → Change (written c) (written c')
          asked_to_add c' e f (inl h) = unchanged h
          asked_to_add c' e f (inr h) = created absent e f h

          by_settings :
              (m d : Bool)
              → cfg.ing_manage ≡ m
              → dry_run ≡ d
              → Change (written c) (
                  written
                    ((if not m
                        then raise no_ingress
                        else if d
                        then pure (object payload)
                        else add_inbound server cfg payload)
                      c).1)
          by_settings false d e f = unchanged refl
          by_settings true true e f = unchanged refl
          by_settings true false e f =
              asked_to_add _ e f (operate-MayWrite server cfg (add payload) (object empty) c)

      -- An inbound that is not as configured.
      record Drifted (existing : Members) : Type 0 where
        listed : IsListed (some existing)
        found : ℤ
        reads : found_port codec cfg existing ≡ ok found
        drifts : has_drift (drift_from codec cfg found existing) ≡ true

      update_ingress-Change :
          cfg.ing_manage ≡ true
          → dry_run ≡ false
          → (existing : Members) → Drifted existing
          → (c : Client)
          → Change (written c) (written (update_ingress codec cfg server dry_run existing c).1)
      unfolding update_ingress update_inbound is_write
      update_ingress-Change e f existing d c = by_id (id_of codec cfg existing) refl
        where
          payload : Members
          payload = keep_counters codec cfg existing

          asked_to_update :
              (id : ℤ) (c' : Client)
              → id_of codec cfg existing ≡ ok id
              → MayWrite server cfg (update id payload) c c'
              → Change (written c) (written c')
          asked_to_update id c' i (inl h) = unchanged h
          asked_to_update id c' i (inr h) =
              repaired existing d.found id payload d.listed d.reads d.drifts i
                (keep_counters-Keeps existing) e f h

          by_id :
              (x : Result Failure ℤ)
              → id_of codec cfg existing ≡ x
              → Change
                  (written c)
                  (written (continue (x, c) (λ id. update_inbound server cfg id payload)).1)
          by_id (err problem) i = unchanged refl
          by_id (ok id) i =
              asked_to_update id _ i
                (operate-MayWrite server cfg (update id payload) (object empty) c)

      repair_ingress-Change :
          (existing : Members)
          → IsListed (some existing)
          → (c : Client)
          → Change (written c) (written (repair_ingress codec cfg server dry_run existing c).1)
      unfolding repair_ingress
      repair_ingress-Change existing listed c = by_port (found_port codec cfg existing) refl
        where
          repair : Bool → Call Json
          repair test =
              if test
              then update_ingress codec cfg server dry_run existing
              else pure (object existing)

          by_test :
              (found : ℤ) (b m d : Bool)
              → found_port codec cfg existing ≡ ok found
              → has_drift (drift_from codec cfg found existing) ≡ b
              → cfg.ing_manage ≡ m
              → dry_run ≡ d
              → Change (written c) (written (repair (b && m && not d) c).1)
          by_test found false m d p q e f = unchanged refl
          by_test found true false d p q e f = unchanged refl
          by_test found true true true p q e f = unchanged refl
          by_test found true true false p q e f =
              update_ingress-Change e f existing
                (record { listed = listed; found = found; reads = p; drifts = q }) c

          by_port :
              (x : Result Failure ℤ)
              → found_port codec cfg existing ≡ x
              → Change (written c) (
                  written
                    (continue
                      (x, c)
                      (λ found. repair (
                        has_drift (drift_from codec cfg found existing)
                        && cfg.ing_manage
                        && not dry_run))).1)
          by_port (err problem) p = unchanged refl
          by_port (ok found) p =
              by_test found (has_drift (drift_from codec cfg found existing)) cfg.ing_manage dry_run
                p refl refl refl

      settle_ingress-Change :
          (found : Option Members)
          → IsListed found
          → (c : Client)
          → Change (written c) (written (settle_ingress codec cfg server dry_run found c).1)
      settle_ingress-Change none absent c = create_ingress-Change absent c
      settle_ingress-Change (some existing) listed c = repair_ingress-Change existing listed c

      Change-after :
          {before middle after : List Endpoint}
          → middle ≡ before
          → Change middle after
          → Change before after
      Change-after {after = after} e h = subst (λ t. Change t after) e h

    -- The first inbound with the remark in the list that the panel answers with, or none.
    pub record Listed (c : Client) (found : Option Members) : Type 0 where
      pub inbounds : Json
      pub entries : List Json
      pub answered : (list_inbounds server cfg c).0 ≡ ok inbounds
      pub read : entries_of inbounds ≡ ok entries
      pub first : find_ingress cfg.ing_remark entries ≡ ok found

    -- A reconciliation asks the panel for no change; or, where the bridge manages the inbound and it
    -- is no dry run, for one alone. That is to add the inbound as configured, where the panel lists
    -- none with the remark; or to update, under its own id, the first one with the remark, which is
    -- not as configured, with the counters up, down, total and expiryTime that it has and with every
    -- other field as configured.
    pub reconcile_ingress-Change :
        (c : Client)
        → Change (Listed c) (written c) (written (reconcile_ingress codec cfg server dry_run c).1)
    unfolding reconcile_ingress
    reconcile_ingress-Change c =
        by_list (list_inbounds server cfg c) refl (list_inbounds-Quiet server cfg c)
      where
        settle : Option Members → Call Json
        settle = settle_ingress codec cfg server dry_run

        find : List Json → Call Json
        find entries = lift (find_ingress cfg.ing_remark entries) >>= settle

        by_found :
            (inbounds : Json) (entries : List Json)
            → (list_inbounds server cfg c).0 ≡ ok inbounds
            → entries_of inbounds ≡ ok entries
            → (c' : Client) (x : Result Failure (Option Members))
            → find_ingress cfg.ing_remark entries ≡ x
            → Change (Listed c) (written c') (written (continue (x, c') settle).1)
        by_found inbounds entries h i c' (err problem) k = unchanged refl
        by_found inbounds entries h i c' (ok found) k =
            settle_ingress-Change (Listed c) found
              (record { inbounds = inbounds; entries = entries; answered = h; read = i; first = k })
              c'

        by_entries :
            (inbounds : Json)
            → (list_inbounds server cfg c).0 ≡ ok inbounds
            → (c' : Client) (x : Result Failure (List Json)) → entries_of inbounds ≡ x
            → Change (Listed c) (written c') (written (continue (x, c') find).1)
        by_entries inbounds h c' (err problem) i = unchanged refl
        by_entries inbounds h c' (ok entries) i =
            by_found inbounds entries h i c' (find_ingress cfg.ing_remark entries) refl

        by_list :
            (x : Result Failure Json × Client)
            → (list_inbounds server cfg c).0 ≡ x.0
            → written x.1 ≡ written c
            → Change
                (Listed c)
                (written c)
                (written (continue x (λ inbounds. lift (entries_of inbounds) >>= find)).1)
        by_list (err problem, c') k h = unchanged h
        by_list (ok inbounds, c') k h =
            Change-after (Listed c) h (by_entries inbounds k c' (entries_of inbounds) refl)
