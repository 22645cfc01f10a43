-- ===== src/Group/Snapshot/Laws.antt =====
-- The data of a snapshot before and after JSON.
use freno.Prelude.{◌≡◌, refl, true, false, none, some, [], ◌∷◌, All, arith}
use freno.Go.Text.{Text, str_eq, str_eq_iff, to_lower, text_eq}
use freno.Go.Utf8.{coerce}
use freno.Go.Dict.{Dict, lookup, KeysOnce, insert, lookup-insert, insert-KeysOnce}
use freno.Group.Snapshot.{
  SnapshotData, new_snapshot_data, FieldNames, is_exported, json_keys, member, insert_members,
  fill_apps, fill_hosts, names_field, decode_member, decode_members, marshal_snapshot, filled,
  decoded, decode_snapshot,
}

abbrev pub KeysUtf8 : {A : Type 0} → Dict Text A → Type 0
KeysUtf8 = All (λ m. coerce m.0 ≡ m.0)

json_keys-KeysUtf8 : {A : Type 0} (its : Dict Text A) → KeysUtf8 its → json_keys its ≡ its
unfolding json_keys
json_keys-KeysUtf8 [] h = refl
json_keys-KeysUtf8 ((key, a) ∷ its) (h, hs) = rw (h, json_keys-KeysUtf8 its hs) refl

pub lookup-insert_members :
    {A : Type 0} (members its : Dict Text A) (name : Text)
    → KeysOnce members
    → lookup name (insert_members members its)
      ≡ elim (lookup name members) [ none ↦ lookup name its | some a ↦ some a ]
unfolding insert_members lookup
lookup-insert_members [] its name h = refl
lookup-insert_members ((k, a) ∷ members) its name (n, h) = ground (
  arith,
  str_eq_iff k name,
  n,
  lookup-insert k name a its,
  lookup-insert_members members (insert k a its) name h,
)

pub insert_members-KeysOnce :
    {A : Type 0} (members its : Dict Text A) → KeysOnce its → KeysOnce (insert_members members its)
unfolding insert_members
insert_members-KeysOnce [] its h = h
insert_members-KeysOnce ((k, a) ∷ members) its h =
    insert_members-KeysOnce members (insert k a its) (insert-KeysOnce k a its h)

-- Fields that are not exported do not come back.
pub decode_snapshot-not_exported :
    (names : FieldNames) (contents : SnapshotData)
    → is_exported names.apps_field ≡ false
    → is_exported names.hosts_field ≡ false
    → decode_snapshot names (marshal_snapshot names contents) ≡ filled new_snapshot_data
unfolding decode_snapshot marshal_snapshot member decode_members decoded
decode_snapshot-not_exported names contents h k = rw (h, k) refl

-- Exported fields come back, where their names differ by more than the case.
pub decode_snapshot-exported :
    (names : FieldNames) (contents : SnapshotData)
    → is_exported names.apps_field ≡ true
    → is_exported names.hosts_field ≡ true
    → str_eq (to_lower names.hosts_field) (to_lower names.apps_field) ≡ false
    → KeysUtf8 contents.throttled_apps
    → KeysUtf8 contents.skipped_hosts
    → decode_snapshot names (marshal_snapshot names contents)
      ≡ filled (record {
        throttled_apps = insert_members contents.throttled_apps [];
        skipped_hosts = insert_members contents.skipped_hosts [];
      })
unfolding decode_snapshot marshal_snapshot member decode_members decoded decode_member names_field
    fill_apps fill_hosts
decode_snapshot-exported names contents h k d u v = ground (
  arith,
  h,
  k,
  d,
  json_keys-KeysUtf8 contents.throttled_apps u,
  json_keys-KeysUtf8 contents.skipped_hosts v,
  str_eq_iff (to_lower names.apps_field) (to_lower names.apps_field),
  str_eq_iff (to_lower names.hosts_field) (to_lower names.hosts_field),
)
