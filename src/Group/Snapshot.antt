-- ===== src/Group/Snapshot.antt =====
-- pkg/group/fsm_snapshot.go, and what fsm.Restore decodes: the data of a snapshot on its way through
-- JSON. The names of the struct's fields are an argument, since encoding/json sees a field only if
-- its name begins with an upper case letter. An object is the list of its members, and each value
-- is one that the decoder meets in a snapshot, or another one.
pub mod Laws
use freno.Prelude.{
  ℕ, Bool, true, false, ◌&&◌, Option, none, some, List, [], ◌∷◌, ◌++◌, map, leb, if◌then◌else◌,
}
use freno.Go.Text.{Text, codes, str_eq, to_lower, text_eq}
use freno.Go.Utf8.{coerce}
use freno.Go.Dict.{Dict, insert}
use freno.Go.Time.{Time}
use freno.Base.Metric.{AppThrottle}

pub record SnapshotData : Type 0 where
  pub throttled_apps : Dict Text AppThrottle
  pub skipped_hosts : Dict Text Time

abbrev pub new_snapshot_data : SnapshotData
new_snapshot_data = record { throttled_apps = []; skipped_hosts = [] }

-- The names of the fields.
pub record FieldNames : Type 0 where
  pub apps_field : Text
  pub hosts_field : Text

abbrev pub snapshot_data_fields : FieldNames
snapshot_data_fields = record {
  apps_field = codes "throttledApps";
  hosts_field = codes "skippedHosts";
}

abbrev pub is_exported : Text → Bool
is_exported [] = false
is_exported (c ∷ s) = leb b'A' c && leb c b'Z'

-- An object of throttles, an object of times, null, or another value.
pub data Value : Type 0 where
  throttles : List (Text × AppThrottle) → Value
  times : List (Text × Time) → Value
  null_member another : Value

-- A JSON text as the decoder sees it: an object, the value null, another value, or no value.
pub data Document : Type 0 where
  object_of : List (Text × Value) → Document
  null_value other_value malformed : Document

-- The keys of a map as the names of an object.
json_keys : {A : Type 0} → Dict Text A → List (Text × A)
json_keys [] = []
json_keys ((key, a) ∷ its) = (coerce key, a) ∷ json_keys its

-- A field of a struct as a member.
member : Text → Value → List (Text × Value)
member name value = if is_exported name then (name, value) ∷ [] else []

-- json.Marshal of the data.
unfoldable pub marshal_snapshot : FieldNames → SnapshotData → Document
unfolding member json_keys
marshal_snapshot names contents = object_of (
    member names.apps_field (throttles (json_keys contents.throttled_apps))
    ++ member names.hosts_field (times (json_keys contents.skipped_hosts)))

-- The members of an object, put into a map.
pub insert_members : {A : Type 0} → List (Text × A) → Dict Text A → Dict Text A
insert_members [] its = its
insert_members ((name, a) ∷ members) its = insert_members members (insert name a its)

-- A member fills a field, or has a value that does not fit it.
fill_apps : Value → SnapshotData → Option SnapshotData
unfolding insert_members
fill_apps (throttles members) contents =
    some (record contents { throttled_apps = insert_members members contents.throttled_apps })
fill_apps (times []) contents = some contents
fill_apps (times (m ∷ ms)) contents = none
fill_apps null_member contents = some (record contents { throttled_apps = [] })
fill_apps another contents = none

fill_hosts : Value → SnapshotData → Option SnapshotData
unfolding insert_members
fill_hosts (times members) contents =
    some (record contents { skipped_hosts = insert_members members contents.skipped_hosts })
fill_hosts (throttles []) contents = some contents
fill_hosts (throttles (m ∷ ms)) contents = none
fill_hosts null_member contents = some (record contents { skipped_hosts = [] })
fill_hosts another contents = none

-- The decoder takes the names of members and of fields as the same whatever their case.
names_field : Text → Text → Bool
names_field name field = is_exported field && str_eq (to_lower name) (to_lower field)

pub decode_member : FieldNames → Text → Value → SnapshotData → Option SnapshotData
unfolding names_field fill_apps fill_hosts
decode_member names name value contents =
    if names_field name names.apps_field
    then fill_apps value contents
    else if names_field name names.hosts_field
    then fill_hosts value contents
    else some contents

decode_members : FieldNames → List (Text × Value) → SnapshotData → Option SnapshotData
decode_members names [] contents = some contents
decode_members names ((name, value) ∷ members) contents =
    elim (decode_member names name value contents) [
      | none ↦ none
      | some contents' ↦ decode_members names members contents'
    ]

-- What the decoder does with the pointer to the new data: null makes it nil.
pub data Decoded : Type 0 where
  filled : SnapshotData → Decoded
  nil_pointer decode_error : Decoded

decoded : Option SnapshotData → Decoded
decoded none = decode_error
decoded (some contents) = filled contents

unfoldable pub decode_snapshot : FieldNames → Document → Decoded
unfolding decoded decode_members
decode_snapshot names (object_of members) = decoded (decode_members names members new_snapshot_data)
decode_snapshot names null_value = nil_pointer
decode_snapshot names other_value = decode_error
decode_snapshot names malformed = decode_error

-- What a sink answers to Write and to Close.
pub data Persisted : Type 0 where
  persisted : Document → Persisted
  cancelled : Persisted

unfoldable pub persist : FieldNames → Bool → Bool → SnapshotData → Persisted
persist names write_ok close_ok contents =
    if write_ok && close_ok then persisted (marshal_snapshot names contents) else cancelled
