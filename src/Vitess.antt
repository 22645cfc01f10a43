-- ===== src/Vitess.antt =====
-- pkg/vitess/api_client.go: the replica tablets of a keyspace. The HTTP client, the JSON decoder
-- and the encoder of query parameters are arguments; the timeout of the client is not modelled.
pub mod Laws
use freno.Prelude.{
  ℕ, ◌==◌, Bool, true, false, not, ◌&&◌, Option, none, some, List, [], ◌∷◌, ◌++◌, if◌then◌else◌,
  length, ltb,
}
use freno.Go.Int.{ℤ}
use freno.Go.Text.{Text, codes, str_eq, trim_right, trim_space, has_suffix}
use freno.Config.Stores.{VitessSettings}

pub record TabletRealtimeStats : Type 0 where
  pub health_error : Text

pub record TabletStats : Type 0 where
  pub last_error : Text
  pub realtime : Option TabletRealtimeStats
  pub serving : Bool
  pub up : Bool

-- The enumeration of the Vitess protocol, as far as the program tells its values apart.
pub data TabletType : Type 0 where
  replica another_type : TabletType

-- `alias` is the cell of the tablet's alias.
pub record Tablet : Type 0 where
  pub alias : Option Text
  pub mysql_hostname : Text
  pub mysql_port : ℤ
  pub stats : Option TabletStats
  pub tablet_type : TabletType

-- GetCell of an alias that is nil is the empty text.
abbrev pub get_cell : Option Text → Text
get_cell none = []
get_cell (some cell) = cell

pub any_cell : Text → List Text → Bool
any_cell cell [] = false
any_cell cell (valid ∷ rest) = elim (str_eq cell valid) [ true ↦ true | false ↦ any_cell cell rest ]

unfoldable pub has_valid_cell : Tablet → List Text → Bool
unfolding any_cell
has_valid_cell t valid_cells =
    if length valid_cells == 0 then true else any_cell (get_cell t.alias) valid_cells

abbrev pub is_present : Option TabletRealtimeStats → Bool
is_present none = false
is_present (some s) = true

serveable_stats : Option TabletStats → Bool
serveable_stats none = true
serveable_stats (some stats) = str_eq stats.last_error [] && is_present stats.realtime

unfoldable pub is_serveable : Tablet → Bool
unfolding serveable_stats
is_serveable t = serveable_stats t.stats

replica_serveable : TabletType → Bool → Bool
replica_serveable replica serveable = serveable
replica_serveable another_type serveable = false

unfoldable pub is_valid_replica : Tablet → Bool
unfolding replica_serveable
is_valid_replica t = replica_serveable t.tablet_type (is_serveable t)

unfoldable pub trimmed_cells : List Text → List Text
trimmed_cells [] = []
trimmed_cells (cell ∷ rest) =
    let cells = trimmed_cells rest in
    if not (str_eq (trim_space cell) []) then trim_space cell ∷ cells else cells

unfoldable pub parse_cells : VitessSettings → List Text
unfolding trimmed_cells
parse_cells settings = trimmed_cells settings.cells

join_by : Text → List Text → Text
join_by sep [] = []
join_by sep (p ∷ []) = p
join_by sep (p ∷ (q ∷ ps)) = p ++ (sep ++ join_by sep (q ∷ ps))

-- `encode` is url.Values.Encode of one key and its value.
unfoldable pub construct_api_url : (Text → Text → Text) → VitessSettings → Text
unfolding join_by
construct_api_url encode settings =
    let trimmed = trim_right (λ c. c == b'/') settings.api in
    let api =
      if not (has_suffix trimmed (codes "/api")) then trimmed ++ codes "/api" else trimmed in
    let url =
      api ++ (codes "/keyspace/" ++ (settings.keyspace ++ (codes "/tablets/" ++ settings.shard))) in
    let cells = parse_cells settings in
    if ltb 0 (length cells)
    then url ++ (codes "?" ++ encode (codes "cells") (join_by (codes ",") cells))
    else url

unfoldable pub keep_replicas : List Text → List Tablet → List Tablet
keep_replicas valid_cells [] = []
keep_replicas valid_cells (tablet ∷ tablets) =
    let rest = keep_replicas valid_cells tablets in
    if has_valid_cell tablet valid_cells && is_valid_replica tablet then tablet ∷ rest else rest

unfoldable pub filter_replica_tablets : VitessSettings → List Tablet → List Tablet
unfolding keep_replicas
filter_replica_tablets settings tablets = keep_replicas (parse_cells settings) tablets

-- What the API answers: an error of the client or of the read, a status other than 200, or a body
-- with the tablets that the decoder makes of it and the decoder's error.
pub data ApiAnswer : Type 0 where
  failed : Text → ApiAnswer
  bad_status : Text → ApiAnswer
  decoded : List Tablet → Option Text → ApiAnswer

tablets_of : VitessSettings → ApiAnswer → List Tablet × Option Text
tablets_of settings (failed e) = ([], some e)
tablets_of settings (bad_status status) = ([], some status)
tablets_of settings (decoded tablets e) = (filter_replica_tablets settings tablets, e)

unfoldable pub parse_tablets :
    (Text → Text → Text) → (Text → ApiAnswer) → VitessSettings → List Tablet × Option Text
unfolding tablets_of
parse_tablets encode http_get settings =
    tablets_of settings (http_get (construct_api_url encode settings))
