-- ===== src/Haproxy/Parser.antt =====
-- pkg/haproxy/parser.go. A result `none` is the panic of an index out of range. `Read` takes the
-- answer of the HTTP client as an argument; its limit on concurrent requests is not modelled.
pub mod Laws
pub mod Lines
mod Tests
use freno.Prelude.{
  ℕ, zero, suc, ◌+◌, ◌-◌, ◌<◌, ◌==◌, Bool, true, false, not, ◌&&◌, Option, none, some, List, [],
  ◌∷◌, ◌++◌, if◌then◌else◌, get_elem?, or_else, ltb,
}
use freno.Go.Text.{Text, codes, str_eq, split, contains, trim_left, trim_space, text_eq}
use freno.Go.Dict.{Dict, lookup, insert}
use freno.Go.Time.{Time, second}
use freno.Cache.Api.{CacheApi, default_expiration}
use freno.Haproxy.Host.{
  BackendHostStatus, BackendHost, status_no_check, to_backend_host_status, new_backend_host,
  is_status_up, is_status_no_check,
}

pub data HaproxyError : Type 0 where
  empty_body empty_status partial_status missing_pool : HaproxyError
  all_up_hosts_transitioning all_hosts_transitioning : HaproxyError

index_tokens : ℕ → List Text → Dict Text ℕ → Dict Text ℕ
index_tokens i [] tokens_map = tokens_map
index_tokens i (token ∷ tokens) tokens_map = index_tokens (i + 1) tokens (insert token i tokens_map)

pub parse_header : Text → Dict Text ℕ
unfolding index_tokens
parse_header header =
    index_tokens 0 (split (trim_space (trim_left (λ c. c == b'#') header)) b',') []

unfoldable pub parse_lines : Text → List Text
parse_lines csv = split csv 10

-- Whether the text behind the first blank of a status has a slash. The first token is there always.
second_has_slash : List Text → Bool
second_has_slash [] = false
second_has_slash (t ∷ []) = false
second_has_slash (t ∷ (u ∷ rest)) = contains u (codes "/")

first_token : List Text → Text
first_token [] = []
first_token (t ∷ rest) = t

unfoldable pub parse_status : Text → BackendHostStatus × Bool
unfolding second_has_slash first_token
parse_status full_status =
    if is_status_no_check (to_backend_host_status full_status) then (status_no_check, false) else (
      to_backend_host_status (first_token (split full_status b' ')),
      second_has_slash (split full_status b' '),
    )

-- tokens[tokensMap[name]]
pub cell : Dict Text ℕ → Text → List Text → Option Text
cell tokens_map name tokens = get_elem? tokens (or_else (lookup name tokens_map) 0)

-- The variables of the loop of ParseHosts.
pub record Tally : Type 0 where
  pub backend_hosts : List BackendHost
  pub pool_found : Bool
  pub count_hosts : ℕ
  pub count_up_hosts : ℕ
  pub count_transitioning_hosts : ℕ
  pub count_transitioning_up_hosts : ℕ

abbrev pub no_tally : Tally
no_tally = record {
  backend_hosts = [];
  pool_found = false;
  count_hosts = 0;
  count_up_hosts = 0;
  count_transitioning_hosts = 0;
  count_transitioning_up_hosts = 0;
}

bump : Bool → ℕ → ℕ
bump true n = n + 1
bump false n = n

pub add_host : Tally → BackendHost → Tally
unfolding bump
add_host t host = record {
  backend_hosts = t.backend_hosts ++ host ∷ [];
  pool_found = true;
  count_hosts = t.count_hosts + 1;
  count_up_hosts = bump (is_status_up host.status) t.count_up_hosts;
  count_transitioning_hosts = bump host.is_transitioning t.count_transitioning_hosts;
  count_transitioning_up_hosts =
      bump (is_status_up host.status && host.is_transitioning) t.count_transitioning_up_hosts;
}

-- What a line is: of another pool, the pool's own row, or a host of the pool.
pub data Row : Type 0 where
  elsewhere pool_row : Row
  host_row : BackendHost → Row

-- A line of the pool, by its host and its status. The status is looked at only for a host.
pool_line : Text → Option Text → Option Row
pool_line host status =
    if not (str_eq host (codes "BACKEND")) && not (str_eq host (codes "FRONTEND"))
    then elim status [
      | none ↦ none
      | some s ↦ some (host_row (new_backend_host host (parse_status s).0 (parse_status s).1))
    ]
    else some pool_row

unfoldable pub row_of : Dict Text ℕ → Text → Text → Option Row
unfolding pool_line
row_of tokens_map pool_name line =
    let tokens = split line b',' in
    elim (cell tokens_map (codes "pxname") tokens) [
      | none ↦ none
      | some pool ↦ elim (str_eq pool pool_name) [
        | false ↦ some elsewhere
        | true ↦ elim (cell tokens_map (codes "svname") tokens) [
          | none ↦ none
          | some host ↦ pool_line host (cell tokens_map (codes "status") tokens)
        ]
      ]
    ]

pub apply_row : Tally → Row → Tally
apply_row t elsewhere = t
apply_row t pool_row = record t { pool_found = true }
apply_row t (host_row host) = add_host t host

pub scan_line : Dict Text ℕ → Text → Tally → Text → Option Tally
scan_line tokens_map pool_name t line = elim (row_of tokens_map pool_name line) [
  | none ↦ none
  | some row ↦ some (apply_row t row)
]

pub scan_lines : Dict Text ℕ → Text → Tally → List Text → Option Tally
scan_lines tokens_map pool_name t [] = some t
scan_lines tokens_map pool_name t (line ∷ lines) = elim (scan_line tokens_map pool_name t line) [
  | none ↦ none
  | some t' ↦ scan_lines tokens_map pool_name t' lines
]

pub verdict : Tally → Option HaproxyError
verdict t =
    if not t.pool_found
    then some missing_pool
    else if t.count_transitioning_hosts == t.count_hosts && ltb 0 t.count_hosts
    then some all_hosts_transitioning
    else if t.count_transitioning_up_hosts == t.count_up_hosts && ltb 0 t.count_up_hosts
    then some all_up_hosts_transitioning
    else none

of_tally : Option Tally → Option (List BackendHost × Option HaproxyError)
of_tally none = none
of_tally (some t) = some (t.backend_hosts, verdict t)

unfoldable pub parse_hosts : List Text → Text → Option (List BackendHost × Option HaproxyError)
unfolding of_tally
parse_hosts [] pool_name = some ([], some empty_status)
parse_hosts (header ∷ []) pool_name = some ([], some partial_status)
parse_hosts (header ∷ (line ∷ lines)) pool_name =
    of_tally (scan_lines (parse_header header) pool_name no_tally (line ∷ lines))

unfoldable pub parse_csv_hosts : Text → Text → Option (List BackendHost × Option HaproxyError)
unfolding parse_lines parse_hosts
parse_csv_hosts csv pool_name = parse_hosts (parse_lines csv) pool_name

-- What Read returns: the CSV text, an error of the client, or the error of an empty body.
pub data ReadResult : Type 0 where
  csv : Text → ReadResult
  client_error : Text → ReadResult
  no_body : HaproxyError → ReadResult

-- What the client makes of a URL: the body, or an error of the request or of reading the body.
pub data Response : Type 0 where
  body : Text → Response
  no_response : Text → Response

module _ ⦃c : CacheApi⦄ where
  fetched : c.Cache Text → Time → Text → Response → ReadResult × c.Cache Text
  fetched csv_cache now url (no_response e) = (client_error e, csv_cache)
  fetched csv_cache now url (body []) = (no_body empty_body, csv_cache)
  fetched csv_cache now url (body (b ∷ bs)) =
      (csv (b ∷ bs), c.set Text csv_cache now url (b ∷ bs) default_expiration)

  -- Read, by the URL that toCSVUrl makes of the page's: the page is fetched only where the cache
  -- has none, which keeps it for a second.
  unfoldable pub read : (Text → Response) → c.Cache Text → Time → Text → ReadResult × c.Cache Text
  unfolding fetched
  read http_get csv_cache now haproxy_url = elim (c.get Text csv_cache now haproxy_url) [
    | some cached_csv ↦ (csv cached_csv, csv_cache)
    | none ↦ fetched csv_cache now haproxy_url (http_get haproxy_url)
  ]
