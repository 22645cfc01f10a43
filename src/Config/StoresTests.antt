-- ===== src/Config/StoresTests.antt =====
-- The theorem on the addresses of HAProxy at two addresses.
use freno.Prelude.{◌≡◌, true, Option, some, List, [], ◌∷◌, map, arith}
use freno.Go.Text.{Text, codes}
use freno.Go.Int.{pos}
use freno.Config.Stores.{HaproxySettings, Url, host_port_url, parse_addresses}
use freno.Config.Stores.Laws.{Entry, print_entries, parse_addresses-print_entries}

-- An URL whose host part is the whole text.
abbrev parse_url : Text → Option Url
parse_url address = some (record { text = address; url_host = address })

abbrev entries : List Entry
entries =
    record {
      before = codes " ";
      address = record { host = codes "proxy-1"; port = pos 1001 };
      after = codes "  ";
    }
    ∷ (record {
      before = [];
      address = record { host = codes "proxy-2"; port = pos 80 };
      after = [];
    }
        ∷ [])

abbrev settings : HaproxySettings
settings = record { host = []; port = pos 0; addresses = []; pool_name = codes "pool" }

parse_addresses-print_entries_example :
    parse_addresses parse_url (record settings { addresses = print_entries entries })
    ≡ (map (λ e. host_port_url parse_url e.address) entries, true)
parse_addresses-print_entries_example =
    parse_addresses-print_entries parse_url settings entries (ground arith)
