-- ===== src/Config/Stores/Laws.antt =====
-- The round trips of the addresses of HAProxy.
use freno.Prelude.{
  ℕ, ◌^◌, ◌≤◌, ◌<◌, ◌≡◌, ◌≢◌, refl, ap, ◌∙◌, true, false, Option, some, List, [], ◌∷◌, ◌++◌, map,
  append_assoc, append-nil, All, All-append, arith,
}
use freno.Go.Int.{pos_part, neg_part}
use freno.Go.Text.{
  Text, Lacks, str_eq, str_eq_iff, trim_left, trim_right, split, split-Lacks, split-append_sep,
  is_space, trim_space, split_n2-append_sep, has_byte-append_sep,
}
use freno.Go.Trim.{IsSpaces, IsWord, trim_space_padded}
use freno.Go.Decimal.{itoa, atoi-itoa, itoa-above}
use freno.Config.Stores.{
  HostPort, HaproxySettings, Url, host_port, host_port_string, parse_host_port, host_port_url,
  parse_address, collect_addresses, parse_addresses,
}

-- A host without a colon, and a port of 64 bits.
abbrev pub IsPrintable : HostPort → Type 0
IsPrintable h = Lacks b':' h.host × (pos_part h.port < 2 ^ 63) × (neg_part h.port ≤ 2 ^ 63)

parse_host_port-host_port_string :
    (h : HostPort) → IsPrintable h → parse_host_port (host_port_string h) ≡ host_port h
unfolding parse_host_port host_port_string
parse_host_port-host_port_string h (l, p, q) = rw (
  has_byte-append_sep h.host (itoa h.port) b':',
  split_n2-append_sep h.host (itoa h.port) b':' l,
  atoi-itoa h.port p q,
)

-- An address between the white space around it.
pub record Entry : Type 0 where
  pub before : Text
  pub address : HostPort
  pub after : Text

abbrev pub print_entry : Entry → Text
print_entry e = e.before ++ (host_port_string e.address ++ e.after)

-- The entries with commas between them.
unfoldable pub print_entries : List Entry → Text
print_entries [] = []
print_entries (e ∷ []) = print_entry e
print_entries (e ∷ (f ∷ es)) = print_entry e ++ b',' ∷ print_entries (f ∷ es)

abbrev pub IsEntry : Entry → Type 0
IsEntry e =
    IsSpaces e.before
    × IsPrintable e.address
    × Lacks b',' e.address.host
    × IsWord e.address.host
    × IsSpaces e.after

above→Lacks : (b : ℕ) (s : Text) → All (λ c. b < c) s → Lacks b s
above→Lacks b [] h = tt
above→Lacks b (c ∷ s) (hc, hs) = (omega (arith, hc), above→Lacks b s hs)

above→IsWord : (s : Text) → All (λ c. 32 < c) s → IsWord s
above→IsWord [] h = tt
above→IsWord (c ∷ s) (hc, hs) = (ground (arith, hc), above→IsWord s hs)

IsSpaces→Lacks : (s : Text) → IsSpaces s → Lacks b',' s
IsSpaces→Lacks [] h = tt
IsSpaces→Lacks (c ∷ s) (hc, hs) = (ground (arith, hc), IsSpaces→Lacks s hs)

host_port_string-Lacks : (h : HostPort) → Lacks b',' h.host → Lacks b',' (host_port_string h)
unfolding host_port_string
host_port_string-Lacks h l =
    All-append (λ c. c ≢ b',') h.host (b':' ∷ itoa h.port) l
      (omega arith, above→Lacks b',' (itoa h.port) (itoa-above h.port b',' (omega arith)))

host_port_string-IsWord : (h : HostPort) → IsWord h.host → IsWord (host_port_string h)
unfolding host_port_string
host_port_string-IsWord h w =
    All-append (λ c. is_space c ≡ false) h.host (b':' ∷ itoa h.port) w
      (ground arith, above→IsWord (itoa h.port) (itoa-above h.port 32 (omega arith)))

print_entry-Lacks : (e : Entry) → IsEntry e → Lacks b',' (print_entry e)
print_entry-Lacks e (b, p, l, w, a) =
    All-append (λ c. c ≢ b',') e.before (host_port_string e.address ++ e.after)
      (IsSpaces→Lacks e.before b)
      (All-append (λ c. c ≢ b',') (host_port_string e.address) e.after
        (host_port_string-Lacks e.address l) (IsSpaces→Lacks e.after a))

split-print_entries :
    (e : Entry) (es : List Entry)
    → IsEntry e
    → All IsEntry es
    → split (print_entries (e ∷ es)) b',' ≡ map print_entry (e ∷ es)
unfolding print_entries
split-print_entries e [] h hs = split-Lacks (print_entry e) b',' (print_entry-Lacks e h)
split-print_entries e (f ∷ es) h (hf, hs) =
    split-append_sep (print_entry e) (print_entries (f ∷ es)) b',' (print_entry-Lacks e h)
    ∙ ap (λ ts. print_entry e ∷ ts) (split-print_entries f es hf hs)

trim_space-word :
    (l s r : Text) → s ≢ [] → IsSpaces l → IsWord s → IsSpaces r → trim_space (l ++ (s ++ r)) ≡ s
trim_space-word l [] r n hl hs hr = absurd (n refl)
trim_space-word l (c ∷ s) r n hl hs hr = trim_space_padded l c s r hl hs hr

append_sep-ne-nil : (s t : Text) (b : ℕ) → s ++ b ∷ t ≢ []
append_sep-ne-nil [] t b = λ e. ground (arith, e)
append_sep-ne-nil (c ∷ s) t b = λ e. ground (arith, e)

trim_space-print_entry :
    (e : Entry) → IsEntry e → trim_space (print_entry e) ≡ host_port_string e.address
unfolding host_port_string
trim_space-print_entry e (b, p, l, w, a) =
    trim_space-word e.before (host_port_string e.address) e.after
      (append_sep-ne-nil e.address.host (itoa e.address.port) b':') b
      (host_port_string-IsWord e.address w) a

host_port_string-not_empty : (h : HostPort) → str_eq (host_port_string h) [] ≡ false
unfolding host_port_string
host_port_string-not_empty h = ground (
  arith,
  str_eq_iff (h.host ++ b':' ∷ itoa h.port) [],
  append_sep-ne-nil h.host (itoa h.port) b':',
)

module _ (parse_url : Text → Option Url) where
  parse_address-host_port_string :
      (h : HostPort)
      → IsPrintable h
      → parse_address parse_url (host_port_string h) ≡ some (host_port_url parse_url h)
  unfolding parse_address
  parse_address-host_port_string h p = ground (arith, parse_host_port-host_port_string h p)

  collect_addresses-print_entry :
      (es : List Entry) (addresses : List (Option Url))
      → All IsEntry es
      → collect_addresses parse_url (map print_entry es) addresses
        ≡ (addresses ++ map (λ e. host_port_url parse_url e.address) es, true)
  unfolding collect_addresses
  collect_addresses-print_entry [] addresses h = rw (append-nil addresses) refl
  collect_addresses-print_entry (e ∷ es) addresses (h, hs) =
      let u = host_port_url parse_url e.address in
      ground (
        arith,
        trim_space-print_entry e h,
        host_port_string-not_empty e.address,
        parse_address-host_port_string e.address h.1,
        collect_addresses-print_entry es (addresses ++ u ∷ []) hs,
        append_assoc addresses (u ∷ []) (map (λ e. host_port_url parse_url e.address) es),
      )

  -- The addresses of HAProxy, printed as host:port with commas between them and any white space
  -- around each, are read back without an error as their URLs, in their order. A host has no colon,
  -- comma or white space, and a port is a 64-bit integer.
  pub parse_addresses-print_entries :
      (settings : HaproxySettings) (es : List Entry)
      → All IsEntry es
      → parse_addresses parse_url (record settings { addresses = print_entries es })
        ≡ (map (λ e. host_port_url parse_url e.address) es, true)
  unfolding parse_addresses
  parse_addresses-print_entries settings [] h =
      unfold split print_entries collect_addresses trim_space trim_right trim_left str_eq in refl
  parse_addresses-print_entries settings (e ∷ es) (h, hs) =
      rw (split-print_entries e es h hs) (collect_addresses-print_entry (e ∷ es) [] (h, hs))
