-- ===== src/Haproxy/Parser/Laws.antt =====
-- The laws of ParseHosts: its counts are those of the hosts that it returns, and its errors say
-- what they mean.
use freno.Prelude.{
  ℕ, ◌<◌, ◌≡◌, ◌≢◌, ◌↔◌, refl, ◌∙◌, Bool, true, false, ◌&&◌, Option, none, some, List, [], ◌∷◌,
  ◌++◌, arith, length, count_of, length-append, count_of-le, append_assoc, append-nil, sym, ◌||◌,
  count_of-append, Option-cases, inl, inr,
}
use mathlib.Core.Path.{subst}
use freno.Go.Text.{Text}
use freno.Go.Dict.{Dict}
use freno.Haproxy.Host.{BackendHost, is_status_up}
use freno.Haproxy.Parser.Lines.{Lists, no_lines, one_more, NoPool, hosts_in, in_pool, row_of_lem}
use freno.Haproxy.Parser.{
  HaproxyError, all_up_hosts_transitioning, all_hosts_transitioning, missing_pool, Tally, no_tally,
  add_host, Row, elsewhere, pool_row, host_row, row_of, apply_row, scan_line, scan_lines, verdict,
  parse_hosts, parse_header,
}

abbrev pub is_up : BackendHost → Bool
is_up h = is_status_up h.status

abbrev pub in_transition : BackendHost → Bool
in_transition h = h.is_transitioning

abbrev pub up_in_transition : BackendHost → Bool
up_in_transition h = is_status_up h.status && h.is_transitioning

-- The counters count the hosts.
pub record IsTally (t : Tally) : Type 0 where
  pub hosts : t.count_hosts ≡ length t.backend_hosts
  pub ups : t.count_up_hosts ≡ count_of is_up t.backend_hosts
  pub transitioning : t.count_transitioning_hosts ≡ count_of in_transition t.backend_hosts
  pub transitioning_ups : t.count_transitioning_up_hosts ≡ count_of up_in_transition t.backend_hosts
  pub found : t.backend_hosts ≢ [] → t.pool_found ≡ true

add_host-IsTally : (t : Tally) (h : BackendHost) → IsTally t → IsTally (add_host t h)
unfolding add_host
add_host-IsTally t h i = record {
  hosts = omega (arith, length-append t.backend_hosts (h ∷ []), i.hosts);
  ups = ground (arith, count_of-append is_up t.backend_hosts (h ∷ []), i.ups);
  transitioning =
      ground (arith, count_of-append in_transition t.backend_hosts (h ∷ []), i.transitioning);
  transitioning_ups =
      ground
        (arith, count_of-append up_in_transition t.backend_hosts (h ∷ []), i.transitioning_ups);
  found = λ e. refl;
}

-- The rows of the lines, in order; `none` where a line makes the program panic.
unfoldable pub rows_of : Dict Text ℕ → Text → List Text → Option (List Row)
rows_of m pool_name [] = some []
rows_of m pool_name (line ∷ lines) = elim (row_of m pool_name line) [
  | none ↦ none
  | some row ↦ elim (rows_of m pool_name lines) [ none ↦ none | some rows ↦ some (row ∷ rows) ]
]

-- The hosts among the rows.
abbrev pub hosts_of : List Row → List BackendHost
hosts_of [] = []
hosts_of (row ∷ rows) = hosts_in row ++ hosts_of rows

-- Whether a row is of the pool.
abbrev shows_pool : List Row → Bool
shows_pool [] = false
shows_pool (row ∷ rows) = in_pool row || shows_pool rows

-- The rows list what the lines do.
rows_of-Lists :
    (m : Dict Text ℕ) (pool_name : Text) (lines : List Text) (rows : List Row)
    → rows_of m pool_name lines ≡ some rows
    → Lists m pool_name lines (hosts_of rows)
      × ((shows_pool rows ≡ false) ↔ NoPool m pool_name lines)
unfolding rows_of
rows_of-Lists m pool_name [] rows h =
    let same : [] ≡ rows = ground (arith, h) in
    subst (λ r. Lists m pool_name [] (hosts_of r) × ((shows_pool r ≡ false) ↔ Unit)) same
      (no_lines, ((λ e. tt), (λ e. refl)))
rows_of-Lists m pool_name (line ∷ lines) rows h = elim (Option-cases (row_of m pool_name line)) [
  | inl n ↦ absurd (ground (arith, h, n))
  | inr (row, e) ↦ elim (Option-cases (rows_of m pool_name lines)) [
    | inl n ↦ absurd (ground (arith, h, e, n))
    | inr (rest, f) ↦
        let same : row ∷ rest ≡ rows = ground (arith, h, e, f) in
        let (l, k) = row_of_lem m pool_name line row e in
        let (ls, ks) = rows_of-Lists m pool_name lines rest f in
        subst
          (λ r.
            Lists m pool_name (line ∷ lines) (hosts_of r)
            × ((shows_pool r ≡ false) ↔ NoPool m pool_name (line ∷ lines)))
          same
          (
            one_more line lines (hosts_in row) (hosts_of rest) l ls,
            (
              (λ b. (k.0 (ground (arith, b)), ks.0 (ground (arith, b)))),
              (λ b. ground (arith, k.1 b.0, ks.1 b.1)),
            ),
          )
  ]
]

apply_rows : Tally → List Row → Tally
apply_rows t [] = t
apply_rows t (row ∷ rows) = apply_rows (apply_row t row) rows

scan_lines-rows_of :
    (m : Dict Text ℕ) (pool_name : Text) (t : Tally) (lines : List Text)
    → scan_lines m pool_name t lines
      ≡ elim (rows_of m pool_name lines) [ none ↦ none | some rows ↦ some (apply_rows t rows) ]
unfolding scan_lines scan_line rows_of apply_rows
scan_lines-rows_of m pool_name t [] = refl
scan_lines-rows_of m pool_name t (line ∷ lines) = elim (Option-cases (row_of m pool_name line)) [
  | inl n ↦ ground (arith, n)
  | inr (row, q) ↦ ground (arith, q, scan_lines-rows_of m pool_name (apply_row t row) lines)
]

apply_row-IsTally : (t : Tally) (row : Row) → IsTally t → IsTally (apply_row t row)
unfolding apply_row
apply_row-IsTally t elsewhere i = i
apply_row-IsTally t pool_row i = record {
  hosts = i.hosts;
  ups = i.ups;
  transitioning = i.transitioning;
  transitioning_ups = i.transitioning_ups;
  found = λ n. refl;
}
apply_row-IsTally t (host_row h) i = add_host-IsTally t h i

-- The rows fill the tally: its hosts are those of the rows, behind the ones before.
apply_rows_lem :
    (t : Tally) (rows : List Row)
    → IsTally t
    → IsTally (apply_rows t rows)
      × ((apply_rows t rows).backend_hosts ≡ t.backend_hosts ++ hosts_of rows)
      × ((apply_rows t rows).pool_found ≡ (t.pool_found || shows_pool rows))
unfolding apply_rows apply_row add_host
apply_rows_lem t [] i = (i, sym (append-nil t.backend_hosts), ground arith)
apply_rows_lem t (elsewhere ∷ rows) i = apply_rows_lem t rows i
apply_rows_lem t (pool_row ∷ rows) i =
    let (j, h, f) =
      apply_rows_lem (record t { pool_found = true }) rows (apply_row-IsTally t pool_row i) in
    (j, h, ground (arith, f))
apply_rows_lem t (host_row x ∷ rows) i =
    let (j, h, f) = apply_rows_lem (add_host t x) rows (add_host-IsTally t x i) in
    (j, h ∙ append_assoc t.backend_hosts (x ∷ []) (hosts_of rows), ground (arith, f))

no_tally-IsTally : IsTally no_tally
no_tally-IsTally = record {
  hosts = refl;
  ups = refl;
  transitioning = refl;
  transitioning_ups = refl;
  found = λ n. absurd (n refl);
}

-- A result of ParseHosts on at least two lines comes from a tally of its hosts.
parse_hosts-tally :
    (header line : Text) (lines : List Text) (pool_name : Text) (hosts : List BackendHost)
    (e : Option HaproxyError)
    → parse_hosts (header ∷ line ∷ lines) pool_name ≡ some (hosts, e)
    → (t : Tally) × (rows : List Row) × IsTally t
      × (t.backend_hosts ≡ hosts)
      × (verdict t ≡ e)
      × (rows_of (parse_header header) pool_name (line ∷ lines) ≡ some rows)
      × (t.backend_hosts ≡ hosts_of rows)
      × (t.pool_found ≡ shows_pool rows)
unfolding parse_hosts
parse_hosts-tally header line lines pool_name hosts e h =
    let m = parse_header header in
    elim (Option-cases (rows_of m pool_name (line ∷ lines))) [
      | inl n ↦
          absurd (ground (arith, n, h, scan_lines-rows_of m pool_name no_tally (line ∷ lines)))
      | inr (rows, q) ↦
          let (i, b, f) = apply_rows_lem no_tally rows no_tally-IsTally in
          (
            apply_rows no_tally rows,
            rows,
            i,
            ground (arith, q, h, scan_lines-rows_of m pool_name no_tally (line ∷ lines)),
            ground (arith, q, h, scan_lines-rows_of m pool_name no_tally (line ∷ lines)),
            q,
            b,
            f,
          )
    ]

-- Every host is in transition.
abbrev pub AllInTransition : List BackendHost → Type 0
AllInTransition hosts = (hosts ≢ []) × (count_of in_transition hosts ≡ length hosts)

-- Some host is up, and every such host is in transition.
abbrev pub AllUpInTransition : List BackendHost → Type 0
AllUpInTransition hosts =
    (0 < count_of is_up hosts) × (count_of up_in_transition hosts ≡ count_of is_up hosts)

length-pos : (hosts : List BackendHost) → hosts ≢ [] → 0 < length hosts
length-pos [] h = absurd (h refl)
length-pos (x ∷ xs) h = omega arith

length-zero : (hosts : List BackendHost) → 0 < length hosts → hosts ≢ []
length-zero [] h = absurd (omega arith)
length-zero (x ∷ xs) h = cc

-- A status page with at least two lines that is read without a panic: the hosts are, in order, one
-- for each line whose pool is the one asked for and whose server is neither BACKEND nor FRONTEND,
-- with the server's name and with the status and transition of its status cell as parseStatus reads
-- them, and no others. The error is that of a missing pool exactly when no line is of the pool,
-- that of all hosts in transition exactly when there is a host and each is in transition, and that
-- of all up hosts in transition exactly when some host is up, each such host is in transition, and
-- not all hosts are.
pub parse_hosts-Lists :
    (header line : Text) (lines : List Text) (pool_name : Text) (hosts : List BackendHost)
    (e : Option HaproxyError)
    → parse_hosts (header ∷ line ∷ lines) pool_name ≡ some (hosts, e)
    → Lists (parse_header header) pool_name (line ∷ lines) hosts
      × ((e ≡ some missing_pool) ↔ NoPool (parse_header header) pool_name (line ∷ lines))
      × ((e ≡ some all_hosts_transitioning) ↔ AllInTransition hosts)
      × ((e ≡ some all_up_hosts_transitioning)
          ↔ (AllUpInTransition hosts × (count_of in_transition hosts ≢ length hosts)))
unfolding verdict
parse_hosts-Lists header line lines pool_name hosts e h =
    let (t, rows, i, same, v, r, b, f) = parse_hosts-tally header line lines pool_name hosts e h in
    let (listed, shown) = rows_of-Lists (parse_header header) pool_name (line ∷ lines) rows r in
    let missing : (e ≡ some missing_pool) ↔ (shows_pool rows ≡ false) =
      ground (arith, same, v, f, i.hosts) in
    (
      subst (Lists (parse_header header) pool_name (line ∷ lines)) (sym (sym same ∙ b)) listed,
      ((λ k. shown.0 (missing.0 k)), (λ k. missing.1 (shown.1 k))),
      ground (
        arith,
        same,
        v,
        f,
        i.hosts,
        i.transitioning,
        i.found,
        length-pos hosts,
        length-zero hosts,
      ),
      ground (
        arith,
        same,
        v,
        f,
        i.hosts,
        i.ups,
        i.transitioning,
        i.transitioning_ups,
        i.found,
        length-pos hosts,
        length-zero hosts,
        count_of-le is_up hosts,
      ),
    )
