-- ===== src/Haproxy/Parser/Lines.antt =====
-- What the lines of a status page list, by the cells of each line.
use freno.Prelude.{
  ℕ, ◌≡◌, ◌≢◌, ◌⊎◌, ◌↔◌, inl, inr, refl, Bool, true, false, ◌∙◌, ap, Option, some, List, [], ◌∷◌,
  ◌++◌, All, arith, Option-cases, Bool-cases,
}
use mathlib.Core.Path.{subst}
use freno.Go.Text.{Text, codes, split, str_eq, str_eq_iff, text_eq}
use freno.Go.Dict.{Dict}
use freno.Haproxy.Host.{BackendHost, new_backend_host}
use freno.Haproxy.Parser.{Row, elsewhere, pool_row, host_row, cell, parse_status, pool_line, row_of}

-- The cell of a line under a heading.
abbrev pub cell_of : Dict Text ℕ → Text → Text → Option Text
cell_of m heading line = cell m heading (split line b',')

-- The hosts that one line lists: none for a line of another pool and for the rows BACKEND and
-- FRONTEND of the pool itself, and the host of any other line of the pool.
pub data LineLists (m : Dict Text ℕ) (pool_name line : Text) : List BackendHost → Type 0 where
  other_pool :
      (pool : Text)
      → cell_of m (codes "pxname") line ≡ some pool
      → pool ≢ pool_name
      → LineLists m pool_name line []
  own_row :
      (host : Text)
      → cell_of m (codes "pxname") line ≡ some pool_name
      → cell_of m (codes "svname") line ≡ some host
      → (host ≡ codes "BACKEND") ⊎ (host ≡ codes "FRONTEND")
      → LineLists m pool_name line []
  host_line :
      (host status : Text)
      → cell_of m (codes "pxname") line ≡ some pool_name
      → cell_of m (codes "svname") line ≡ some host
      → host ≢ codes "BACKEND"
      → host ≢ codes "FRONTEND"
      → cell_of m (codes "status") line ≡ some status
      → LineLists m pool_name line (
          record {
            hostname = host;
            status = (parse_status status).0;
            is_transitioning = (parse_status status).1;
          }
          ∷ [])

-- The hosts that the lines list, in order.
pub data Lists (m : Dict Text ℕ) (pool_name : Text) : List Text → List BackendHost → Type 0 where
  no_lines : Lists m pool_name [] []
  one_more :
      (line : Text) (lines : List Text) (xs hosts : List BackendHost)
      → LineLists m pool_name line xs
      → Lists m pool_name lines hosts
      → Lists m pool_name (line ∷ lines) (xs ++ hosts)

-- No line is of the pool.
abbrev pub NoPool : Dict Text ℕ → Text → List Text → Type 0
NoPool m pool_name = All (λ line. cell_of m (codes "pxname") line ≢ some pool_name)

-- The hosts of a row, and whether it is of the pool.
abbrev pub hosts_in : Row → List BackendHost
hosts_in elsewhere = []
hosts_in pool_row = []
hosts_in (host_row host) = host ∷ []

abbrev pub in_pool : Row → Bool
in_pool elsewhere = false
in_pool pool_row = true
in_pool (host_row host) = true

-- What is known of a line by its row.
abbrev IsRow : Dict Text ℕ → Text → Text → Row → Type 0
IsRow m pool_name line row =
    LineLists m pool_name line (hosts_in row)
    × ((in_pool row ≡ false) ↔ (cell_of m (codes "pxname") line ≢ some pool_name))

-- A line of the pool.
pool_line_lem :
    (m : Dict Text ℕ) (pool_name line host : Text) (status : Option Text) (row : Row)
    → cell_of m (codes "pxname") line ≡ some pool_name
    → cell_of m (codes "svname") line ≡ some host
    → cell_of m (codes "status") line ≡ status
    → pool_line host status ≡ some row
    → IsRow m pool_name line row
unfolding pool_line new_backend_host
pool_line_lem m pool_name line host status row p q r h =
    elim (Bool-cases (str_eq host (codes "BACKEND"))) [
      | inl b ↦
          let same : pool_row ≡ row = ground (arith, h, b) in
          subst (IsRow m pool_name line) same
            (own_row host p q (inl ((str_eq_iff host (codes "BACKEND")).0 b)), ground (arith, p))
      | inr b ↦ elim (Bool-cases (str_eq host (codes "FRONTEND"))) [
        | inl f ↦
            let same : pool_row ≡ row = ground (arith, h, b, f) in
            subst (IsRow m pool_name line) same
              (own_row host p q (inr ((str_eq_iff host (codes "FRONTEND")).0 f)), ground (arith, p))
        | inr f ↦ elim (Option-cases status) [
          | inl n ↦ absurd (ground (arith, h, b, f, n))
          | inr (s, e) ↦
              let same : host_row (new_backend_host host (parse_status s).0 (parse_status s).1)
                  ≡ row =
                ground (arith, h, b, f, e) in
              subst (IsRow m pool_name line) same (
                host_line host s p q
                    (λ k. ground (arith, b, (str_eq_iff host (codes "BACKEND")).1 k))
                    (λ k. ground (arith, f, (str_eq_iff host (codes "FRONTEND")).1 k)) (r ∙ e),
                ground (arith, p),
              )
        ]
      ]
    ]

-- The row of a line lists what the line does.
pub row_of_lem :
    (m : Dict Text ℕ) (pool_name line : Text) (row : Row)
    → row_of m pool_name line ≡ some row
    → LineLists m pool_name line (hosts_in row)
      × ((in_pool row ≡ false) ↔ (cell_of m (codes "pxname") line ≢ some pool_name))
unfolding row_of
row_of_lem m pool_name line row h = elim (Option-cases (cell_of m (codes "pxname") line)) [
  | inl n ↦ absurd (ground (arith, h, n))
  | inr (pool, p) ↦ elim (Bool-cases (str_eq pool pool_name)) [
    | inr d ↦
        let same : elsewhere ≡ row = ground (arith, h, p, d) in
        subst (IsRow m pool_name line) same (
          other_pool pool p (λ k. ground (arith, d, (str_eq_iff pool pool_name).1 k)),
          ground (arith, p, d, str_eq_iff pool pool_name),
        )
    | inl d ↦ elim (Option-cases (cell_of m (codes "svname") line)) [
      | inl n ↦ absurd (ground (arith, h, p, d, n))
      | inr (host, q) ↦
          pool_line_lem m pool_name line host (cell_of m (codes "status") line) row
            (p ∙ ap some ((str_eq_iff pool pool_name).0 d)) q refl (ground (arith, h, p, d, q))
    ]
  ]
]
