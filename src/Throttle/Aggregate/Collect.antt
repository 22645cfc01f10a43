-- ===== src/Throttle/Aggregate/Collect.antt =====
-- The loop over the probes, told by what it meets: how many errors use up tokens, whether a probe
-- is unread, and which values it gathers.
use mathlib.Core.Logic.{∥∥₁_elim}
use mathlib.Core.List.{Perm, Permᴰ, Perm-prop, perm_append_comm}
use mathlib.Core.List.Perm
use freno.Prelude.{
  ℕ, zero, suc, ◌+◌, ◌-◌, ◌≤◌, ◌<◌, ◌≡◌, refl, inl, inr, ◌⊎◌, ◌∙◌, List, [], ◌∷◌, ◌++◌,
  Option-cases, none, some, arith, append_assoc, append-nil,
}
use freno.Go.Int.{ℤ, pos, negsuc, pos_part}
use freno.Go.Float.{Float}
use freno.Mysql.Probe.{Probe, Probes}
use freno.Base.Metric.{MetricResult, no_metric_result_yet, Error, no_result_yet_error}
use freno.Throttle.Aggregate.{
  Inputs, Reading, not_found, ignored_error, unread, erred, value, reading, Collected, stopped,
  gathered, spend, collect,
}

abbrev pub value_of : Reading → List Float
value_of (value v) = v ∷ []
value_of not_found = []
value_of ignored_error = []
value_of unread = []
value_of (erred r) = []

abbrev pub error_of : Reading → ℕ
error_of (erred r) = 1
error_of not_found = 0
error_of ignored_error = 0
error_of unread = 0
error_of (value v) = 0

abbrev pub unread_of : Reading → ℕ
unread_of unread = 1
unread_of not_found = 0
unread_of ignored_error = 0
unread_of (erred r) = 0
unread_of (value v) = 0

-- The values that the probes have, in order.
unfoldable pub values_of : Inputs → Probes → List Float
values_of i [] = []
values_of i ((k, p) ∷ probes) = value_of (reading i p) ++ values_of i probes

-- The probes with an error that is not passed over.
unfoldable pub errors_of : Inputs → Probes → ℕ
errors_of i [] = 0
errors_of i ((k, p) ∷ probes) = error_of (reading i p) + errors_of i probes

-- The probes that have not been read yet.
unfoldable pub unreads_of : Inputs → Probes → ℕ
unreads_of i [] = 0
unreads_of i ((k, p) ∷ probes) = unread_of (reading i p) + unreads_of i probes

-- The tokens that are left after some are spent, none below zero.
unfoldable pub spent : ℕ → ℤ → ℤ
spent n (pos c) = pos (c - n)
spent n (negsuc c) = negsuc c

-- With a token for each error and no probe unread the loop gathers every value.
pub collect-gathered :
    (i : Inputs) (probes : Probes) (values : List Float) (count : ℤ)
    → unreads_of i probes ≡ 0
    → errors_of i probes ≤ pos_part count
    → collect i probes values count
      ≡ gathered (values ++ values_of i probes) (spent (errors_of i probes) count)
unfolding collect unreads_of errors_of values_of spent
collect-gathered i [] values (pos c) u e = ground (arith, append-nil values)
collect-gathered i [] values (negsuc c) u e = ground (arith, append-nil values)
collect-gathered i ((k, p) ∷ probes) values count u e =
    go (reading i p) refl count u e (collect-gathered i probes)
  where
    Goal : ℤ → Type 0
    Goal n =
        collect i ((k, p) ∷ probes) values n
        ≡ gathered (values ++ values_of i ((k, p) ∷ probes))
            (spent (errors_of i ((k, p) ∷ probes)) n)

    go :
        (r : Reading)
        → reading i p ≡ r
        → (n : ℤ) → unreads_of i ((k, p) ∷ probes) ≡ 0
        → errors_of i ((k, p) ∷ probes) ≤ pos_part n
        → ((vs : List Float) (m : ℤ)
            → unreads_of i probes ≡ 0
            → errors_of i probes ≤ pos_part m
            → collect i probes vs m
              ≡ gathered (vs ++ values_of i probes) (spent (errors_of i probes) m))
        → Goal n
    go not_found q n h g ih = ground (arith, q, ih values n)
    go ignored_error q n h g ih = ground (arith, q, ih values n)
    go unread q n h g ih = ground (arith, q)
    go (erred r) q (pos zero) h g ih = ground (arith, q)
    go (erred r) q (pos (suc c)) h g ih = ground (arith, q, ih values (pos c))
    go (erred r) q (negsuc c) h g ih = ground (arith, q)
    go (value v) q n h g ih =
        ground
          (arith, q, ih (values ++ v ∷ []) n, append_assoc values (v ∷ []) (values_of i probes))

-- An error of the program is the result of a metric that has one.
erred_has_error :
    (i : Inputs) (p : Probe) (r : MetricResult)
    → reading i p ≡ erred r
    → (e : Error) × (r.get.1 ≡ some e)
unfolding reading
erred_has_error i p r h = elim (Option-cases r.get.1) [
  | inl e ↦ absurd (ground (arith, e))
  | inr (e, q) ↦ (e, q)
]

-- The loop has stopped at a result that is an error.
abbrev pub StopsWithError : Collected → Type 0
StopsWithError c = (r : MetricResult) × (e : Error) × (c ≡ stopped r) × (r.get.1 ≡ some e)

abbrev pub Blocked : Inputs → Probes → ℤ → Type 0
Blocked i probes count = (0 < unreads_of i probes) ⊎ (pos_part count < errors_of i probes)

-- With a probe unread, or with more errors than tokens, the loop stops at a result that is an error.
pub collect-StopsWithError :
    (i : Inputs) (probes : Probes) (values : List Float) (count : ℤ)
    → Blocked i probes count
    → StopsWithError (collect i probes values count)
unfolding collect unreads_of errors_of
collect-StopsWithError i [] values count (inl h) = absurd (omega arith)
collect-StopsWithError i [] values count (inr h) = absurd (omega arith)
collect-StopsWithError i ((k, p) ∷ probes) values count h =
    go (reading i p) refl count h (collect-StopsWithError i probes)
  where
    from :
        (n m : ℤ) (vs : List Float)
        → collect i ((k, p) ∷ probes) values n ≡ collect i probes vs m
        → StopsWithError (collect i probes vs m)
        → StopsWithError (collect i ((k, p) ∷ probes) values n)
    from n m vs q (r, e, a, b) = (r, e, q ∙ a, b)

    stops :
        (n : ℤ) (r : MetricResult)
        → reading i p ≡ erred r
        → spend n ≡ none
        → StopsWithError (collect i ((k, p) ∷ probes) values n)
    stops n r q s = let (e, b) = erred_has_error i p r q in (r, e, ground (arith, q, s), b)

    go :
        (r : Reading)
        → reading i p ≡ r
        → (n : ℤ) → Blocked i ((k, p) ∷ probes) n
        → ((vs : List Float) (m : ℤ) → Blocked i probes m → StopsWithError (collect i probes vs m))
        → StopsWithError (collect i ((k, p) ∷ probes) values n)
    go not_found q n b ih = from n n values (ground (arith, q)) (ih values n (ground (arith, q, b)))
    go ignored_error q n b ih =
        from n n values (ground (arith, q)) (ih values n (ground (arith, q, b)))
    go unread q n b ih = (
      no_metric_result_yet,
      no_result_yet_error,
      ground (arith, q),
      unfold no_metric_result_yet in refl,
    )
    go (erred r) q (pos zero) b ih = stops (pos zero) r q refl
    go (erred r) q (pos (suc c)) b ih =
        from (pos (suc c)) (pos c) values (ground (arith, q))
          (ih values (pos c) (ground (arith, q, b)))
    go (erred r) q (negsuc c) b ih = stops (negsuc c) r q refl
    go (value v) q n b ih =
        from n n (values ++ v ∷ []) (ground (arith, q))
          (ih (values ++ v ∷ []) n (ground (arith, q, b)))

-- The two ways above are all there are.
pub Blocked-or :
    (i : Inputs) (probes : Probes) (count : ℤ)
    → Blocked i probes count ⊎ ((unreads_of i probes ≡ 0) × (errors_of i probes ≤ pos_part count))
Blocked-or i probes count = ground arith

append_swap_perm : (xs ys l : List Float) → Perm (xs ++ (ys ++ l)) (ys ++ (xs ++ l))
append_swap_perm xs ys l =
    rw (← append_assoc xs ys l, ← append_assoc ys xs l)
      (Perm.append_right l (perm_append_comm xs ys))

-- A permutation of the probes permutes the gathered values.
values_of-permᴰ :
    (i : Inputs) {ps qs : Probes} → Permᴰ ps qs → Perm (values_of i ps) (values_of i qs)
unfolding values_of
values_of-permᴰ i Permᴰ.nil = Perm.refl []
values_of-permᴰ i (Permᴰ.cons {a = a} {l₁ = l} e p) =
    rw (← e) (Perm.append (Perm.refl (value_of (reading i a.1))) (values_of-permᴰ i p))
values_of-permᴰ i (Permᴰ.swap {a = a} {b = b} {l = l} e f) =
    rw (← e, ← f)
      (append_swap_perm (value_of (reading i a.1)) (value_of (reading i b.1)) (values_of i l))
values_of-permᴰ i (Permᴰ.trans p q) = Perm.trans (values_of-permᴰ i p) (values_of-permᴰ i q)

-- It changes neither how many are unread nor how many have an error.
counts-permᴰ :
    (i : Inputs) {ps qs : Probes}
    → Permᴰ ps qs
    → (errors_of i ps ≡ errors_of i qs) × (unreads_of i ps ≡ unreads_of i qs)
unfolding errors_of unreads_of
counts-permᴰ i Permᴰ.nil = (refl, refl)
counts-permᴰ i (Permᴰ.cons e p) = rw (← e) (omega (arith, counts-permᴰ i p))
counts-permᴰ i (Permᴰ.swap e f) = rw (← e, ← f) (omega arith)
counts-permᴰ i (Permᴰ.trans p q) =
    ((counts-permᴰ i p).0 ∙ (counts-permᴰ i q).0, (counts-permᴰ i p).1 ∙ (counts-permᴰ i q).1)

pub values_of-perm :
    (i : Inputs) {ps qs : Probes} → Perm ps qs → Perm (values_of i ps) (values_of i qs)
values_of-perm i p = ∥∥₁_elim p Perm-prop (values_of-permᴰ i)

pub counts-perm :
    (i : Inputs) {ps qs : Probes}
    → Perm ps qs
    → (errors_of i ps ≡ errors_of i qs) × (unreads_of i ps ≡ unreads_of i qs)
counts-perm i p = ∥∥₁_elim p (hlevel) (counts-permᴰ i)
