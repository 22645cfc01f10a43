-- ===== src/Throttle/Sweep/Laws.antt =====
-- A sweep that interleaves with requests takes no throttle away that had not ended when it began.
use freno.Prelude.{
  ℕ, ◌<◌, ◌≡◌, refl, sym, ap, ◌∙◌, Bool, true, false, not, ◌&&◌, Option, none, some, List, [], ◌∷◌,
  ◌==◌, ==_iff, Option-cases, Bool-cases, inl, inr, All, arith,
}
use freno.Go.Text.{Text, str_eq, str_eq_iff, text_eq}
use freno.Go.Float.{Float}
use freno.Go.Dict.{Dict, All-lookup}
use freno.Go.Time.{Time, is_zero, before}
use freno.Base.Metric.{AppThrottle}
use freno.Cache.Api.{CacheApi}
use freno.Throttle.Apps.{expired, next_throttle}
use freno.Throttle.Sweep.{
  pointed, Request, throttle, unthrottle, Action, request, sweep_step, Sweep, testing, deleting,
  Shared, shared_unthrottle, shared_throttle, serve_request, sweep, begin_sweep, interleave, shown,
}
use freno.Throttle.Sweep.Values.{
  requested, IsOwned, next_address_bounds, shown-shared_unthrottle, shared_unthrottle-IsOwned,
  serve_request-IsOwned, shown-serve_request,
}

-- The requests among some actions, in their order.
unfoldable pub requested_all : Text → List Action → Option AppThrottle → Option AppThrottle
requested_all name [] a = a
requested_all name (request now r ∷ actions) a = requested_all name actions (requested name now r a)
requested_all name (sweep_step ∷ actions) a = requested_all name actions a

-- The time is an end, and before `now`.
abbrev pub ended : Time → Time → Bool
ended now expire_at = not (is_zero expire_at) && before expire_at now

-- A throttle of the app does not end before the sweep's time.
abbrev pub KeepsUp : Time → Text → Action → Type 0
KeepsUp now name (request time (throttle app_name expire_at ratio)) =
    str_eq app_name name ≡ true → ended now expire_at ≡ false
KeepsUp now name (request time (unthrottle app_name)) = Unit
KeepsUp now name sweep_step = Unit

expired-next_throttle :
    (now : Time) (old : Option AppThrottle) (expire_at : Time) (ratio : Float)
    → ended now expire_at ≡ false
    → expired now (next_throttle old expire_at ratio) ≡ false
unfolding next_throttle
expired-next_throttle now none expire_at ratio h = ground (arith, h)
expired-next_throttle now (some a) expire_at ratio h = ground (arith, h)

module _ ⦃c : CacheApi⦄ (now : Time) (name : Text) where
  -- An entry of the list of the sweep: its address is the app's own, and has not ended where the app
  -- is the one looked at.
  IsFresh : Shared → Text → ℕ → Type 0
  IsFresh s app_name p =
      (s.owner p ≡ app_name)
      × (p < s.next)
      × (str_eq app_name name ≡ true → expired now (s.heap p) ≡ false)

  shared_throttle-IsFresh :
      (s : Shared) (time : Time) (other : Text) (expire_at : Time) (ratio : Float) (app_name : Text)
      (p : ℕ)
      → IsOwned s
      → (str_eq other name ≡ true → ended now expire_at ≡ false)
      → IsFresh s app_name p
      → IsFresh (shared_throttle s time other expire_at ratio) app_name p
  unfolding IsFresh shared_throttle
  shared_throttle-IsFresh s time other expire_at ratio app_name p o l f =
      let bounds = next_address_bounds s time other o in
      elim (Option-cases (c.get ℕ s.entries time other)) [
        | inl n ↦ ground (arith, n, f, bounds, ==_iff s.next p)
        | inr (q, e) ↦ elim (Bool-cases (q == p)) [
          | inr d ↦ ground (arith, e, d, f, bounds)
          | inl d ↦
              let same : q ≡ p = (==_iff q p).0 d in
              let owners : other ≡ app_name =
                sym (o.owned time other q e).0 ∙ ap s.owner same ∙ f.0 in
              let a = expired-next_throttle now (some (s.heap q)) expire_at ratio in
              ground (
                arith,
                e,
                d,
                f,
                bounds,
                owners,
                l,
                a,
                str_eq_iff other name,
                str_eq_iff app_name name,
              )
        ]
      ]

  AllFresh : Shared → Dict Text ℕ → Type 0
  unfolding IsFresh
  AllFresh s items = All (λ item. IsFresh s item.0 item.1) items

  shared_throttle-AllFresh :
      (s : Shared) (time : Time) (other : Text) (expire_at : Time) (ratio : Float)
      (items : Dict Text ℕ)
      → IsOwned s
      → (str_eq other name ≡ true → ended now expire_at ≡ false)
      → AllFresh s items
      → AllFresh (shared_throttle s time other expire_at ratio) items
  unfolding AllFresh
  shared_throttle-AllFresh s time other expire_at ratio [] o l f = tt
  shared_throttle-AllFresh s time other expire_at ratio ((app_name, p) ∷ items) o l (f, fs) = (
    shared_throttle-IsFresh s time other expire_at ratio app_name p o l f,
    shared_throttle-AllFresh s time other expire_at ratio items o l fs,
  )

  shared_unthrottle-AllFresh :
      (s : Shared) (other : Text) (items : Dict Text ℕ)
      → AllFresh s items
      → AllFresh (shared_unthrottle s other) items
  unfolding AllFresh shared_unthrottle
  shared_unthrottle-AllFresh s other [] f = tt
  shared_unthrottle-AllFresh s other (item ∷ items) (f, fs) =
      (f, shared_unthrottle-AllFresh s other items fs)

  -- The sweep is not about to delete the app, and will not be.
  Spares : Shared → Sweep → Type 0
  unfolding AllFresh
  Spares s (testing items) = AllFresh s items
  Spares s (deleting app_name items) = (str_eq app_name name ≡ false) × AllFresh s items

  serve_request-Spares :
      (s : Shared) (time : Time) (r : Request) (sweeping : Sweep)
      → IsOwned s
      → KeepsUp now name (request time r)
      → Spares s sweeping
      → Spares (serve_request s time r) sweeping
  unfolding Spares serve_request
  serve_request-Spares s time (throttle app_name expire_at ratio) (testing items) o l f =
      shared_throttle-AllFresh s time app_name expire_at ratio items o l f
  serve_request-Spares s time (throttle app_name expire_at ratio) (deleting n items) o l (d, f) =
      (d, shared_throttle-AllFresh s time app_name expire_at ratio items o l f)
  serve_request-Spares s time (unthrottle app_name) (testing items) o l f =
      shared_unthrottle-AllFresh s app_name items f
  serve_request-Spares s time (unthrottle app_name) (deleting n items) o l (d, f) =
      (d, shared_unthrottle-AllFresh s app_name items f)

  -- What a step of the sweep leaves: the shown throttle, and what the induction needs.
  sweep-Spares :
      (s : Shared) (sweeping : Sweep) (u : Time)
      → IsOwned s
      → Spares s sweeping
      → let (s', sweeping') = sweep now (s, sweeping) in
        (shown s' u name ≡ shown s u name) × IsOwned s' × Spares s' sweeping'
  unfolding Spares AllFresh IsFresh sweep
  sweep-Spares s (testing []) u o f = (refl, o, f)
  sweep-Spares s (testing ((app_name, p) ∷ items)) u o (f, fs) =
      elim (Bool-cases (expired now (s.heap p))) [
        | inl e ↦ rw e (refl, o, (ground (arith, e, f), fs))
        | inr e ↦ rw e (refl, o, fs)
      ]
  sweep-Spares s (deleting app_name items) u o (d, fs) = (
    shown-shared_unthrottle s app_name u name ∙ ground (arith, d),
    shared_unthrottle-IsOwned s app_name o,
    shared_unthrottle-AllFresh s app_name items fs,
  )

  interleave-Spares :
      (actions : List Action) (s : Shared) (sweeping : Sweep) (u : Time)
      → IsOwned s
      → Spares s sweeping
      → All (KeepsUp now name) actions
      → shown (interleave now actions (s, sweeping)).0 u name
        ≡ requested_all name actions (shown s u name)
  unfolding interleave requested_all
  interleave-Spares [] s sweeping u o f k = refl
  interleave-Spares (request time r ∷ actions) s sweeping u o f (k, ks) =
      interleave-Spares actions (serve_request s time r) sweeping u
        (serve_request-IsOwned s time r o) (serve_request-Spares s time r sweeping o k f) ks
      ∙ ap (requested_all name actions) (shown-serve_request s time r u name o)
  interleave-Spares (sweep_step ∷ actions) s sweeping u o f (k, ks) =
      let (e, o', f') = sweep-Spares s sweeping u o f in
      interleave-Spares actions (sweep now (s, sweeping)).0 (sweep now (s, sweeping)).1 u o' f' ks
      ∙ ap (requested_all name actions) e

  begin_sweep-Spares :
      (s : Shared)
      → IsOwned s
      → ((a : AppThrottle) → shown s now name ≡ some a → expired now a ≡ false)
      → Spares (begin_sweep now s).0 (begin_sweep now s).1
  unfolding begin_sweep Spares AllFresh IsFresh
  begin_sweep-Spares s o h =
      All-lookup (λ app_name p. IsFresh s app_name p) (c.items ℕ s.entries now)
        (c.items-KeysOnce ℕ s.entries now)
        (λ app_name p e.
          let found : c.get ℕ s.entries now app_name ≡ some p =
            sym (c.lookup-items ℕ s.entries now app_name) ∙ e in
          let (mine, used) = o.owned now app_name p found in
          (
            mine,
            used,
            λ d. h (s.heap p) (
                ap (λ n. pointed s.heap (c.get ℕ s.entries now n))
                  (sym ((str_eq_iff app_name name).0 d))
                ∙ ap (pointed s.heap) found),
          ))

  -- However the tests and the deletions of a sweep interleave with requests, which change entries
  -- in place, an app whose throttle, if any, had not ended when the sweep began, and which no
  -- request throttles up to a time before that, shows what the requests alone leave. The entries do
  -- not end by the cache's own lifetime, and each has an address of its own.
  pub interleave-begin_sweep :
      (s : Shared) (actions : List Action) (u : Time)
      → IsOwned s
      → ((a : AppThrottle) → shown s now name ≡ some a → expired now a ≡ false)
      → All (KeepsUp now name) actions
      → shown (interleave now actions (begin_sweep now s)).0 u name
        ≡ requested_all name actions (shown s u name)
  unfolding begin_sweep
  interleave-begin_sweep s actions u o h k =
      interleave-Spares actions s (begin_sweep now s).1 u o (begin_sweep-Spares s o h) k
