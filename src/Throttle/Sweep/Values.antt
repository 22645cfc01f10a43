-- ===== src/Throttle/Sweep/Values.antt =====
-- Entries that are changed through their addresses behave as values: what the cache shows of an app
-- changes by the requests for the app alone.
use freno.Prelude.{
  ℕ, ◌≤◌, ◌<◌, ◌≡◌, ap, false, ◌||◌, Option, none, some, if◌then◌else◌, or_else, ◌==◌, ==_iff,
  Option-cases, Bool-cases, inl, inr, arith,
}
use freno.Go.Text.{Text, str_eq, str_eq_iff, text_eq}
use freno.Go.Float.{Float}
use freno.Go.Time.{Time, is_zero, before}
use freno.Base.Metric.{AppThrottle}
use freno.Cache.Api.{
  CacheApi, IsSteady, IsSteady-new, IsSteady-set_default, IsSteady-set_forever, IsSteady-delete,
  default_expiration, no_expiration,
}
use freno.Throttle.Apps.{next_throttle}
use freno.Throttle.Sweep.{
  pointed, next_address, Request, throttle, unthrottle, Shared, new_shared, shared_unthrottle,
  shared_throttle, serve_request, shown,
}

-- What a request makes of the throttle of a name: it is the specification of the requests.
unfoldable pub requested : Text → Time → Request → Option AppThrottle → Option AppThrottle
requested name now (throttle app_name expire_at ratio) a =
    if str_eq app_name name
    then (if is_zero expire_at || before now expire_at
        then some (next_throttle a expire_at ratio)
        else none)
    else a
requested name now (unthrottle app_name) a = if str_eq app_name name then none else a

module _ ⦃c : CacheApi⦄ where
  -- Entries do not end by the cache's own lifetime, and each has an address of its own.
  pub record IsOwned (s : Shared) : Type 0 where
    pub steady : IsSteady ℕ s.entries
    pub owned :
        (u : Time) (name : Text) (p : ℕ)
        → c.get ℕ s.entries u name ≡ some p
        → (s.owner p ≡ name) × (p < s.next)

  -- The address of an app that is throttled.
  abbrev pub address_of : Shared → Time → Text → ℕ
  address_of s now app_name = or_else (c.get ℕ s.entries now app_name) s.next

  get-shared_throttle :
      (s : Shared) (now : Time) (app_name : Text) (expire_at : Time) (ratio : Float) (u : Time)
      (name : Text)
      → IsOwned s
      → c.get ℕ (shared_throttle s now app_name expire_at ratio).entries u name ≡ (
          if str_eq app_name name
          then (if is_zero expire_at || before now expire_at
              then some (address_of s now app_name)
              else none)
          else c.get ℕ s.entries u name)
  unfolding shared_throttle next_throttle
  get-shared_throttle s now app_name expire_at ratio u name o =
      let p = address_of s now app_name in
      elim (Option-cases (c.get ℕ s.entries now app_name)) [
        | inl e ↦ ground (
          arith,
          e,
          c.get-delete ℕ s.entries app_name u name,
          c.get-set ℕ s.entries now app_name p no_expiration u name,
          c.get-set ℕ s.entries now app_name p default_expiration u name,
          o.steady.no_ttl,
        )
        | inr (q, e) ↦ ground (
          arith,
          e,
          c.get-delete ℕ s.entries app_name u name,
          c.get-set ℕ s.entries now app_name p no_expiration u name,
          c.get-set ℕ s.entries now app_name p default_expiration u name,
          o.steady.no_ttl,
        )
      ]

  -- The address of another app is another one.
  pub address_of-ne :
      (s : Shared) (now u : Time) (app_name name : Text) (q : ℕ)
      → IsOwned s
      → str_eq app_name name ≡ false
      → c.get ℕ s.entries u name ≡ some q
      → (address_of s now app_name == q) ≡ false
  address_of-ne s now u app_name name q o d e =
      elim (Option-cases (c.get ℕ s.entries now app_name)) [
        | inl n ↦ ground (arith, n, o.owned u name q e, ==_iff (address_of s now app_name) q)
        | inr (p, f) ↦ ground (
          arith,
          f,
          d,
          o.owned u name q e,
          o.owned now app_name p f,
          ==_iff p q,
          str_eq_iff app_name name,
        )
      ]

  shown-shared_throttle :
      (s : Shared) (now : Time) (app_name : Text) (expire_at : Time) (ratio : Float) (u : Time)
      (name : Text)
      → IsOwned s
      → shown (shared_throttle s now app_name expire_at ratio) u name
        ≡ requested name now (throttle app_name expire_at ratio) (shown s u name)
  unfolding shared_throttle requested
  shown-shared_throttle s now app_name expire_at ratio u name o =
      let p = address_of s now app_name in
      let e = get-shared_throttle s now app_name expire_at ratio u name o in
      elim (Bool-cases (str_eq app_name name)) [
        | inl d ↦ ground (
          arith,
          d,
          e,
          o.steady.same now u app_name,
          ap (λ n. c.get ℕ s.entries u n) ((str_eq_iff app_name name).0 d),
          ==_iff p p,
        )
        | inr d ↦ elim (Option-cases (c.get ℕ s.entries u name)) [
          | inl n ↦ ground (arith, d, e, n)
          | inr (q, f) ↦ ground (arith, d, e, f, address_of-ne s now u app_name name q o d f)
        ]
      ]

  -- The addresses in use, with the one that a throttle takes.
  pub next_address_bounds :
      (s : Shared) (now : Time) (app_name : Text)
      → IsOwned s
      → (address_of s now app_name < next_address (c.get ℕ s.entries now app_name) s.next)
        × (s.next ≤ next_address (c.get ℕ s.entries now app_name) s.next)
  next_address_bounds s now app_name o = elim (Option-cases (c.get ℕ s.entries now app_name)) [
    | inl n ↦ rw n (omega arith, omega arith)
    | inr (p, f) ↦ rw f (omega (arith, (o.owned now app_name p f).1), omega arith)
  ]

  IsSteady-shared_throttle :
      (s : Shared) (now : Time) (app_name : Text) (expire_at : Time) (ratio : Float)
      → IsSteady ℕ s.entries
      → IsSteady ℕ (shared_throttle s now app_name expire_at ratio).entries
  unfolding shared_throttle
  IsSteady-shared_throttle s now app_name expire_at ratio s' =
      let p = address_of s now app_name in
      let a = next_throttle (pointed s.heap (c.get ℕ s.entries now app_name)) expire_at ratio in
      elim (Bool-cases (is_zero expire_at)) [
        | inl z ↦ rw z (IsSteady-set_forever ℕ s.entries now app_name p s')
        | inr z ↦ elim (Bool-cases (before now a.expire_at)) [
          | inl b ↦ rw (z, b) (IsSteady-set_default ℕ s.entries now app_name p s')
          | inr b ↦ rw (z, b) (IsSteady-delete ℕ s.entries app_name s')
        ]
      ]

  shared_throttle-IsOwned :
      (s : Shared) (now : Time) (app_name : Text) (expire_at : Time) (ratio : Float)
      → IsOwned s
      → IsOwned (shared_throttle s now app_name expire_at ratio)
  unfolding shared_throttle
  shared_throttle-IsOwned s now app_name expire_at ratio o = record {
    steady = IsSteady-shared_throttle s now app_name expire_at ratio o.steady;
    owned = λ u name q e.
        let f = get-shared_throttle s now app_name expire_at ratio u name o in
        let bounds = next_address_bounds s now app_name o in
        elim (Bool-cases (str_eq app_name name)) [
          | inl d ↦ ground (
            arith,
            d,
            e,
            f,
            bounds,
            ==_iff (address_of s now app_name) q,
            str_eq_iff app_name name,
          )
          | inr d ↦
              let old : c.get ℕ s.entries u name ≡ some q = ground (arith, d, e, f) in
              ground
                (arith, bounds, o.owned u name q old, address_of-ne s now u app_name name q o d old)
        ];
  }

  pub shared_unthrottle-IsOwned :
      (s : Shared) (app_name : Text) → IsOwned s → IsOwned (shared_unthrottle s app_name)
  unfolding shared_unthrottle
  shared_unthrottle-IsOwned s app_name o = record {
    steady = IsSteady-delete ℕ s.entries app_name o.steady;
    owned = λ u name p e.
        let f = c.get-delete ℕ s.entries app_name u name in
        elim (Bool-cases (str_eq app_name name)) [
          | inl d ↦ absurd (ground (arith, d, e, f))
          | inr d ↦ o.owned u name p (ground (arith, d, e, f))
        ];
  }

  pub shown-shared_unthrottle :
      (s : Shared) (app_name : Text) (u : Time) (name : Text)
      → shown (shared_unthrottle s app_name) u name
        ≡ (if str_eq app_name name then none else shown s u name)
  unfolding shared_unthrottle
  shown-shared_unthrottle s app_name u name =
      ground (arith, c.get-delete ℕ s.entries app_name u name)

  pub serve_request-IsOwned :
      (s : Shared) (now : Time) (r : Request) → IsOwned s → IsOwned (serve_request s now r)
  unfolding serve_request
  serve_request-IsOwned s now (throttle app_name expire_at ratio) o =
      shared_throttle-IsOwned s now app_name expire_at ratio o
  serve_request-IsOwned s now (unthrottle app_name) o = shared_unthrottle-IsOwned s app_name o

  pub shown-serve_request :
      (s : Shared) (now : Time) (r : Request) (u : Time) (name : Text)
      → IsOwned s
      → shown (serve_request s now r) u name ≡ requested name now r (shown s u name)
  unfolding serve_request requested
  shown-serve_request s now (throttle app_name expire_at ratio) u name o =
      shown-shared_throttle s now app_name expire_at ratio u name o
  shown-serve_request s now (unthrottle app_name) u name o =
      shown-shared_unthrottle s app_name u name

  pub new_shared-IsOwned : IsOwned new_shared
  unfolding new_shared
  new_shared-IsOwned = record {
    steady = IsSteady-new ℕ;
    owned = λ u name p e. absurd (ground (arith, e, c.get-new ℕ none u name));
  }
