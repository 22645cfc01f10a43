-- ===== src/Throttle/Sweep.antt =====
-- pkg/throttle/throttler.go: expireThrottledApps, which takes no mutex, beside ThrottleApp and
-- UnthrottleApp. The entries of the cache are pointers, which ThrottleApp changes in place: a sweep
-- that has listed the entries reads through them later. Each call of ThrottleApp, which holds the
-- mutex, is one step; the tests and the deletions of the sweep are steps of their own.
pub mod Values
pub mod Laws
use freno.Prelude.{
  ℕ, suc, Bool, true, false, ◌||◌, Option, none, some, List, [], ◌∷◌, if◌then◌else◌, ◌==◌, or_else,
}
use freno.Go.Text.{Text, str_eq}
use freno.Go.Float.{Float, float_zero}
use freno.Go.Dict.{Dict}
use freno.Go.Time.{Time, time_zero, is_zero, before}
use freno.Base.Metric.{AppThrottle}
use freno.Cache.Api.{CacheApi, default_expiration, no_expiration}
use freno.Throttle.Apps.{expired, next_throttle}

abbrev pub write : {A : Type 0} → (ℕ → A) → ℕ → A → ℕ → A
write f p a q = if p == q then a else f q

abbrev pub pointed : (ℕ → AppThrottle) → Option ℕ → Option AppThrottle
pointed heap none = none
pointed heap (some p) = some (heap p)

-- The address past those in use, after an entry that was found or is new.
abbrev pub next_address : Option ℕ → ℕ → ℕ
next_address none next = suc next
next_address (some p) next = next

pub data Request : Type 0 where
  throttle : Text → Time → Float → Request
  unthrottle : Text → Request

-- What happens next: a request at a time, or the next step of the sweep.
pub data Action : Type 0 where
  request : Time → Request → Action
  sweep_step : Action

-- A sweep between its calls: with the entries that are left to test, and after a test that has found
-- the end of an entry, before UnthrottleApp.
pub data Sweep : Type 0 where
  testing : Dict Text ℕ → Sweep
  deleting : Text → Dict Text ℕ → Sweep

module _ ⦃c : CacheApi⦄ where
  -- The entries are addresses in the heap. The code does not keep the owner of an address, which is
  -- the app that it was made for.
  pub record Shared : Type 0 where
    pub entries : c.Cache ℕ
    pub heap : ℕ → AppThrottle
    pub owner : ℕ → Text
    pub next : ℕ

  unfoldable pub new_shared : Shared
  new_shared = record {
    entries = c.new ℕ none;
    heap = λ p. record { expire_at = time_zero; ratio = float_zero };
    owner = λ p. [];
    next = 0;
  }

  unfoldable pub shared_unthrottle : Shared → Text → Shared
  shared_unthrottle s app_name = record s { entries = c.delete ℕ s.entries app_name }

  unfoldable pub shared_throttle : Shared → Time → Text → Time → Float → Shared
  unfolding next_throttle
  shared_throttle s now app_name expire_at ratio =
      let found = c.get ℕ s.entries now app_name in
      let p = or_else found s.next in
      let a = next_throttle (pointed s.heap found) expire_at ratio in
      record {
        entries =
            if is_zero expire_at
            then c.set ℕ s.entries now app_name p no_expiration
            else if before now a.expire_at
            then c.set ℕ s.entries now app_name p default_expiration
            else c.delete ℕ s.entries app_name;
        heap = write s.heap p a;
        owner = write s.owner p app_name;
        next = next_address found s.next;
      }

  unfoldable pub serve_request : Shared → Time → Request → Shared
  unfolding shared_throttle shared_unthrottle
  serve_request s now (throttle app_name expire_at ratio) =
      shared_throttle s now app_name expire_at ratio
  serve_request s now (unthrottle app_name) = shared_unthrottle s app_name

  -- The next step of a sweep that has read the clock at `now`.
  unfoldable pub sweep : Time → Shared × Sweep → Shared × Sweep
  unfolding shared_unthrottle
  sweep now (s, testing []) = (s, testing [])
  sweep now (s, testing ((app_name, p) ∷ items)) =
      if expired now (s.heap p) then (s, deleting app_name items) else (s, testing items)
  sweep now (s, deleting app_name items) = (shared_unthrottle s app_name, testing items)

  unfoldable pub begin_sweep : Time → Shared → Shared × Sweep
  begin_sweep now s = (s, testing (c.items ℕ s.entries now))

  -- The steps after the beginning of a sweep at `now`.
  unfoldable pub interleave : Time → List Action → Shared × Sweep → Shared × Sweep
  unfolding serve_request sweep
  interleave now [] system = system
  interleave now (request time r ∷ actions) (s, sweeping) =
      interleave now actions (serve_request s time r, sweeping)
  interleave now (sweep_step ∷ actions) (s, sweeping) =
      interleave now actions (sweep now (s, sweeping))

  -- What the cache shows of an app.
  abbrev pub shown : Shared → Time → Text → Option AppThrottle
  shown s u name = pointed s.heap (c.get ℕ s.entries u name)
