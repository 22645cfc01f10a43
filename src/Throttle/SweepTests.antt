-- ===== src/Throttle/SweepTests.antt =====
-- The theorem on a sweep among requests at a concrete run, and a run that its condition rules out.
use freno.Prelude.{◌≡◌, refl, none, some, List, [], ◌∷◌, arith}
use freno.Go.Text.{Text, codes, str_eq}
use freno.Go.Int.{pos}
use freno.Cache.Table.{table_cache, put, read, found}
use freno.Throttle.Sweep.{
  throttle, Action, request, sweep_step, Shared, new_shared, shared_throttle, serve_request,
  shared_unthrottle, sweep, begin_sweep, interleave, shown,
}
use freno.Throttle.Sweep.Values.{new_shared-IsOwned, serve_request-IsOwned}
use freno.Throttle.Sweep.Laws.{requested_all, interleave-begin_sweep}

abbrev app : Text
app = codes "archive"

-- The app is throttled at 5 up to 100.
abbrev throttled : Shared
throttled = serve_request new_shared 5 (throttle app 100 (pos 1))

-- The sweep has listed the app, which is throttled anew before the test.
abbrev actions : List Action
actions = request 51 (throttle app 200 (pos 2)) ∷ (sweep_step ∷ (sweep_step ∷ []))

shown-throttled : shown throttled 50 app ≡ some (record { expire_at = 100; ratio = pos 1 })
unfolding new_shared serve_request shared_throttle table_cache put read found str_eq
shown-throttled = refl

interleave-begin_sweep_example :
    shown (interleave 50 actions (begin_sweep 50 throttled)).0 60 app
    ≡ requested_all app actions (shown throttled 60 app)
interleave-begin_sweep_example =
    interleave-begin_sweep 50 app throttled actions 60
      (serve_request-IsOwned new_shared 5 (throttle app 100 (pos 1)) new_shared-IsOwned)
      (λ a e. ground (arith, e, shown-throttled)) ((λ e. refl), (tt, (tt, tt)))

-- A throttle up to 30 has ended when the sweep tests it. Throttled anew before the sweep deletes its
-- entry, the app has no throttle.
abbrev short : Shared
short = serve_request new_shared 5 (throttle app 30 (pos 1))

sweep_takes_new_throttle :
    shown
      (interleave 50
        (sweep_step ∷ (request 51 (throttle app 200 (pos 2)) ∷ (sweep_step ∷ [])))
        (begin_sweep 50 short)).0
      60
      app
    ≡ none
unfolding interleave begin_sweep serve_request shared_throttle shared_unthrottle sweep new_shared
    table_cache put read found str_eq
sweep_takes_new_throttle = refl
