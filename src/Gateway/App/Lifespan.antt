-- ===== src/Gateway/App/Lifespan.antt =====
-- gateway/app.py: the app that `build_app` makes, from its start to its end, with the task of the
-- reaper beside the requests.
pub mod Reaping
pub mod Failed
use open_warehouse_agent.Gateway.Compute.{ComputeBackend}
use open_warehouse_agent.Gateway.State.{Controller, reap_if_idle}
use open_warehouse_agent.Gateway.App.{Request, Upstream, App, post_chat_completions}
use open_warehouse_agent.Py.Str.{Str}
use open_warehouse_agent.Py.Result.{Exc, Result, ok, err}
use open_warehouse_agent.Base.{
  ℕ, zero, suc, ◌+◌, ◌-◌, ◌*◌, ◌/◌, ◌%◌, ◌≤◌, ◌<◌, ltb, leb, ◌==◌, if◌then◌else◌, ◌≡◌, refl, sym,
  ap, ◌∙◌, ◌≢◌, ◌↔◌, ◌⊎◌, inl, inr, Bool, true, false, not, ◌&&◌, ◌||◌, Option, none, some, List,
  [], ◌∷◌, ◌++◌, map, append_assoc, append-nil, map-append, arith, length, take, get_elem?,
  length-append, length-take, length-map, All, All-append, All-map, Bool-cases, Option-cases,
  or_default, is_some, ltb→lt, leb→le, ==_iff, subst, fun_ext,
}

-- The task of `run_idle_reaper`: in its loop, or at its end.
pub data Task : Type 0 where
  looping returned : Task
  raised : Exc → Task

module _ (K : ComputeBackend) (U : Upstream) where
  -- The app with its `reaper_stop` and its `reaper_task`.
  pub record Life : Type 0 where
    pub app : App K U
    pub reaper_stop : Bool
    pub reaper_task : Task

  -- `build_app`, which starts no task yet.
  abbrev pub build_app : App K U → Life
  build_app a = record { app = a; reaper_stop = false; reaper_task = returned }

  -- What happens beside the reaper: a request, or a change of the box from outside.
  pub data Other : Type 0 where
    post : ℕ → ℕ → ℕ → Request → Other
    drift : (K.Box → K.Box) → Other

  -- What happens while the app is up.
  pub data Event : Type 0 where
    reap : ℕ → Event
    other : Other → Event

  module _ (token : Str) where
    unfoldable pub happen : App K U → Other → App K U
    happen a (post start_at poll_at now request) =
        (post_chat_completions K U token start_at poll_at now request a).1
    happen a (drift f) = record a {
      controller = record a.controller { backend = f a.controller.backend };
    }

    -- The end of a round of the reaper: what a reap raises ends the task.
    abbrev pub end_round : Life → Result Bool × Controller K.Box → Life
    end_round l (ok stopped, c) = record l { app = record l.app { controller = c } }
    end_round l (err e, c) = record l {
      app = record l.app { controller = c };
      reaper_task = raised e;
    }

    -- A turn of the reaper's task, if it is in its loop.
    unfoldable pub reaper_turn : ℕ → Task → Life → Life
    reaper_turn now looping l = end_round l (reap_if_idle K now l.app.controller)
    reaper_turn now _ l = l

    unfoldable pub live : List Event → Life → Life
    unfolding happen reaper_turn
    live [] l = l
    live (reap now ∷ es) l = live es (reaper_turn now l.reaper_task l)
    live (other o ∷ es) l = live es (record l { app = happen l.app o })

    -- `asyncio.create_task`: the loop is not entered if the event is set already.
    abbrev pub startup : Life → Life
    startup l = record l { reaper_task = if l.reaper_stop then returned else looping }

    -- `await reaper_task`: it raises what the task did, and waits for good for a task that is in
    -- its loop, unless the event is set, which ends the loop.
    abbrev pub awaited : Task → Life → Option (Result (Unit {0}) × Life)
    awaited looping l =
        if l.reaper_stop then some (ok tt, record l { reaper_task = returned }) else none
    awaited returned l = some (ok tt, l)
    awaited (raised e) l = some (err e, l)

    -- After the `yield`.
    abbrev pub shutdown : Life → Option (Result (Unit {0}) × Life)
    shutdown l = awaited l.reaper_task (record l { reaper_stop = true })

    -- `lifespan`, with what happens at its `yield`; `none` if it never ends.
    unfoldable pub lifespan : List Event → Life → Option (Result (Unit {0}) × Life)
    unfolding live
    lifespan events l = shutdown (live events (startup l))
