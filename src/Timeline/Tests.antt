-- ===== src/Timeline/Tests.antt =====
-- A timeline of the small machine, and the theorem applied to it
-- (src/bearpit/realmtools/timeline.py).
use bearpit.Base.{ℕ, List, [], ◌∷◌, some, ◌≡◌, refl}
use bearpit.Base.Dict.{lookup}
use bearpit.Base.Outcome.{ok, Returns, Total}
use bearpit.Machine.Decl.{Log}
use bearpit.Machine.State.{MachineState, initial_state, is_referee}
use bearpit.Machine.Rows.{Payload, Check, no_transition, reject_row, tried_act, other}
use bearpit.Machine.View.{view, shown_data}
use bearpit.Machine.Replay.{replay_step, replay_steps}
use bearpit.Machine.Samples.{hand, folded_key, game, table, lobby, bob_to_play, bob_folded}
use bearpit.Timeline.Changes.{actor_moved, set_moved, diff_views}
use bearpit.Timeline.Build.{build_timeline}
use bearpit.Timeline.Shows.{Tells, build_timeline-Tells}
use bearpit.Timeline.Compared.{key_changes-Returns, diff_views-Returns}

-- Bob sees a set and a key by owners, whose changes no comparison fails on.
bob-compares :
    (s t : MachineState)
    → Returns (diff_views game (view game table s "bob") (view game table t "bob"))
unfolding view shown_data is_referee
bob-compares s t =
    let before = view game table s "bob" in
    let after = view game table t "bob" in
    diff_views-Returns game before after (
      key_changes-Returns folded_key "folded" (lookup "folded" before.shown)
          (lookup "folded" after.shown) refl,
      (
        key_changes-Returns hand "hand" (lookup "hand" before.shown) (lookup "hand" after.shown)
            refl,
        tt,
      ),
    )

-- Bob's refused call, and a row that no replay knows.
abbrev refused : Payload
refused = reject_row (record {
  attempt = tried_act "raise" [];
  caller = "bob";
  check = Check.exists;
  detail = no_transition "raise";
  log = Log.public;
})

abbrev damaged : List (ℕ × Payload)
damaged = (7, refused) ∷ (9, other "noop") ∷ []

build_timeline-Tells_example :
    Total
      (Tells game table "bob" damaged
        (initial_state game table 5)
        (replay_steps game table damaged (initial_state game table 5)))
      (build_timeline game table "bob" damaged 5)
unfolding replay_steps replay_step lobby
build_timeline-Tells_example =
    build_timeline-Tells game table "bob" damaged 5 (bob-compares lobby lobby, tt) refl

-- A fold moves the pointer and the set of those who folded.
fold_shows :
    diff_views game (view game table bob_to_play "bob") (view game table bob_folded "bob")
    ≡ ok (actor_moved (some "bob") (some "cat") ∷ set_moved "folded" ("bob" ∷ []) [] ∷ [])
unfolding diff_views view shown_data is_referee lobby
fold_shows = refl
