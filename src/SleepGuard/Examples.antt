-- ===== src/SleepGuard/Examples.antt =====
-- Runs of the guard, and the theorems at inputs that meet their hypotheses.
use bazzite_k.Common.{false, ◌+◌, ◌≤◌, ◌≡◌, true, [], ◌∷◌, ok, refl, length, split}
use bazzite_k.Common.Bytes.{bytes}
use bazzite_k.Common.Int.{pos}
use bazzite_k.Common.Json.{Json, Fields, obj, arr, str, bool, int, cons, nil, field, end}
use bazzite_k.SleepGuard.{
  Effect, new, sync, finish, targets, target_address, shared_context, open_socket, connected,
  take_socket, message, end_by, reply_report, blocked,
}
use bazzite_k.SleepGuard.World.{Callback, Answers, run, World, after, start_world, Step, Reach}
use bazzite_k.SleepGuard.Invariant.{Inv}
use bazzite_k.SleepGuard.Reachable.{Reach-Inv}
use bazzite_k.SleepGuard.Progress.{IsWanted, Step-IsWanted, Fires, resync_served}
use bazzite_k.SleepGuard.Page.{Page, evaluate, loaded, Visit, Visit-held}

-- Steam's list of targets, and its answer to the script.
abbrev steam_targets : Json
steam_targets = arr (
    cons (obj (field "title" (str "Store") end)) (
      cons
        (obj
          (field "title" (str "SharedJSContext") (field "webSocketDebuggerUrl" (str "ws://x") end)))
        nil))

abbrev steam_value : Fields
steam_value = field "value" (obj (field "blocked" (bool true) end)) end

abbrev steam_result : Fields
steam_result = field "result" (obj steam_value) end

abbrev steam_reply : Fields
steam_reply = field "id" (int (pos 1)) (field "result" (obj steam_result) end)

abbrev answers : Answers
answers = record {
  is_open = λ ws. true;
  targets_reply = ok steam_targets;
  start = λ url. ok tt;
  socket = ok 7;
  inhibited = ok (bytes "shutdown:sleep");
  ws_message = ok (obj steam_reply);
  ws_error = "reset";
}

-- The first round has begun.
abbrev asked : World
asked = after [] [] (run Callback.idle answers new)

-- A change of the inhibitors comes while it runs.
abbrev asked_again : World
asked_again = after asked.pending asked.trace (sync asked.guard)

asked-Reach : Reach start_world asked
unfolding start_world after run sync new
asked-Reach = Reach.next Reach.here (Step.fire [] [] Callback.idle answers refl refl)

asked_again-Reach : Reach start_world asked_again
asked_again-Reach = Reach.next asked-Reach (Step.changed refl)

asked_again_wants : asked_again.guard.resync ≡ true
unfolding after run sync new
asked_again_wants = refl

-- A whole round: the targets, the websocket, the answer, and the round that was asked for meanwhile.
a_round :
    let w = asked_again in
    let u = after [] w.trace (run (Callback.http_reply 1) answers w.guard) in
    let v = after [] u.trace (run (Callback.opened 1) answers u.guard) in
    let x = after [] v.trace (run (Callback.on_message 7 1) answers v.guard) in
    x.trace
    ≡ Effect.http_get 1
      ∷ Effect.start_timer 1
      ∷ Effect.websocket_connect (str "ws://x") 1
      ∷ Effect.attach 7 1
      ∷ Effect.evaluate 7 true
      ∷ Effect.close 7 "complete"
      ∷ Effect.info "Steam sleep guard active"
      ∷ Effect.idle_sync
      ∷ []
unfolding after run sync new targets target_address shared_context open_socket connected take_socket
    message end_by reply_report finish blocked split
a_round = refl

Reach-Inv_example : Inv asked_again.guard asked_again.pending
Reach-Inv_example = Reach-Inv asked_again asked_again-Reach

abbrev timed_out : World
timed_out =
    after (Callback.http_reply 1 ∷ []) asked_again.trace
      (run (Callback.timer 1) answers asked_again.guard)

Step-IsWanted_example : IsWanted timed_out.guard timed_out.pending
unfolding after run sync new
Step-IsWanted_example =
    Step-IsWanted asked_again timed_out asked_again-Reach asked_again_wants
      (Step.fire (Callback.http_reply 1 ∷ []) [] (Callback.timer 1) answers refl refl)

resync_served_example :
    (u : World) × (v : World) × Fires (Callback.timer asked_again.guard.generation) asked_again u
    × (u.guard.busy ≡ false)
    × Fires Callback.idle u v
    × (v.guard.busy ≡ true)
    × (v.guard.generation ≡ asked_again.guard.generation + 1)
resync_served_example = resync_served asked_again answers asked_again-Reach asked_again_wants

abbrev guarded : Page
guarded = (evaluate true loaded).0

guarded-Visit : Visit guarded
guarded-Visit = Visit.script true Visit.load

Visit-held_example : (length guarded.held ≤ 1) × (length guarded.timers ≡ length guarded.held)
Visit-held_example = Visit-held guarded guarded-Visit
