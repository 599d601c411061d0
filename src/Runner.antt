-- ===== src/Runner.antt =====
-- internal/service/enginesvc/runner.go: the matches that an engine hosts. A handle is a number, under which the
-- loop of its goroutine is found; the map `matches` holds handles. A loop stays when its match is taken off the
-- map: its context is cancelled, or the context that this one is made from, and it ends when it
-- takes note of that. `Stop` takes the match off the map under the mutex and cancels behind it: two steps.
pub mod Broadcast
pub mod Turns
pub mod Sound
pub mod Hosting
use rts_vibe_code.Prelude.{
  ℕ, suc, ◌+◌, Bool, true, false, Option, none, some, List, [], ◌∷◌, ◌++◌, length, ◌||◌, contains,
  ltb, nat_key, if◌then◌else◌,
}
use rts_vibe_code.GoMap.{GoMap, lookup, insert, delete}
use rts_vibe_code.Float64.{Float64}
use rts_vibe_code.Match.{Match, Status, active, ended}
use rts_vibe_code.Commands.{Command}
use rts_vibe_code.Visibility.Batch.{new_batch}
use rts_vibe_code.Runner.Broadcast.{Publication, publish_final_state, broadcast_state}

-- `matchHandle`: the channels are the queue of the commands and whether a resync is asked for. `parent` is the
-- context given to EnsureMatch, `stopping` whether a Stop has taken the handle off the map, `cancelled` whether
-- the handle's own cancel has been called, and `running` the state of the goroutine.
pub record MatchHandle : Type 0 where
  pub game : Match
  pub cmds : List Command
  pub resync : Bool
  pub parent : ℕ
  pub stopping : Bool
  pub cancelled : Bool
  pub running : Bool

-- The handles are numbered from 0, `next` is the next one; `ended` are the contexts that their owners have cancelled.
pub record Runner : Type 0 where
  pub matches : GoMap ℕ ℕ
  pub loops : GoMap ℕ MatchHandle
  pub next : ℕ
  pub ended : List ℕ

pub data SubmitErr : Type 0 where
  not_hosted queue_full : SubmitErr

abbrev pub queue_capacity : ℕ
queue_capacity = 64

unfoldable pub new_runner : Runner
new_runner = record { matches = []; loops = []; next = 0; ended = [] }

abbrev pub new_loop : ℕ → Match → MatchHandle
new_loop parent m = record {
  game = m;
  cmds = [];
  resync = false;
  parent = parent;
  stopping = false;
  cancelled = false;
  running = true;
}

abbrev pub ensure : Runner → ℕ → Match → Option ℕ → Runner
ensure r parent m (some k) = r
ensure r parent m none = record r {
  matches = insert m.id r.next r.matches;
  loops = insert r.next (new_loop parent m) r.loops;
  next = suc r.next;
}

unfoldable pub ensure_match : Runner → ℕ → Match → Runner
ensure_match r parent m = ensure r parent m (lookup m.id r.matches)

abbrev pub is_hosted : Runner → ℕ → Bool
is_hosted r id = elim (lookup id r.matches) [ none ↦ false | some k ↦ true ]

abbrev pub with_loop : ℕ → Option MatchHandle → Option (ℕ × MatchHandle)
with_loop k none = none
with_loop k (some l) = some (k, l)

-- The loop behind the handle of a match.
abbrev pub handle : Runner → Option ℕ → Option (ℕ × MatchHandle)
handle r none = none
handle r (some k) = with_loop k (lookup k r.loops)

unfoldable pub hosted : Runner → ℕ → Option (ℕ × MatchHandle)
hosted r id = handle r (lookup id r.matches)

abbrev pub write_loop : Runner → ℕ → MatchHandle → Runner
write_loop r k l = record r { loops = insert k l r.loops }

abbrev pub send : Runner → Command → Option (ℕ × MatchHandle) → Runner × Option SubmitErr
send r cmd none = (r, some not_hosted)
send r cmd (some (k, l)) =
    if ltb (length l.cmds) queue_capacity
    then (write_loop r k (record l { cmds = l.cmds ++ cmd ∷ [] }), none)
    else (r, some queue_full)

unfoldable pub submit : Runner → Command → Runner × Option SubmitErr
submit r cmd = send r cmd (hosted r cmd.match_id)

abbrev pub ask_resync : Runner → Option (ℕ × MatchHandle) → Runner
ask_resync r none = r
ask_resync r (some (k, l)) = write_loop r k (record l { resync = true })

unfoldable pub rebroadcast : Runner → ℕ → Runner
rebroadcast r id = ask_resync r (hosted r id)

abbrev pub unlist : Runner → ℕ → Option (ℕ × MatchHandle) → Runner
unlist r id none = r
unlist r id (some (k, l)) =
    let r' = write_loop r k (record l { stopping = true }) in
    record r' { matches = delete id r.matches }

-- `Stop` up to where it gives up the mutex.
unfoldable pub begin_stop : Runner → ℕ → Runner
begin_stop r id = unlist r id (hosted r id)

-- `h.cancel()`, behind it.
abbrev pub cancel : Runner → ℕ → MatchHandle → Runner
cancel r k l = write_loop r k (record l { cancelled = true })

-- A context that its owner cancels; those of the loops made from it are done with it.
abbrev pub end_context : Runner → ℕ → Runner
end_context r p = record r { ended = p ∷ r.ended }

abbrev pub is_context_done : Runner → MatchHandle → Bool
is_context_done r l = l.cancelled || contains l.parent r.ended

abbrev pub end_game : Match → Match
end_game m = record m { status = ended; cleanup_done = true }

module _ (fl : Float64) where
  abbrev pub end_hosted : Runner → ℕ → Option (ℕ × MatchHandle) → Runner × List Publication
  end_hosted r id none = (r, [])
  end_hosted r id (some (k, l)) =
      let (m, out) = publish_final_state fl (end_game l.game) in
      (begin_stop (write_loop r k (record l { game = m })) id, out)

  unfoldable pub force_end : Runner → ℕ → Runner × List Publication
  unfolding begin_stop
  force_end r id = end_hosted r id (hosted r id)

  -- `BroadcastInitial`, on the match of a loop.
  unfoldable pub broadcast_initial : Match → Match × List Publication
  broadcast_initial m = let (b, out) = broadcast_state fl (new_batch m) in (b.game, out)
