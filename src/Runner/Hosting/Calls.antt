-- ===== src/Runner/Hosting/Calls.antt =====
-- The calls on the runner and the turns of its loops keep the invariant of the hosted matches.
use rts_vibe_code.Prelude.{
  ℕ, suc, ◌≤◌, ◌≡◌, refl, sym, ◌∙◌, ap, subst, Bool, true, false, Option, none, some, List, [], ◌∷◌,
  ◌++◌, if◌then◌else◌, arith, length, length-append, ltb, nat_key, Bool-cases, inl, inr,
}
use rts_vibe_code.GoMap.{lookup}
use rts_vibe_code.Float64.{Float64}
use rts_vibe_code.Match.{Match}
use rts_vibe_code.Commands.{Env, Command}
use rts_vibe_code.Commands.Solvency.{IsSolvent}
use rts_vibe_code.Events.Sound.{IsSound, IsSound-trans, frame-IsSound}
use rts_vibe_code.Runner.{
  MatchHandle, Runner, new_runner, queue_capacity, write_loop, with_loop, handle, hosted,
  ensure_match, send, submit, ask_resync, rebroadcast, unlist, begin_stop, cancel, end_context,
  is_context_done, end_game, end_hosted, force_end,
}
use rts_vibe_code.Runner.Broadcast.{Publication, publish_final_state}
use rts_vibe_code.Runner.Sound.{
  publish_final_state-frame, TurnsSound, on_command-TurnsSound, on_tick-TurnsSound,
  on_resync-IsSound,
}
use rts_vibe_code.Runner.Turns.{
  Moment, Case, Turn, is_done, takes_command, ticks, resyncs, on_command, on_tick, on_resync,
  is_over, finish, after_turn, take_first, take, take_running, turn,
}
use rts_vibe_code.Runner.Hosting.{Hosting, write_loop-Hosting, ensure-Hosting, unlist-Hosting}

-- A loop and what becomes of it, with the same context.
abbrev SameContext : MatchHandle → MatchHandle → Type 0
SameContext l l' = (l'.stopping ≡ l.stopping) × (l'.cancelled ≡ l.cancelled)

-- What a handle found stands for.
abbrev Found : Runner → ℕ → Option (ℕ × MatchHandle) → Type 0
Found r id none = Unit
Found r id (some (k, l)) = (lookup id r.matches ≡ some k) × (lookup k r.loops ≡ some l)

hosted-Found : (r : Runner) (id : ℕ) → Found r id (hosted r id)
unfolding hosted
hosted-Found r id = found (lookup id r.matches) refl
  where
    loop_at :
        (k : ℕ) (l : Option MatchHandle)
        → lookup id r.matches ≡ some k
        → lookup k r.loops ≡ l
        → Found r id (with_loop k l)
    loop_at k none on at = tt
    loop_at k (some l) on at = (on, at)

    found : (k : Option ℕ) → lookup id r.matches ≡ k → Found r id (handle r k)
    found none on = tt
    found (some k) on = loop_at k (lookup k r.loops) on refl

-- The loop of a handle, wherever it was found.
abbrev LoopAt : Runner → Option (ℕ × MatchHandle) → Type 0
LoopAt r none = Unit
LoopAt r (some (k, l)) = lookup k r.loops ≡ some l

Found-at : (r : Runner) (id : ℕ) (o : Option (ℕ × MatchHandle)) → Found r id o → LoopAt r o
Found-at r id none f = tt
Found-at r id (some (k, l)) (on, at) = at

send-Hosting :
    (r : Runner) (cmd : Command) (o : Option (ℕ × MatchHandle))
    → Hosting r
    → LoopAt r o
    → Hosting (send r cmd o).0
send-Hosting r cmd none h at = h
send-Hosting r cmd (some (k, l)) h at = elim (Bool-cases (ltb (length l.cmds) queue_capacity)) [
  | inl room ↦ rw room (
      write_loop-Hosting r k l (record l { cmds = l.cmds ++ cmd ∷ [] }) h at
        (record {
          id = refl;
          stopping = refl;
          owed = h.owed k l at;
          queue = ground (arith, length-append l.cmds (cmd ∷ []), room);
          solvent = h.solvent k l at;
        }))
  | inr full ↦ rw full h
]

ask_resync-Hosting :
    (r : Runner) (o : Option (ℕ × MatchHandle)) → Hosting r → LoopAt r o → Hosting (ask_resync r o)
ask_resync-Hosting r none h at = h
ask_resync-Hosting r (some (k, l)) h at =
    write_loop-Hosting r k l (record l { resync = true }) h at
      (record {
        id = refl;
        stopping = refl;
        owed = h.owed k l at;
        queue = h.queues k l at;
        solvent = h.solvent k l at;
      })

begin_stop-Hosting : (r : Runner) (id : ℕ) → Hosting r → Hosting (begin_stop r id)
unfolding begin_stop
begin_stop-Hosting r id h = cancelled (hosted r id) (hosted-Found r id)
  where
    cancelled : (o : Option (ℕ × MatchHandle)) → Found r id o → Hosting (unlist r id o)
    cancelled none f = h
    cancelled (some (k, l)) (on, at) = unlist-Hosting r id k l h on at

-- The match of a loop may become another one that is sound by it.
played-Hosting :
    (r : Runner) (k : ℕ) (l l' : MatchHandle)
    → Hosting r
    → lookup k r.loops ≡ some l
    → IsSound l.game l'.game
    → SameContext l l'
    → length l'.cmds ≤ length l.cmds
    → Hosting (write_loop r k l')
played-Hosting r k l l' h at (same, solvent) cancelled shorter =
    write_loop-Hosting r k l l' h at (record {
      id = ap (λ b. b.id) same;
      stopping = cancelled.0;
      owed = λ e. cancelled.0 ∙ h.owed k l at (sym cancelled.1 ∙ e);
      queue = omega (arith, shorter, h.queues k l at);
      solvent = solvent (h.solvent k l at);
    })

end_hosted-Hosting :
    (fl : Float64) (r : Runner) (id : ℕ) (o : Option (ℕ × MatchHandle))
    → Hosting r
    → LoopAt r o
    → Hosting (end_hosted fl r id o).0
end_hosted-Hosting fl r id none h at = h
end_hosted-Hosting fl r id (some (k, l)) h at =
    let m' = (publish_final_state fl (end_game l.game)).0 in
    begin_stop-Hosting (write_loop r k (record l { game = m' })) id (
      played-Hosting r k l (record l { game = m' }) h at
        (frame-IsSound l.game m' (publish_final_state-frame fl (end_game l.game))) (refl, refl)
        (omega arith))

force_end-Hosting : (fl : Float64) (r : Runner) (id : ℕ) → Hosting r → Hosting (force_end fl r id).0
unfolding force_end
force_end-Hosting fl r id h =
    end_hosted-Hosting fl r id (hosted r id) h (Found-at r id _ (hosted-Found r id))

module _ (env : Env) (t : Moment) where
  finish-Hosting :
      (r : Runner) (k : ℕ) (l l' : MatchHandle) (out : List Publication) (over : Bool)
      → Hosting r
      → lookup k r.loops ≡ some l
      → IsSound l.game l'.game
      → SameContext l l'
      → length l'.cmds ≤ length l.cmds
      → Hosting (finish env t r k l' out over).0
  finish-Hosting r k l l' out false h at sound cancelled shorter =
      played-Hosting r k l l' h at sound cancelled shorter
  finish-Hosting r k l l' out true h at sound cancelled shorter =
      let m = (publish_final_state env.fl l'.game).0 in
      let r' = write_loop r k (record l' { game = m; running = false }) in
      begin_stop-Hosting r' m.id (
        played-Hosting r k l (record l' { game = m; running = false }) h at
          (IsSound-trans l.game l'.game m sound
            (frame-IsSound l'.game m (publish_final_state-frame env.fl l'.game)))
          cancelled shorter)

  -- What may have come of a turn of the runner.
  abbrev Keeps : Option (Runner × List Publication) → Type 0
  Keeps none = Unit
  Keeps (some (r, out)) = Hosting r

  after_turn-Keeps :
      (r : Runner) (k : ℕ) (l l' : MatchHandle) (o : Option Turn)
      → Hosting r
      → lookup k r.loops ≡ some l
      → SameContext l l'
      → length l'.cmds ≤ length l.cmds
      → TurnsSound l.game o
      → Keeps (after_turn env t r k l' o)
  after_turn-Keeps r k l l' none h at cancelled shorter sound = tt
  after_turn-Keeps r k l l' (some (m, out, false)) h at cancelled shorter sound =
      played-Hosting r k l (record l' { game = m }) h at sound cancelled shorter
  after_turn-Keeps r k l l' (some (m, out, true)) h at cancelled shorter sound =
      finish-Hosting r k l (record l' { game = m }) out (is_over env t m) h at sound cancelled
        shorter

  Keeps-if :
      (b : Bool) (x y : Option (Runner × List Publication))
      → Keeps x
      → Keeps y
      → Keeps (if b then x else y)
  Keeps-if true x y hx hy = hx
  Keeps-if false x y hx hy = hy

  take_first-Keeps :
      (r : Runner) (k : ℕ) (l : MatchHandle) (cmds : List Command)
      → Hosting r
      → lookup k r.loops ≡ some l
      → l.cmds ≡ cmds
      → Keeps (take_first env t r k l cmds)
  take_first-Keeps r k l [] h at e = tt
  take_first-Keeps r k l (cmd ∷ rest) h at e =
      let longer : length l.cmds ≡ suc (length rest) = ap length e in
      after_turn-Keeps r k l (record l { cmds = rest }) (on_command env t l.game cmd) h at
        (refl, refl) (omega (arith, longer)) (on_command-TurnsSound env t l.game cmd)

  take-Keeps :
      (r : Runner) (k : ℕ) (l : MatchHandle) (c : Case)
      → Hosting r
      → lookup k r.loops ≡ some l
      → Keeps (take env t r k l c)
  take-Keeps r k l is_done h at =
      let l' : MatchHandle = record l { running = false } in
      Keeps-if (is_context_done r l) (some (write_loop r k l', [])) none
        (played-Hosting r k l l' h at (frame-IsSound l.game l.game refl) (refl, refl) (omega arith))
        tt
  take-Keeps r k l takes_command h at = take_first-Keeps r k l l.cmds h at refl
  take-Keeps r k l ticks h at =
      after_turn-Keeps r k l l (on_tick env t l.game) h at (refl, refl) (omega arith)
        (on_tick-TurnsSound env t l.game)
  take-Keeps r k l resyncs h at =
      let l' : MatchHandle = record l { resync = false } in
      let o : Option Turn = some (on_resync env t l.game) in
      Keeps-if l.resync (after_turn env t r k l' o) none
        (after_turn-Keeps r k l l' o h at (refl, refl) (omega arith)
          (on_resync-IsSound env t l.game))
        tt

  take_running-Keeps :
      (r : Runner) (k : ℕ) (l : Option MatchHandle) (c : Case)
      → Hosting r
      → lookup k r.loops ≡ l
      → Keeps (take_running env t r k l c)
  take_running-Keeps r k none c h at = tt
  take_running-Keeps r k (some l) c h at =
      Keeps-if l.running (take env t r k l c) none (take-Keeps r k l c h at) tt

  turn-Keeps : (r : Runner) (k : ℕ) (c : Case) → Hosting r → Keeps (turn env t r k c)
  unfolding turn
  turn-Keeps r k c h = take_running-Keeps r k (lookup k r.loops) c h refl

cancel-Hosting :
    (r : Runner) (k : ℕ) (l : MatchHandle)
    → Hosting r
    → lookup k r.loops ≡ some l
    → l.stopping ≡ true
    → Hosting (cancel r k l)
cancel-Hosting r k l h at taken =
    write_loop-Hosting r k l (record l { cancelled = true }) h at
      (record {
        id = refl;
        stopping = refl;
        owed = λ _. taken;
        queue = h.queues k l at;
        solvent = h.solvent k l at;
      })

end_context-Hosting : (r : Runner) (p : ℕ) → Hosting r → Hosting (end_context r p)
end_context-Hosting r p h = record {
  hosted = h.hosted;
  live = h.live;
  owed = h.owed;
  numbered = h.numbered;
  queues = h.queues;
  solvent = h.solvent;
}

-- The runners that calls and turns lead to, from a new one, over matches that owe nothing. A call that has found a
-- handle goes on with it later, whatever has been done to the map; a Stop that has taken one cancels it later.
pub data Reached (env : Env) : Runner → Type 0 where
  starts : Reached env new_runner
  ensures :
      (r : Runner)
      → Reached env r
      → (parent : ℕ) (m : Match) → IsSolvent m
      → Reached env (ensure_match r parent m)
  ends_context : (r : Runner) → Reached env r → (p : ℕ) → Reached env (end_context r p)
  submits : (r : Runner) → Reached env r → (cmd : Command) → Reached env (submit r cmd).0
  submits_late :
      (r : Runner)
      → Reached env r
      → (cmd : Command) (k : ℕ) (l : MatchHandle) → lookup k r.loops ≡ some l
      → Reached env (send r cmd (some (k, l))).0
  rebroadcasts : (r : Runner) → Reached env r → (id : ℕ) → Reached env (rebroadcast r id)
  rebroadcasts_late :
      (r : Runner)
      → Reached env r
      → (k : ℕ) (l : MatchHandle) → lookup k r.loops ≡ some l
      → Reached env (ask_resync r (some (k, l)))
  stops : (r : Runner) → Reached env r → (id : ℕ) → Reached env (begin_stop r id)
  cancels :
      (r : Runner)
      → Reached env r
      → (k : ℕ) (l : MatchHandle) → lookup k r.loops ≡ some l
      → l.stopping ≡ true
      → Reached env (cancel r k l)
  forces : (r : Runner) → Reached env r → (id : ℕ) → Reached env (force_end env.fl r id).0
  forces_late :
      (r : Runner)
      → Reached env r
      → (id k : ℕ) (l : MatchHandle) → lookup k r.loops ≡ some l
      → Reached env (end_hosted env.fl r id (some (k, l))).0
  turns :
      (r : Runner)
      → Reached env r
      → (t : Moment) (k : ℕ) (c : Case) (r' : Runner) (out : List Publication)
      → turn env t r k c ≡ some (r', out)
      → Reached env r'

nothing-Hosting : Hosting new_runner
unfolding new_runner lookup
nothing-Hosting = record {
  hosted = λ id k e. absurd (cc (e));
  live = λ k l e. absurd (cc (e));
  owed = λ k l e. absurd (cc (e));
  numbered = λ k l e. absurd (cc (e));
  queues = λ k l e. absurd (cc (e));
  solvent = λ k l e. absurd (cc (e));
}

-- However an engine is called, over matches without debt, whichever of its loops take a turn, contexts end and calls
-- come between the steps of a Stop: a hosted match has a loop of its own, which no Stop has taken and whose own
-- cancel has not been called; a loop that no Stop has taken is that of a hosted match; no queue is longer than 64
-- commands, and no bank of a match is ever in debt.
pub Reached-Hosting : (env : Env) (r : Runner) → Reached env r → Hosting r
unfolding ensure_match submit rebroadcast
Reached-Hosting env r starts = nothing-Hosting
Reached-Hosting env r (ensures r0 past parent m s) =
    ensure-Hosting r0 parent m (lookup m.id r0.matches) (Reached-Hosting env r0 past) refl s
Reached-Hosting env r (ends_context r0 past p) =
    end_context-Hosting r0 p (Reached-Hosting env r0 past)
Reached-Hosting env r (submits r0 past cmd) =
    send-Hosting r0 cmd (hosted r0 cmd.match_id) (Reached-Hosting env r0 past)
      (Found-at r0 cmd.match_id _ (hosted-Found r0 cmd.match_id))
Reached-Hosting env r (submits_late r0 past cmd k l at) =
    send-Hosting r0 cmd (some (k, l)) (Reached-Hosting env r0 past) at
Reached-Hosting env r (rebroadcasts r0 past id) =
    ask_resync-Hosting r0 (hosted r0 id) (Reached-Hosting env r0 past)
      (Found-at r0 id _ (hosted-Found r0 id))
Reached-Hosting env r (rebroadcasts_late r0 past k l at) =
    ask_resync-Hosting r0 (some (k, l)) (Reached-Hosting env r0 past) at
Reached-Hosting env r (stops r0 past id) = begin_stop-Hosting r0 id (Reached-Hosting env r0 past)
Reached-Hosting env r (cancels r0 past k l at taken) =
    cancel-Hosting r0 k l (Reached-Hosting env r0 past) at taken
Reached-Hosting env r (forces r0 past id) =
    force_end-Hosting env.fl r0 id (Reached-Hosting env r0 past)
Reached-Hosting env r (forces_late r0 past id k l at) =
    end_hosted-Hosting env.fl r0 id (some (k, l)) (Reached-Hosting env r0 past) at
Reached-Hosting env r (turns r0 past t k c r' out e) =
    subst (Keeps env t) e (turn-Keeps env t r0 k c (Reached-Hosting env r0 past))
