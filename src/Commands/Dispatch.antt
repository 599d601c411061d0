-- ===== src/Commands/Dispatch.antt =====
-- `Dispatch` of internal/domain/cmddom/registry.go.
use Prim.Native.String.{String}
use text.Mathlib.Text.{◌==◌ as same_text}
use rts_vibe_code.Prelude.{ℕ, not, ◌&&◌, Option, none, some, [], ◌∷◌, ◌==◌, if◌then◌else◌}
use rts_vibe_code.GoMap.{GoMap}
use rts_vibe_code.Diplomacy.{Slot}
use rts_vibe_code.Match.{Match, Player, Status, active, ended}
use rts_vibe_code.Commands.{
  Env, Command, unauthorized, unknown_command, match_inactive, Reply, rejected,
}
use rts_vibe_code.Commands.Move.{apply_move}
use rts_vibe_code.Commands.Production.{apply_recruit, apply_construct}
use rts_vibe_code.Commands.Treaty.{
  apply_declare_war, apply_propose_peace, apply_propose_alliance, apply_accept_peace,
  apply_accept_alliance, apply_share_map, apply_revoke_share_map, apply_right_of_way_grant,
  apply_right_of_way_revoke,
}

pub data Handler : Type 0 where
  moves recruits constructs declares_war proposes_peace proposes_alliance accepts_peace : Handler
  accepts_alliance shares_map revokes_share_map grants_right_of_way revokes_right_of_way : Handler

unfoldable pub handler_for : String → Option Handler
handler_for k =
    if same_text k "move"
    then some moves
    else if same_text k "recruit"
    then some recruits
    else if same_text k "construct"
    then some constructs
    else if same_text k "declare_war"
    then some declares_war
    else if same_text k "propose_peace"
    then some proposes_peace
    else if same_text k "propose_alliance"
    then some proposes_alliance
    else if same_text k "accept_peace"
    then some accepts_peace
    else if same_text k "accept_alliance"
    then some accepts_alliance
    else if same_text k "share_map"
    then some shares_map
    else if same_text k "revoke_share_map"
    then some revokes_share_map
    else if same_text k "right_of_way_grant"
    then some grants_right_of_way
    else if same_text k "right_of_way_revoke"
    then some revokes_right_of_way
    else none

-- `h.Apply(m, cmd)`; `fresh` is the id for an order.
unfoldable pub apply : Env → Handler → Match → Command → ℕ → Match × Reply
apply env moves m cmd fresh = apply_move env m cmd
apply env recruits m cmd fresh = apply_recruit m cmd fresh
apply env constructs m cmd fresh = apply_construct m cmd fresh
apply env declares_war m cmd fresh = apply_declare_war env m cmd
apply env proposes_peace m cmd fresh = apply_propose_peace env m cmd
apply env proposes_alliance m cmd fresh = apply_propose_alliance env m cmd
apply env accepts_peace m cmd fresh = apply_accept_peace env m cmd
apply env accepts_alliance m cmd fresh = apply_accept_alliance env m cmd
apply env shares_map m cmd fresh = apply_share_map env m cmd
apply env revokes_share_map m cmd fresh = apply_revoke_share_map env m cmd
apply env grants_right_of_way m cmd fresh = apply_right_of_way_grant env m cmd
apply env revokes_right_of_way m cmd fresh = apply_right_of_way_revoke env m cmd

-- The slot of a user: the first of the players, in the order of the map.
unfoldable pub slot_of_user : ℕ → GoMap Slot Player → Slot
slot_of_user user [] = 0
slot_of_user user ((slot, p) ∷ rest) = if p.user_id == user then slot else slot_of_user user rest

unfoldable pub with_issuer : Match → Command → Command
with_issuer m cmd =
    if cmd.issuer_slot == 0 && not (cmd.user_id == 0)
    then record cmd { issuer_slot = slot_of_user cmd.user_id m.players }
    else cmd

abbrev pub by_status {ℓ} : {A : Type ℓ} → Status → A → A → A
by_status active go stop = go
by_status ended go stop = stop

abbrev pub with_handler : Env → Match → Command → ℕ → Option Handler → Match × Reply
with_handler env m cmd fresh none = (m, rejected "unknown_kind" unknown_command)
with_handler env m cmd fresh (some h) = apply env h m cmd fresh

unfoldable pub dispatch_active : Env → Match → Command → ℕ → Match × Reply
unfolding handler_for apply
dispatch_active env m cmd fresh =
    if cmd.issuer_slot == 0
    then (m, rejected "no_slot" unauthorized)
    else with_handler env m cmd fresh (handler_for cmd.kind)

unfoldable pub dispatch : Env → Match → Command → ℕ → Match × Reply
unfolding dispatch_active with_issuer
dispatch env m cmd fresh =
    by_status m.status (dispatch_active env m (with_issuer m cmd) fresh)
      (m, rejected "match_inactive" match_inactive)
