-- ===== src/Match/Victory/Framed.antt =====
-- The check for victory of internal/domain/matchdom/victory.go leaves the frame of the match alone.
use rts_vibe_code.Prelude.{◌≡◌, refl, List, [], ◌∷◌, arith}
use rts_vibe_code.Diplomacy.{Slot, Time}
use rts_vibe_code.Match.{Match}
use rts_vibe_code.Match.Frame.{frame}
use rts_vibe_code.Match.Victory.{
  check_victory, check_active, decide, settle, end_match, capital_slots,
}

settle-frame :
    (m : Match) (capitals : List Slot) (coalitions : List (Slot × List Slot)) (at : Time)
    → frame (settle m capitals coalitions at).0 ≡ frame m
unfolding settle end_match
settle-frame m capitals [] at = refl
settle-frame m capitals ((leader, members) ∷ []) at = refl
settle-frame m capitals (a ∷ b ∷ rest) at = refl

decide-frame :
    (m : Match) (at : Time) (capitals : List Slot) → frame (decide m at capitals).0 ≡ frame m
decide-frame m at [] = refl
decide-frame m at (c ∷ rest) = settle-frame m (c ∷ rest) _ at

pub check_victory-frame : (m : Match) (at : Time) → frame (check_victory m at).0 ≡ frame m
unfolding check_victory check_active
check_victory-frame m at = ground (arith, decide-frame m at (capital_slots m))
