-- ===== src/Visibility/Framed.antt =====
-- The questions of visibility write nothing but the cache of contributors.
use rts_vibe_code.Prelude.{◌≡◌, refl, ap, ◌∙◌, Option, none, some, List, arith, nat_key}
use rts_vibe_code.GoMap.{GoMap, lookup}
use rts_vibe_code.Float64.{Float64}
use rts_vibe_code.Diplomacy.{Slot, Time}
use rts_vibe_code.Match.{Match, AppliedEvent}
use rts_vibe_code.Match.Frame.{frame}
use rts_vibe_code.Visibility.{answer, fresh_cache, viewer_contributors, visible_for}
use rts_vibe_code.Visibility.Batch.{
  Batch, VisibleSet, kept, visible, ensure_shared, slot_observes_event, filtered,
}

answer-frame :
    (m : Match) (slot : Slot) (cache : GoMap Slot (List Slot)) (known : Option (List Slot))
    → frame (answer m slot cache known).0 ≡ frame m
answer-frame m slot cache none = refl
answer-frame m slot cache (some known) = refl

visible_for-frame :
    (fl : Float64) (m : Match) (slot : Slot) (at : Time)
    → frame (visible_for fl m slot at).0 ≡ frame m
unfolding visible_for viewer_contributors
visible_for-frame fl m slot at = answer-frame m slot (fresh_cache m) (lookup slot (fresh_cache m))

kept-frame :
    (fl : Float64) (b : Batch) (slot : Slot) (known : Option VisibleSet)
    → frame (kept fl b slot known).0.game ≡ frame b.game
kept-frame fl b slot none = visible_for-frame fl b.game slot b.at
kept-frame fl b slot (some v) = refl

visible-frame :
    (fl : Float64) (b : Batch) (slot : Slot) → frame (visible fl b slot).0.game ≡ frame b.game
unfolding visible
visible-frame fl b slot = kept-frame fl b slot (lookup slot b.vis)

pub slot_observes_event-frame :
    (fl : Float64) (b : Batch) (slot : Slot) (e : AppliedEvent)
    → frame (slot_observes_event fl b slot e).0.game ≡ frame b.game
unfolding slot_observes_event
slot_observes_event-frame fl b slot e = visible-frame fl b slot

ensure_shared-game : (b : Batch) → (ensure_shared b).0.game ≡ b.game
unfolding ensure_shared
ensure_shared-game b = ground arith

pub filtered-frame :
    (fl : Float64) (b : Batch) (slot : Slot) → frame (filtered fl b slot).0.game ≡ frame b.game
unfolding filtered
filtered-frame fl b slot =
    ap frame (ensure_shared-game (visible fl b slot).0) ∙ visible-frame fl b slot
