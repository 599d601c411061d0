-- ===== src/Timeline/Order.antt =====
-- The order of the events of internal/domain/timeline/timeline.go.
use rts_vibe_code.Prelude.{
  ℕ, ◌+◌, ◌≤◌, ◌≡◌, refl, ◌∙◌, ap, Bool, some, ◌∷◌, arith, length, get_elem?,
}
use rts_vibe_code.Heap.Array.{count, one, lt_of_get_elem?}
use rts_vibe_code.Heap.Queue.{IsHeap, push-IsHeap, count-push, pop-Pops}
use rts_vibe_code.Timeline.{Event, Timeline, due, push, peek, pop}

-- The slice of the timeline is a heap by the times of its events.
abbrev pub IsTimeline : Timeline → Type 0
IsTimeline t = IsHeap due t

-- Scheduling an event on a timeline that is a heap keeps it one, and adds this event to those that it
-- holds.
pub push_lem :
    (t : Timeline) (e : Event)
    → IsTimeline t
    → IsTimeline (push t e) × ((p : Event → Bool) → count p (push t e) ≡ count p t + one p e)
unfolding push
push_lem t e o = (push-IsHeap due t e o, count-push due t e)

-- `Pop` takes the event that `Peek` shows off a timeline that is a heap and not empty. No event of the
-- timeline is due before it, the others stay, each as often, and still form a heap.
pub pop_earliest :
    (first : Event) (others : Timeline)
    → IsTimeline (first ∷ others)
    → (k : ℕ) (f : Event) → get_elem? (first ∷ others) k ≡ some f
    → (rest : Timeline) × (pop (first ∷ others) ≡ some (first, rest))
      × (peek (first ∷ others) ≡ some first)
      × (first.at ≤ f.at)
      × ((p : Event → Bool) → count p (first ∷ others) ≡ count p rest + one p first)
      × IsTimeline rest
      × (length others ≡ length rest)
unfolding pop peek
pop_earliest first others o k f at_k =
    let (e, rest, taken) = pop-Pops due (first ∷ others) o (omega arith) in
    let same : e ≡ first = cc (taken.first) in
    (
      rest,
      taken.result ∙ ap (λ x. some (x, rest)) same,
      refl,
      ground (arith, taken.least k, lt_of_get_elem? (first ∷ others) k at_k, same),
      λ p. taken.same p ∙ ap (λ x. count p rest + one p x) same,
      taken.heap,
      omega (arith, taken.size),
    )
