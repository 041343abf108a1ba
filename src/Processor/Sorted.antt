-- ===== src/Processor/Sorted.antt =====
-- agent/services/event_processor_service.py: `sorted_events` holds the events of the batch, ordered
-- by sequence number (0 for none) and then by time.
use mathlib.Core.List.{Perm}
use mathlib.Core.List.Perm
use atm_monitoring_agent.Prelude.{◌≡◌, true, false, List, [], ◌∷◌, arith, Bool-cases, inl, inr, All}
use atm_monitoring_agent.ParserModels.{AtmParsedEvent}
use atm_monitoring_agent.Processor.Order.{key_le, insert_sorted, sort_events}

-- Every event is at most each of the later ones.
abbrev pub IsOrdered : List AtmParsedEvent → Type 0
IsOrdered [] = Unit
IsOrdered (e ∷ es) = All (λ x. key_le e x ≡ true) es × IsOrdered es

key_le_trans : (a b c : AtmParsedEvent) → key_le a b ≡ true → key_le b c ≡ true → key_le a c ≡ true
unfolding key_le
key_le_trans a b c h k = ground arith

key_le-total : (a b : AtmParsedEvent) → key_le a b ≡ false → key_le b a ≡ true
unfolding key_le
key_le-total a b h = ground arith

All-key_le :
    (e x : AtmParsedEvent) (es : List AtmParsedEvent)
    → key_le e x ≡ true
    → All (λ y. key_le x y ≡ true) es
    → All (λ y. key_le e y ≡ true) es
All-key_le e x [] h hs = tt
All-key_le e x (y ∷ es) h hs = (key_le_trans e x y h hs.0, All-key_le e x es h hs.1)

All-insert_sorted :
    (x e : AtmParsedEvent) (es : List AtmParsedEvent)
    → key_le x e ≡ true
    → All (λ y. key_le x y ≡ true) es
    → All (λ y. key_le x y ≡ true) (insert_sorted e es)
unfolding insert_sorted
All-insert_sorted x e [] h hs = (h, hs)
All-insert_sorted x e (y ∷ es) h hs = elim (Bool-cases (key_le e y)) [
  | inl first ↦ rw first (h, hs)
  | inr later ↦ rw later (hs.0, All-insert_sorted x e es h hs.1)
]

insert_sorted-IsOrdered :
    (e : AtmParsedEvent) (es : List AtmParsedEvent) → IsOrdered es → IsOrdered (insert_sorted e es)
unfolding insert_sorted
insert_sorted-IsOrdered e [] o = (tt, tt)
insert_sorted-IsOrdered e (x ∷ es) (least, o) = elim (Bool-cases (key_le e x)) [
  | inl first ↦ rw first ((first, All-key_le e x es first least), (least, o))
  | inr later ↦
      rw later
        (All-insert_sorted x e es (key_le-total e x later) least, insert_sorted-IsOrdered e es o)
]

insert_sorted-perm :
    (e : AtmParsedEvent) (es : List AtmParsedEvent) → Perm (insert_sorted e es) (e ∷ es)
unfolding insert_sorted
insert_sorted-perm e [] = Perm.refl (e ∷ [])
insert_sorted-perm e (x ∷ es) = elim (Bool-cases (key_le e x)) [
  | inl first ↦ rw first (Perm.refl (e ∷ x ∷ es))
  | inr later ↦ rw later (Perm.trans (Perm.cons x (insert_sorted-perm e es)) (Perm.swap e x es))
]

-- The events are taken in order of their sequence numbers, a missing one counting as 0, and among
-- equal numbers in order of their times; all events of the batch are taken, each as often as it
-- occurs.
pub sort_events-IsOrdered :
    (es : List AtmParsedEvent) → IsOrdered (sort_events es) × Perm (sort_events es) es
unfolding sort_events
sort_events-IsOrdered [] = (tt, Perm.refl [])
sort_events-IsOrdered (e ∷ es) =
    let (o, p) = sort_events-IsOrdered es in
    (
      insert_sorted-IsOrdered e (sort_events es) o,
      Perm.trans (insert_sorted-perm e (sort_events es)) (Perm.cons e p),
    )
