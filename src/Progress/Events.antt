-- ===== src/Progress/Events.antt =====
-- What the reader of a progress channel of src/progress.c gets.
use ferretptimize.Common.{
  ℕ, zero, suc, ◌+◌, ◌≡◌, refl, Bool, true, false, not, List, [], ◌∷◌, ◌++◌, append_assoc,
  append-nil, ap, Option, none, some, if◌then◌else◌, length, arith,
}
use ferretptimize.Progress.{Event, Channel, channel_push, close, next_event, is_nil}

unfoldable pub push_all : Channel → List Event → Channel
push_all c [] = c
push_all c (e ∷ es) = push_all (channel_push c e) es

-- What `n` calls of `fp_progress_next_event` give, or none when one of them waits.
unfoldable pub reads : ℕ → Channel → Option (List (Option Event × Bool))
reads zero c = some []
reads (suc n) c = elim (next_event c) [
  | none ↦ none
  | some (e, is_open, c') ↦ elim (reads n c') [
    | none ↦ none
    | some rest ↦ some ((e, is_open) ∷ rest)
  ]
]

-- Each event in its turn, with the channel closed at the last.
unfoldable pub deliveries : List Event → List (Option Event × Bool)
deliveries [] = []
deliveries (e ∷ es) = (some e, not (is_nil es)) ∷ deliveries es

channel_push-open :
    (c : Channel) (e : Event)
    → c.closed ≡ false
    → channel_push c e ≡ record c { events = c.events ++ (e ∷ []) }
unfolding channel_push
channel_push-open c e h =
    ap (λ (b : Bool). if b then c else record c { events = c.events ++ (e ∷ []) }) h

channel_push-closed : (c : Channel) (e : Event) → c.closed ≡ true → channel_push c e ≡ c
unfolding channel_push
channel_push-closed c e h =
    ap (λ (b : Bool). if b then c else record c { events = c.events ++ (e ∷ []) }) h

pub push_all-open :
    (c : Channel) (es : List Event)
    → c.closed ≡ false
    → push_all c es ≡ record c { events = c.events ++ es }
unfolding push_all
push_all-open c [] h = rw (append-nil c.events) refl
push_all-open c (e ∷ es) h = rw (channel_push-open c e h) (
    rw (push_all-open (record c { events = c.events ++ (e ∷ []) }) es h)
      (rw (append_assoc c.events (e ∷ []) es) refl))

push_all-closed : (c : Channel) (es : List Event) → c.closed ≡ true → push_all c es ≡ c
unfolding push_all
push_all-closed c [] h = refl
push_all-closed c (e ∷ es) h = rw (channel_push-closed c e h) (push_all-closed c es h)

reads-closed :
    (c : Channel) (es : List Event)
    → c.closed ≡ true
    → c.events ≡ es
    → reads (length es + 1) c ≡ some (deliveries es ++ ((none, false) ∷ []))
unfolding reads next_event deliveries
reads-closed c [] h q = ground (arith, h, q)
reads-closed c (e ∷ es) h q =
    ground (arith, h, q, reads-closed (record c { events = es }) es h refl)

-- The reader gets the events that were pushed before the close, in their order, each said to be
-- followed by others but the last, and then the end; those pushed after the close are dropped.
pub reads-close :
    (c : Channel) (es late : List Event)
    → c.closed ≡ false
    → reads (length (c.events ++ es) + 1) (push_all (close (push_all c es)) late)
      ≡ some (deliveries (c.events ++ es) ++ ((none, false) ∷ []))
unfolding close
reads-close c es late h = rw (push_all-open c es h) (
    rw (push_all-closed (record c { events = c.events ++ es; closed = true }) late refl) (
      reads-closed (record c { events = c.events ++ es; closed = true }) (c.events ++ es) refl
        refl))

-- What a call leaves that says that the channel is not open.
next_event-false :
    (c after : Channel) (e : Option Event) (es : List Event)
    → c.events ≡ es
    → next_event c ≡ some (e, false, after)
    → (after.closed ≡ true) × (after.events ≡ [])
unfolding next_event
next_event-false c after e [] q h = ground (arith, q, h)
next_event-false c after e (x ∷ []) q h = ground (arith, q, h)
next_event-false c after e (x ∷ y ∷ es) q h = ground (arith, q, h)

next_event-empty :
    (c : Channel) → c.closed ≡ true → c.events ≡ [] → next_event c ≡ some (none, false, c)
unfolding next_event
next_event-empty c h q = ground (arith, h, q)

-- Once a call says that the channel is not open, nothing that is pushed later reaches the reader.
pub next_event-end :
    (c after : Channel) (e : Option Event) (late : List Event)
    → next_event c ≡ some (e, false, after)
    → next_event (push_all after late) ≡ some (none, false, after)
next_event-end c after e late h =
    let (closed, empty) = next_event-false c after e c.events refl h in
    rw (push_all-closed after late closed) (next_event-empty after closed empty)
