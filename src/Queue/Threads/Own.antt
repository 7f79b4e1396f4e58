-- ===== src/Queue/Threads/Own.antt =====
-- What a thread of src/queue.c changes when it moves, and what it leaves to the others.
use ferretptimize.Common.{
  ℕ, ◌+◌, ◌%◌, ◌<◌, ◌≡◌, ◌≢◌, ◌∙◌, inl, inr, refl, sym, ap, true, false, Option, none, some, List,
  arith, ◌==◌, Bool-cases, get_or-set_self,
}
use mathlib.Core.Path.{subst}
use native.Mathlib.Decide.{ℕ_discrete}
use ferretptimize.Queue.{Slot, absent, Queue, slot_at, set_slot, Pc}
use ferretptimize.Queue.Threads.{System, with_entry}
use ferretptimize.Queue.Threads.Invariant.{writes, reads, IsWriting, Ok, Shared, Inv}
use ferretptimize.Queue.Threads.Others.{spared_by_writer, spared_by_reader}

with_entry_self : {A : Type 0} (f : ℕ → A) (i j : ℕ) (a : A) → j ≡ i → with_entry f i a j ≡ a
with_entry_self f i j a e = let same : (j == i) ≡ true = ground (arith, e) in rw same refl

with_entry_other : {A : Type 0} (f : ℕ → A) (i j : ℕ) (a : A) → j ≢ i → with_entry f i a j ≡ f j
with_entry_other f i j a apart =
    let other : (j == i) ≡ false = ground (arith, apart) in rw other refl

-- What thread `i` leaves behind when it comes to `c`.
pub record Moved (s : System) (i : ℕ) (q : Queue) (items : List ℕ) (c : Pc) (promised : Option ℕ)
    : Type 0 where
  pub shared : Shared q items
  pub own : Ok q items promised c
  pub others : (j : ℕ) → j ≢ i → Ok q items (s.promised j) (s.pc j)
  pub writer : (t : ℕ) → writes c ≡ some t → (j : ℕ) → j ≢ i → writes (s.pc j) ≢ some t
  pub reader : (t : ℕ) → reads c ≡ some t → (j : ℕ) → j ≢ i → reads (s.pc j) ≢ some t

unfoldable pub moved_to : System → ℕ → Queue → List ℕ → Pc → Option ℕ → System
moved_to s i q items c promised = record {
  queue = q;
  pc = with_entry s.pc i c;
  items = items;
  promised = with_entry s.promised i promised;
}

-- At most one thread holds a ticket after a move as well.
one_holder :
    (f : Pc → Option ℕ) (pc : ℕ → Pc) (i : ℕ) (c : Pc)
    → ((a b t : ℕ) → f (pc a) ≡ some t → f (pc b) ≡ some t → a ≡ b)
    → ((t : ℕ) → f c ≡ some t → (j : ℕ) → j ≢ i → f (pc j) ≢ some t)
    → (a b t : ℕ) → f (with_entry pc i c a) ≡ some t
    → f (with_entry pc i c b) ≡ some t
    → a ≡ b
one_holder f pc i c one new a b t ea eb = elim (ℕ_discrete a i) [
  | yes moved ↦ elim (ℕ_discrete b i) [
    | yes also ↦ moved ∙ sym also
    | no apart ↦ absurd (new t (self a moved ea) b apart (other b apart eb))
  ]
  | no apart ↦ elim (ℕ_discrete b i) [
    | yes moved ↦ absurd (new t (self b moved eb) a apart (other a apart ea))
    | no also ↦ one a b t (other a apart ea) (other b also eb)
  ]
]
  where
    self : (j : ℕ) → j ≡ i → f (with_entry pc i c j) ≡ some t → f c ≡ some t
    self j e h = ap f (sym (with_entry_self pc i j c e)) ∙ h

    other : (j : ℕ) → j ≢ i → f (with_entry pc i c j) ≡ some t → f (pc j) ≡ some t
    other j e h = ap f (sym (with_entry_other pc i j c e)) ∙ h

pub Moved-Inv :
    (s : System) (i : ℕ) (q : Queue) (items : List ℕ) (c : Pc) (promised : Option ℕ)
    → Inv s
    → Moved s i q items c promised
    → Inv (moved_to s i q items c promised)
unfolding moved_to
Moved-Inv s i q items c promised inv m = record {
  shared = m.shared;
  threads = λ j. elim (Bool-cases (j == i)) [
    | inl same ↦ rw same m.own
    | inr other ↦ rw other (m.others j (ground (arith, other)))
  ];
  one_writer = one_holder writes s.pc i c inv.one_writer m.writer;
  one_reader = one_holder reads s.pc i c inv.one_reader m.reader;
}

-- A step that leaves the queue and the FIFO as they are.
pub quiet-Moved :
    (s : System) (i : ℕ) (c c' : Pc)
    → s.pc i ≡ c
    → Inv s
    → Ok s.queue s.items (s.promised i) c'
    → ((t : ℕ) → writes c' ≡ some t → writes c ≡ some t)
    → ((t : ℕ) → reads c' ≡ some t → reads c ≡ some t)
    → Moved s i s.queue s.items c' (s.promised i)
quiet-Moved s i c c' here inv own written read = record {
  shared = inv.shared;
  own = own;
  others = λ j apart. inv.threads j;
  writer = λ t e j apart h. apart (inv.one_writer j i t h (ap writes here ∙ written t e));
  reader = λ t e j apart h. apart (inv.one_reader j i t h (ap reads here ∙ read t e));
}

-- The same, where the thread holds no ticket after it.
pub idle-Moved :
    (s : System) (i : ℕ) (c c' : Pc)
    → s.pc i ≡ c
    → Inv s
    → Ok s.queue s.items (s.promised i) c'
    → writes c' ≡ none
    → reads c' ≡ none
    → Moved s i s.queue s.items c' (s.promised i)
idle-Moved s i c c' here inv own written read =
    quiet-Moved s i c c' here inv own (λ t e. absurd (ground (arith, sym written ∙ e)))
      (λ t e. absurd (ground (arith, sym read ∙ e)))

-- What the thread knows where it stands.
pub stands :
    (s : System) (i : ℕ) (c : Pc) → s.pc i ≡ c → Inv s → Ok s.queue s.items (s.promised i) c
stands s i c here inv = subst (λ (x : Pc). Ok s.queue s.items (s.promised i) x) here (inv.threads i)

-- A push on the slot that waits for it.
pub own_slot-Moved :
    (s : System) (i item at : ℕ) (v : Slot) (c c' : Pc)
    → s.pc i ≡ c
    → Inv s
    → writes c ≡ some at
    → IsWriting s.queue s.items item at
    → Shared (set_slot s.queue at v) s.items
    → Ok (set_slot s.queue at v) s.items (s.promised i) c'
    → ((t : ℕ) → writes c' ≡ some t → writes c ≡ some t)
    → ((t : ℕ) → reads c' ≡ some t → reads c ≡ some t)
    → Moved s i (set_slot s.queue at v) s.items c' (s.promised i)
own_slot-Moved s i item at v c c' here inv ticket w shared own written read = record {
  shared = shared;
  own = own;
  others = λ j apart.
      spared_by_writer s.queue s.items inv.shared at v w.seq w.drawn (s.promised j) (s.pc j)
        (λ h. apart (inv.one_writer j i at h (ap writes here ∙ ticket))) (inv.threads j);
  writer = λ t e j apart h. apart (inv.one_writer j i t h (ap writes here ∙ written t e));
  reader = λ t e j apart h. apart (inv.one_reader j i t h (ap reads here ∙ read t e));
}

-- The pointer is in the slot once it is written.
pub written-Ok :
    (q : Queue) (items : List ℕ)
    → Shared q items
    → (item at : ℕ) → IsWriting q items item at
    → IsWriting (set_slot q at (record { seq = (slot_at q at).seq; value = item })) items item at
      × ((slot_at (set_slot q at (record { seq = (slot_at q at).seq; value = item })) at).value
          ≡ item)
written-Ok q items shared item at w =
    let v : Slot = record { seq = (slot_at q at).seq; value = item } in
    let new : slot_at (set_slot q at v) at ≡ v =
      get_or-set_self q.slots (at % q.capacity) v absent
        (omega (arith, shared.room, shared.size)) in
    (
      record {
        drawn = w.drawn;
        waiting = w.waiting;
        seq = ap (λ (x : Slot). x.seq) new ∙ w.seq;
        entered = w.entered;
      },
      ap (λ (x : Slot). x.value) new,
    )

-- A pop on the slot that it reads.
pub own_read-Moved :
    (s : System) (i at : ℕ) (v : Slot) (c c' : Pc)
    → s.pc i ≡ c
    → Inv s
    → reads c ≡ some at
    → (at < s.queue.head) × ((slot_at s.queue at).seq ≡ at + 1)
    → Shared (set_slot s.queue at v) s.items
    → Ok (set_slot s.queue at v) s.items (s.promised i) c'
    → writes c' ≡ none
    → reads c' ≡ none
    → Moved s i (set_slot s.queue at v) s.items c' (s.promised i)
own_read-Moved s i at v c c' here inv ticket (drawn, seq) shared own written read = record {
  shared = shared;
  own = own;
  others = λ j apart.
      spared_by_reader s.queue s.items inv.shared at v seq drawn (s.promised j) (s.pc j)
        (λ h. apart (inv.one_reader j i at h (ap reads here ∙ ticket))) (inv.threads j);
  writer = λ t e j apart h. absurd (ground (arith, sym written ∙ e));
  reader = λ t e j apart h. absurd (ground (arith, sym read ∙ e));
}
