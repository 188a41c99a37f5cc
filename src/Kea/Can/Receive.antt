-- ===== src/Kea/Can/Receive.antt =====
-- The queue of received packets against a list.
use uptiny.Base.{
  ℕ, zero, suc, ◌+◌, ◌-◌, ◌%◌, ◌<◌, ◌≤◌, ◌≡◌, refl, ◌∙◌, sym, ap, Bool, true, false, ◌&&◌, ltb,
  ◌==◌, if◌then◌else◌, List, [], ◌∷◌, ◌++◌, Buffer, advance, cells, arith, Bool-cases, inl, inr,
  All, Option, none, some, leb, write,
}
use uptiny.Kea.Can.{CanPack, CanBuf, Frame, next_index, address_of_frame, rx_handler, can_recv}
use uptiny.Kea.Can.Ring.{items, items-push, items-pop, AllShort, All-append}
use mathlib.Core.List.{append_assoc}

-- What a packet says: its address and its data.
abbrev pub content : CanPack → ℕ × List ℕ
content pack = (pack.af, cells pack.data' pack.dlc)

abbrev pub content_of_frame : Frame → ℕ × List ℕ
content_of_frame f = (address_of_frame f, cells f.dsr (f.dlr % 16))

-- The packets in the queue, the oldest first.
abbrev pub received : CanBuf → List (ℕ × List ℕ)
received q = items content q.len q.end q.buf

pub record IsInRing (q : CanBuf) : Type 0 where
  pub len_le : q.len ≤ 16
  pub end_lt : q.end < 16
  pub beg_at : q.beg ≡ (q.end + q.len) % 16
  pub short : AllShort (items (λ p. p) q.len q.end q.buf)

cells_eq : (n : ℕ) (a b : Buffer) → ((i : ℕ) → i < n → a i ≡ b i) → cells a n ≡ cells b n
unfolding cells
cells_eq zero a b h = refl
cells_eq (suc n) a b h =
    rw (h 0 (omega arith))
      (ap (◌∷◌ (b 0)) (cells_eq n (advance a 1) (advance b 1) (λ i lt. h (1 + i) (omega arith))))

content-copy :
    (af n : ℕ) (from old : Buffer)
    → content (record { af = af; dlc = n; data' = λ i. if ltb i n then from i else old i })
      ≡ (af, cells from n)
content-copy af n from old = ap (λ xs. (af, xs)) (cells_eq n _ from (λ i lt. ground arith))

-- A frame of at most 8 bytes goes to the end, or is lost where the queue is full.
pub rx_handler-received :
    (is_full : Bool) (f : Frame) (q : CanBuf)
    → f.dlr % 16 ≤ 8
    → IsInRing q
    → (q' : CanBuf) × (rx_handler is_full f q ≡ some q')
      × IsInRing q'
      × (received q'
          ≡ (if is_full && ltb q.len 16 then received q ++ content_of_frame f ∷ [] else received q))
unfolding rx_handler
rx_handler-received false f q short v = (q, refl, v, refl)
rx_handler-received true f q short v = elim (Bool-cases (ltb q.len 16)) [
  | inr full ↦ rw full (q, refl, v, refl)
  | inl room ↦
      let dlc = f.dlr % 16 in
      let old = q.buf q.beg in
      let pack : CanPack = record {
        af = address_of_frame f;
        dlc = dlc;
        data' = λ i. if ltb i dlc then f.dsr i else old.data' i;
      } in
      let fits : leb dlc 8 ≡ true = ground arith in
      rw (room, fits)
        (
          record q { buf = write q.buf q.beg pack; len = q.len + 1; beg = next_index q.beg },
          refl,
          record {
            len_le = ground arith;
            end_lt = v.end_lt;
            beg_at = ground (arith, v.end_lt, v.len_le, v.beg_at);
            short =
                rw
                  (items-push (λ p. p) q.len q.end q.beg q.buf pack (ground arith) v.end_lt
                    v.beg_at)
                  (All-append _ pack v.short short);
          },
          items-push content q.len q.end q.beg q.buf pack (ground arith) v.end_lt v.beg_at
              ∙ ap (λ c. received q ++ c ∷ [])
                  (content-copy (address_of_frame f) dlc f.dsr old.data'),
        )
]

-- The oldest packet is taken, or there is none.
pub can_recv-received :
    (pack : CanPack) (q : CanBuf)
    → IsInRing q
    → (ok : Bool) × (pack' : CanPack) × (q' : CanBuf) × (can_recv pack q ≡ some (ok, pack', q'))
      × IsInRing q'
      × (received q ≡ (if ok then content pack' ∷ [] else []) ++ received q')
unfolding can_recv
can_recv-received pack q v = elim (Bool-cases (q.len == 0)) [
  | inl empty ↦ rw empty (false, pack, q, refl, v, refl)
  | inr some_left ↦
      let from = q.buf q.end in
      let short = rw (items-pop (λ p. p) q.len q.end q.buf some_left) at v.short in
      let fits : leb from.dlc 8 ≡ true = let le = short.0 in ground arith in
      let q' : CanBuf = record q { len = q.len - 1; end = next_index q.end } in
      rw (some_left, fits)
        (
          true,
          record {
            af = from.af;
            dlc = from.dlc;
            data' = λ i. if ltb i from.dlc then from.data' i else pack.data' i;
          },
          q',
          refl,
          record {
            len_le = omega (arith, v.len_le);
            end_lt = ground (arith, v.end_lt);
            beg_at = ground (arith, v.end_lt, v.len_le, v.beg_at);
            short = short.1;
          },
          items-pop content q.len q.end q.buf some_left
              ∙ ap (λ c. c ∷ received q')
                  (sym (content-copy from.af from.dlc from.data' pack.data')),
        )
]

-- What happens to the queue: a receive interrupt, with or without a frame, or a call of `can_recv`
-- with a packet to fill.
pub data ReceiveEvent : Type 0 where
  incoming : Bool → Frame → ReceiveEvent
  take : CanPack → ReceiveEvent

-- The queue after events, the frames that found room, and what `can_recv` gave.
pub record Trace : Type 0 where
  pub queue : CanBuf
  pub accepted : List (ℕ × List ℕ)
  pub given : List (ℕ × List ℕ)

-- `none` where a handler has no defined behaviour.
pub run_event : ReceiveEvent → Trace → Option Trace
run_event (incoming is_full f) t = elim (rx_handler is_full f t.queue) [
  | none ↦ none
  | some q ↦ some (record t {
    queue = q;
    accepted =
        if is_full && ltb t.queue.len 16 then t.accepted ++ content_of_frame f ∷ [] else t.accepted;
  })
]
run_event (take pack) t = elim (can_recv pack t.queue) [
  | none ↦ none
  | some (ok, pack', q) ↦
      some (record t { queue = q; given = if ok then t.given ++ content pack' ∷ [] else t.given })
]

pub run_events : List ReceiveEvent → Trace → Option Trace
run_events [] t = some t
run_events (e ∷ es) t = elim (run_event e t) [ none ↦ none | some t' ↦ run_events es t' ]

-- A frame that comes in has at most 8 bytes.
abbrev pub IsShortFrame : ReceiveEvent → Type 0
IsShortFrame (incoming is_full f) = f.dlr % 16 ≤ 8
IsShortFrame (take pack) = Unit

-- What was accepted is what was given and what is in the queue.
record IsFifo (t : Trace) : Type 0 where
  ring : IsInRing t.queue
  order : t.accepted ≡ t.given ++ received t.queue

run_event-IsFifo :
    (e : ReceiveEvent) (t : Trace)
    → IsShortFrame e
    → IsFifo t
    → (t' : Trace) × (run_event e t ≡ some t') × IsFifo t'
unfolding run_event
run_event-IsFifo (incoming is_full f) t short v =
    let (q, runs, ring, holds) = rx_handler-received is_full f t.queue short v.ring in
    let accepted : List (ℕ × List ℕ) =
      if is_full && ltb t.queue.len 16 then t.accepted ++ content_of_frame f ∷ [] else t.accepted in
    rw (runs, run_event)
      (
        record t { queue = q; accepted = accepted },
        refl,
        record {
          ring = ring;
          order = elim (Bool-cases (is_full && ltb t.queue.len 16)) [
            | inr lost ↦ rw lost (v.order ∙ ap (◌++◌ t.given) (sym (rw lost at holds)))
            | inl kept ↦ rw kept (
                ap (λ xs. xs ++ content_of_frame f ∷ []) v.order
                ∙ append_assoc t.given (received t.queue) (content_of_frame f ∷ [])
                ∙ ap (◌++◌ t.given) (sym (rw kept at holds)))
          ];
        },
      )
run_event-IsFifo (take pack) t short v =
    let (ok, pack', q, runs, ring, holds) = can_recv-received pack t.queue v.ring in
    rw (runs, run_event)
      (
        record t { queue = q; given = if ok then t.given ++ content pack' ∷ [] else t.given },
        refl,
        record {
          ring = ring;
          order = elim (Bool-cases ok) [
            | inr none_left ↦ rw none_left (v.order ∙ ap (◌++◌ t.given) (rw none_left at holds))
            | inl given ↦ rw given (
                v.order
                ∙ ap (◌++◌ t.given) (rw given at holds)
                ∙ sym (append_assoc t.given (content pack' ∷ []) (received q)))
          ];
        },
      )

run-IsFifo :
    (es : List ReceiveEvent) (t : Trace)
    → All IsShortFrame es
    → IsFifo t
    → (t' : Trace) × (run_events es t ≡ some t') × IsFifo t'
unfolding run_events
run-IsFifo [] t short v = (t, refl, v)
run-IsFifo (e ∷ es) t (one, short) v =
    let (t', runs, v') = run_event-IsFifo e t one v in
    let (t'', ends, v'') = run-IsFifo es t' short v' in rw (run_events, runs) (t'', ends, v'')

-- From an empty queue on, whatever the order of interrupts with frames of at most 8 bytes and calls,
-- the handlers write into the packets only, and the packets that `can_recv` gives, with those that
-- are left in the queue behind them, are the frames that found room, in the order in which they came.
pub run_events-IsFifo :
    (es : List ReceiveEvent) (q : CanBuf)
    → All IsShortFrame es
    → IsInRing q
    → received q ≡ []
    → (t : Trace) × (run_events es (record { queue = q; accepted = []; given = [] }) ≡ some t)
      × (t.accepted ≡ t.given ++ received t.queue)
      × (t.queue.len ≤ 16)
run_events-IsFifo es q short v empty =
    let (t, runs, fifo) = run-IsFifo es _ short (record { ring = v; order = sym empty }) in
    (t, runs, fifo.order, fifo.ring.len_le)
