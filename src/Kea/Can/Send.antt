-- ===== src/Kea/Can/Send.antt =====
-- The queue of packets to send, with the frames that were sent, against a list.
use uptiny.Base.{
  ℕ, zero, suc, ◌+◌, ◌-◌, ◌%◌, ◌<◌, ◌≤◌, ◌≡◌, refl, ◌∙◌, sym, ap, Bool, true, false, ◌&&◌, ◌||◌,
  leb, ltb, ◌==◌, if◌then◌else◌, List, [], ◌∷◌, ◌++◌, All, arith, Bool-cases, inl, inr,
}
use mathlib.Core.List.{append_assoc, append-nil}
use uptiny.Kea.Can.{
  CanPack, CanBuf, Frame, CanController, CanState, next_index, frame_of, can_send_low, can_send,
  on_buffer, tx_loop, tx_handler,
}
use uptiny.Kea.Can.Ring.{items, items-push, items-pop, items-none, All-append}

module _ (can : CanController) where
  -- The frames that were sent, and behind them those that wait.
  abbrev pub pending : CanState can → List Frame
  pending st = can.sent st.hw ++ items frame_of st.out.len st.out.beg st.out.buf

  pub record IsOutRing (q : CanBuf) : Type 0 where
    pub len_le : q.len ≤ 16
    pub beg_lt : q.beg < 16
    pub end_at : q.end ≡ (q.beg + q.len) % 16
    pub short : All (λ p. p.dlc ≤ 8) (items (λ p. p) q.len q.beg q.buf)

  -- What `can_send_low` has done where the `i`-th buffer is free.
  record IsSent (i : ℕ) (pack : CanPack) (st st' : CanState can) : Type 0 where
    sent : can.sent st'.hw ≡ can.sent st.hw ++ frame_of pack ∷ []
    out : st'.out ≡ st.out
    free : (j : ℕ) → i < j → can.is_free st.hw j ≡ true → can.is_free st'.hw j ≡ true

  can_send_low-IsSent :
      (i : ℕ) (pack : CanPack) (st : CanState can)
      → i < 3
      → can.is_free st.hw i ≡ true
      → pack.dlc ≤ 8
      → IsSent i pack st (can_send_low can pack st)
  unfolding can_send_low
  can_send_low-IsSent i pack st small here short =
      let fits : ltb 8 pack.dlc ≡ false = ground arith in
      elim (Bool-cases (can.is_free st.hw 0)) [
        | inl free0 ↦
            rw (can_send_low, free0, fits)
              (record {
                sent = can.load_sent 0 (frame_of pack) st.hw;
                out = refl;
                free = λ j lt f. can.load_keeps 0 j (frame_of pack) st.hw (ground arith) f;
              })
        | inr busy0 ↦ elim (Bool-cases (can.is_free st.hw 1)) [
          | inl free1 ↦
              rw (can_send_low, busy0, free1, fits)
                (record {
                  sent = can.load_sent 1 (frame_of pack) st.hw;
                  out = refl;
                  free = λ j lt f. can.load_keeps 1 j (frame_of pack) st.hw (grind arith) f;
                })
          | inr busy1 ↦ elim (Bool-cases (can.is_free st.hw 2)) [
            | inl free2 ↦
                rw (can_send_low, busy0, busy1, free2, fits)
                  (record {
                    sent = can.load_sent 2 (frame_of pack) st.hw;
                    out = refl;
                    free = λ j lt f. can.load_keeps 2 j (frame_of pack) st.hw (grind arith) f;
                  })
            | inr busy2 ↦ absurd (grind arith)
          ]
        ]
      ]

  -- `can_send_low` where some buffer is free.
  can_send_low-any :
      (pack : CanPack) (st : CanState can)
      → (can.is_free st.hw 0 || can.is_free st.hw 1 || can.is_free st.hw 2) ≡ true
      → pack.dlc ≤ 8
      → let st' = can_send_low can pack st in
        (can.sent st'.hw ≡ can.sent st.hw ++ frame_of pack ∷ []) × (st'.out ≡ st.out)
  can_send_low-any pack st free short = elim (Bool-cases (can.is_free st.hw 0)) [
    | inl free0 ↦
        let low = can_send_low-IsSent 0 pack st (omega arith) free0 short in (low.sent, low.out)
    | inr busy0 ↦ elim (Bool-cases (can.is_free st.hw 1)) [
      | inl free1 ↦
          let low = can_send_low-IsSent 1 pack st (omega arith) free1 short in (low.sent, low.out)
      | inr busy1 ↦
          let low = can_send_low-IsSent 2 pack st (omega arith) (grind arith) short in
          (low.sent, low.out)
    ]
  ]

  -- A packet goes behind the others, or is lost where the queue is full.
  pub can_send-pending :
      (pack : CanPack) (st : CanState can)
      → pack.dlc ≤ 8
      → IsOutRing st.out
      → IsOutRing (can_send can pack st).out
        × (pending (can_send can pack st)
            ≡ (if leb 16 st.out.len then pending st else pending st ++ frame_of pack ∷ []))
  unfolding can_send
  can_send-pending pack st short v =
      let q = st.out in
      let any = can.is_free st.hw 0 || can.is_free st.hw 1 || can.is_free st.hw 2 in
      elim (Bool-cases (leb 16 q.len)) [
        | inl full ↦ rw full (v, refl)
        | inr room ↦ elim (Bool-cases (q.len == 0 && any)) [
          | inl direct ↦
              let st' = record st { transmitting = true } in
              let (sent, out) = can_send_low-any pack st' (grind arith) short in
              let none = items-none frame_of q.len q.beg q.buf (grind arith) in
              rw (room, direct, out)
                (
                  v,
                  rw (sent, none)
                      (append-nil (can.sent st.hw ++ frame_of pack ∷ [])
                        ∙ ap (λ xs. xs ++ frame_of pack ∷ []) (sym (append-nil (can.sent st.hw)))),
                )
          | inr queued ↦
              rw (room, queued)
                (
                  record {
                    len_le = ground arith;
                    beg_lt = v.beg_lt;
                    end_at = ground (arith, v.beg_lt, v.len_le, v.end_at);
                    short =
                        rw
                          (items-push (λ p. p) q.len q.beg q.end q.buf pack (ground arith) v.beg_lt
                            v.end_at)
                          (All-append _ pack v.short short);
                  },
                  ap (◌++◌ (can.sent st.hw)) (
                        items-push frame_of q.len q.beg q.end q.buf pack (ground arith) v.beg_lt
                          v.end_at)
                      ∙ sym (
                          append_assoc (can.sent st.hw) (items frame_of q.len q.beg q.buf)
                            (frame_of pack ∷ [])),
                )
        ]
      ]

  -- One free buffer is filled, or the queue is empty.
  on_buffer-pending :
      (i : ℕ) (st : CanState can)
      → i < 3
      → can.is_free st.hw i ≡ true
      → IsOutRing st.out
      → let st' = on_buffer can i st in
        IsOutRing st'.out
        × (pending st' ≡ pending st)
        × ((j : ℕ) → i < j → can.is_free st.hw j ≡ true → can.is_free st'.hw j ≡ true)
  unfolding on_buffer
  on_buffer-pending i st small here v =
      let q = st.out in
      elim (Bool-cases (q.len == 0)) [
        | inl empty ↦ rw empty (v, refl, λ j lt f. f)
        | inr waiting ↦
            let st' = record st { tier = λ j. if j == i then false else st.tier j } in
            let short = rw (items-pop (λ p. p) q.len q.beg q.buf waiting) at v.short in
            let low = can_send_low-IsSent i (q.buf q.beg) st' small here short.0 in
            rw waiting (
              record {
                len_le = omega (arith, v.len_le);
                beg_lt = ground (arith, v.beg_lt);
                end_at = ground (arith, v.beg_lt, v.len_le, v.end_at);
                short = short.1;
              },
              ap (λ xs. xs ++ items frame_of (q.len - 1) (next_index q.beg) q.buf) low.sent
                  ∙ append_assoc (can.sent st.hw) (frame_of (q.buf q.beg) ∷ [])
                      (items frame_of (q.len - 1) (next_index q.beg) q.buf)
                  ∙ ap (◌++◌ (can.sent st.hw)) (sym (items-pop frame_of q.len q.beg q.buf waiting)),
              low.free,
            )
      ]

  tx_loop-pending :
      (n i : ℕ) (bufmask : ℕ → Bool) (st : CanState can)
      → i + n ≡ 3
      → ((j : ℕ) → i ≤ j → bufmask j ≡ true → can.is_free st.hw j ≡ true)
      → IsOutRing st.out
      → IsOutRing (tx_loop can n i bufmask st).out
        × (pending (tx_loop can n i bufmask st) ≡ pending st)
  unfolding tx_loop
  tx_loop-pending zero i bufmask st e free v = (v, refl)
  tx_loop-pending (suc n) i bufmask st e free v = elim (Bool-cases (bufmask i)) [
    | inr other ↦
        rw (tx_loop, other)
          (tx_loop-pending n (i + 1) bufmask st (omega arith) (λ j le m. free j (omega arith) m) v)
    | inl chosen ↦
        let (v', same, still) =
          on_buffer-pending i st (omega arith) (free i (omega arith) chosen) v in
        let (v'', same') =
          tx_loop-pending n (i + 1) bufmask (on_buffer can i st) (omega arith)
            (λ j le m. still j (omega arith) (free j (omega arith) m)) v' in
        rw (tx_loop, chosen) (v'', same' ∙ same)
  ]

  -- The transmit interrupt moves packets from the queue to the controller in their order, and loses
  -- none.
  pub tx_handler-pending :
      (st : CanState can)
      → IsOutRing st.out
      → IsOutRing (tx_handler can st).out × (pending (tx_handler can st) ≡ pending st)
  unfolding tx_handler
  tx_handler-pending st v =
      tx_loop-pending 3 0 (λ i. can.is_free st.hw i && st.tier i) st refl (λ j le m. grind arith) v

  -- A call of `can_send`, a transmit interrupt, or the end of the transmission of a buffer.
  pub data SendEvent : Type 0 where
    send : CanPack → SendEvent
    interrupt : SendEvent
    finished : ℕ → SendEvent

  unfoldable pub run_send : SendEvent → CanState can → CanState can
  run_send (send pack) st = can_send can pack st
  run_send interrupt st = tx_handler can st
  run_send (finished i) st = record st { hw = can.finish i st.hw }

  unfoldable pub run_sends : List SendEvent → CanState can → CanState can
  run_sends [] st = st
  run_sends (e ∷ es) st = run_sends es (run_send e st)

  -- The frames that an event puts behind the others: that of a packet that finds room.
  pub added : SendEvent → CanState can → List Frame
  added (send pack) st = if leb 16 st.out.len then [] else frame_of pack ∷ []
  added interrupt st = []
  added (finished i) st = []

  pub accepted : List SendEvent → CanState can → List Frame
  accepted [] st = []
  accepted (e ∷ es) st = added e st ++ accepted es (run_send e st)

  abbrev pub IsShort : SendEvent → Type 0
  IsShort (send pack) = pack.dlc ≤ 8
  IsShort _ = Unit
