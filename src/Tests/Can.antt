-- ===== src/Tests/Can.antt =====
-- Packets on which the theorems on the queues are applied.
use uptiny.Base.{
  ℕ, ◌+◌, ◌≤◌, ◌≡◌, refl, Bool, true, false, write, write_self, some, List, [], ◌∷◌, ◌++◌, All,
  arith, inr,
}
use uptiny.Kea.Can.{CanPack, CanBuf, Frame, CanController, CanState, address_of_frame, frame_of}
use uptiny.Kea.Can.{can_send, can_send_low, tx_handler, tx_loop, on_buffer}
use uptiny.Kea.Can.Ring.{items}
use uptiny.Kea.Can.Receive.{
  received, IsInRing, ReceiveEvent, incoming, take, run_events, run_events-IsFifo, Trace,
  IsShortFrame,
}
use uptiny.Kea.Can.Send.{SendEvent, send, interrupt, finished, run_sends, run_send, accepted}
use uptiny.Kea.Can.Address.{address_of_frame-frame_of}

-- Three buffers: `free` are the free ones, and `frames` is what was loaded.
record Buffers : Type 0 where
  free : ℕ → Bool
  frames : List Frame

abbrev three_buffers : CanController
three_buffers = record {
  State = Buffers;
  is_free = λ hw i. hw.free i;
  load = λ i f hw. record { free = write hw.free i false; frames = hw.frames ++ f ∷ [] };
  finish = λ i hw. record hw { free = write hw.free i true };
  sent = λ hw. hw.frames;
  load_keeps = λ i j f hw other free. rw other free;
  load_sent = λ i f hw. refl;
  finish_free = λ i hw. write_self hw.free i true;
  finish_sent = λ i hw. refl;
}

abbrev pack_of : ℕ → CanPack
pack_of af = record { af = af; dlc = 2; data' = λ i. af + i }

abbrev empty_queue : CanBuf
empty_queue = record { buf = λ i. pack_of 0; beg = 15; end = 15; len = 0 }

empty_queue-IsInRing : IsInRing empty_queue
unfolding items
empty_queue-IsInRing = record {
  len_le = omega arith;
  end_lt = omega arith;
  beg_at = refl;
  short = tt;
}

empty_queue-received : received empty_queue ≡ []
unfolding items
empty_queue-received = refl

-- Two frames come in, with a call before, between and behind them.
abbrev events : List ReceiveEvent
events =
    take (pack_of 0)
    ∷ incoming true (frame_of (pack_of 3))
    ∷ take (pack_of 0)
    ∷ incoming true (frame_of (pack_of 4))
    ∷ incoming false (frame_of (pack_of 5))
    ∷ []

events-IsShort : All IsShortFrame events
events-IsShort = (tt, (omega arith, (tt, (omega arith, (omega arith, tt)))))

run_events-IsFifo_example :
    (t : Trace) × (run_events events (record { queue = empty_queue; accepted = []; given = [] })
      ≡ some t)
    × (t.accepted ≡ t.given ++ received t.queue)
    × (t.queue.len ≤ 16)
run_events-IsFifo_example =
    run_events-IsFifo events empty_queue events-IsShort empty_queue-IsInRing empty_queue-received

-- All buffers are busy, and no packet waits.
abbrev busy : CanState three_buffers
busy = record {
  hw = record { free = λ i. false; frames = [] };
  tier = λ i. true;
  out = record { buf = pack_of; beg = 15; end = 15; len = 0 };
  transmitting = true;
}

-- Two packets wait until a transmission has ended, and a third is sent at once.
sends : List (SendEvent three_buffers)
sends =
    send (pack_of 7)
    ∷ send (pack_of 8)
    ∷ interrupt
    ∷ finished 1
    ∷ interrupt
    ∷ finished 0
    ∷ interrupt
    ∷ finished 2
    ∷ send (pack_of 9)
    ∷ []

all_sent :
    (run_sends three_buffers sends busy).hw.frames
    ≡ frame_of (pack_of 7) ∷ frame_of (pack_of 8) ∷ frame_of (pack_of 9) ∷ []
unfolding sends run_sends run_send can_send can_send_low tx_handler tx_loop on_buffer
all_sent = refl

address_of_frame-frame_of_example : address_of_frame (frame_of (pack_of 0x92345678)) ≡ 0x92345678
address_of_frame-frame_of_example =
    address_of_frame-frame_of (pack_of 0x92345678) (inr (omega arith, omega arith))
