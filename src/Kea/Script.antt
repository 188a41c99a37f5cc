-- ===== src/Kea/Script.antt =====
-- machine/kea128/app/script.c: the interpreter of the script in program memory, one instruction for
-- each call.
pub mod Reads
pub mod Waits
use uptiny.Base.{
  ℕ, zero, suc, ◌+◌, ◌-◌, ◌*◌, ◌/◌, ◌%◌, ◌^◌, Bool, true, false, not, ◌&&◌, ◌||◌, leb, ltb, ◌==◌,
  if◌then◌else◌, List, [], ◌∷◌, Memory, write,
}
use uptiny.Kea.Ms1.{program_flash_begin, program_flash_end}

-- SCRIPT_MAGIC and the operations.
abbrev pub script_magic : ℕ
script_magic = 0x13a0fe89

abbrev pub op_leds : ℕ
op_leds = 0x00

abbrev pub op_lamps : ℕ
op_lamps = 0x01

abbrev pub op_wait : ℕ
op_wait = 0x02

abbrev pub op_loop : ℕ
op_loop = 0x03

-- The static variables, and what the LEDs and the headlights are set to.
pub record ScriptState : Type 0 where
  pub script_addr : ℕ
  pub ts : ℕ
  pub delay : ℕ
  pub in_wait : Bool
  pub leds : Memory Bool
  pub lamps : Memory Bool

-- The loop over four lights: the rounds left, `i`, and the bits that are left.
pub set_lights : ℕ → ℕ → ℕ → Memory Bool → Memory Bool
set_lights zero i bits lights = lights
set_lights (suc n) i bits lights = set_lights n (i + 1) (bits / 2) (write lights i (bits % 2 == 1))

-- The switch over the operation, at the system time `now`.
pub on_op : ℕ → ℕ → ScriptState → ScriptState
on_op now op st =
    let code = op / 2 ^ 24 % 256 in
    if code == op_leds
    then record st { leds = set_lights 4 0 (op % 16) st.leds }
    else if code == op_lamps
    then record st { lamps = set_lights 4 0 (op % 16) st.lamps }
    else if code == op_wait
    then record st { in_wait = true; ts = now; delay = op % 2 ^ 24 }
    else if code == op_loop
    then record st { script_addr = program_flash_begin }
    else st

-- An address out of the range of programs is replaced by their beginning.
abbrev pub in_programs : ℕ → ℕ
in_programs addr =
    if ltb addr program_flash_begin || leb program_flash_end addr then program_flash_begin else addr

-- From the wait on.
pub after_magic : ℕ → ℕ → ScriptState → ScriptState
after_magic now op st =
    let done = on_op now op (record st { in_wait = false }) in
    if st.in_wait && not (ltb st.delay ((now + 2 ^ 32 - st.ts) % 2 ^ 32))
    then st
    else record done { script_addr = (done.script_addr + 4) % 2 ^ 32 }

-- `word` gives the word of memory at an address. The result has the addresses that were read.
pub script_execute : ℕ → (ℕ → ℕ) → ScriptState → List ℕ × ScriptState
script_execute now word st =
    let addr = in_programs st.script_addr in
    let st' = record st { script_addr = addr } in
    if addr == program_flash_begin
    then (if not (word addr == script_magic) then (addr ∷ [], st') else (
      addr ∷ (addr + 8) ∷ [],
      after_magic now (word (addr + 8)) (record st { script_addr = addr + 8 }),
    ))
    else (addr ∷ [], after_magic now (word addr) st')

pub script_init : ScriptState → ScriptState
script_init st = record st { script_addr = program_flash_begin }
