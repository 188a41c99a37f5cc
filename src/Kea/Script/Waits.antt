-- ===== src/Kea/Script/Waits.antt =====
-- Waiting, and the loop.
use uptiny.Base.{
  ℕ, ◌+◌, ◌-◌, ◌/◌, ◌%◌, ◌^◌, ◌<◌, ◌≤◌, ◌≡◌, refl, ◌∙◌, ap, Bool, true, false, ltb, ◌==◌, List, [],
  ◌∷◌, All, Memory, arith, Bool-cases, inl, inr,
}
use uptiny.Kea.Ms1.{program_flash_begin, program_flash_end}
use uptiny.Kea.Script.{
  ScriptState, on_op, op_loop, in_programs, after_magic, script_execute, script_magic,
}

-- The state after calls at the times.
pub run_calls : List ℕ → (ℕ → ℕ) → ScriptState → ScriptState
run_calls [] word st = st
run_calls (now ∷ times) word st = run_calls times word (script_execute now word st).1

-- The wait that began at `ts` is not over at `now`.
abbrev pub IsEarly : ScriptState → ℕ → Type 0
IsEarly st now = (now + 2 ^ 32 - st.ts) % 2 ^ 32 ≤ st.delay

-- The wait and the lights of a state.
abbrev pub wait_and_lights : ScriptState → Bool × ℕ × ℕ × Memory Bool × Memory Bool
wait_and_lights st = (st.in_wait, st.ts, st.delay, st.leds, st.lamps)

script_execute-early :
    (now : ℕ) (word : ℕ → ℕ) (st : ScriptState)
    → st.in_wait ≡ true
    → IsEarly st now
    → wait_and_lights (script_execute now word st).1 ≡ wait_and_lights st
unfolding script_execute after_magic
script_execute-early now word st waits early =
    let over : ltb st.delay ((now + 2 ^ 32 - st.ts) % 2 ^ 32) ≡ false = ground arith in
    let addr = in_programs st.script_addr in
    elim (Bool-cases (addr == program_flash_begin)) [
      | inr later ↦ rw (later, waits, over) refl
      | inl first ↦ elim (Bool-cases (word addr == script_magic)) [
        | inr other ↦ rw (first, other) refl
        | inl magic ↦ rw (first, magic, waits, over) refl
      ]
    ]

-- While it waits, calls at whatever times before the wait is over change no light and leave the wait
-- as it is.
pub run_calls-early :
    (times : List ℕ) (word : ℕ → ℕ) (st : ScriptState)
    → st.in_wait ≡ true
    → All (IsEarly st) times
    → wait_and_lights (run_calls times word st) ≡ wait_and_lights st
unfolding run_calls
run_calls-early [] word st waits early = refl
run_calls-early (now ∷ times) word st waits (first, early) =
    let st' = (script_execute now word st).1 in
    let same = script_execute-early now word st waits first in
    let still : st'.in_wait ≡ true = ap (λ w. w.0) same ∙ waits in
    run_calls-early times word st' still
      (early_again st st' (ap (λ w. w.1) same) (ap (λ w. w.2) same) times early)
    ∙ same
  where
    early_again :
        (st st' : ScriptState)
        → st'.ts ≡ st.ts
        → st'.delay ≡ st.delay
        → (times : List ℕ) → All (IsEarly st) times
        → All (IsEarly st') times
    early_again st st' t d [] all = tt
    early_again st st' t d (now ∷ times) (first, all) =
        (rw (t, d) first, early_again st st' t d times all)

-- Inside the programs, a call reads the word at the address.
inner-reads :
    (now : ℕ) (word : ℕ → ℕ) (st : ScriptState)
    → program_flash_begin < st.script_addr
    → st.script_addr < program_flash_end
    → (script_execute now word st).0 ≡ st.script_addr ∷ []
unfolding script_execute
inner-reads now word st low high =
    let same : in_programs st.script_addr ≡ st.script_addr = ground arith in
    let later : (st.script_addr == program_flash_begin) ≡ false = ground arith in
    rw (same, later) refl

loop-restarts :
    (now : ℕ) (word : ℕ → ℕ) (st : ScriptState)
    → program_flash_begin < st.script_addr
    → st.script_addr < program_flash_end
    → st.in_wait ≡ false
    → (word st.script_addr / 2 ^ 24 % 256 == op_loop) ≡ true
    → (script_execute now word st).1.script_addr ≡ program_flash_begin + 4
unfolding script_execute after_magic on_op
loop-restarts now word st low high ready loop =
    let same : in_programs st.script_addr ≡ st.script_addr = ground arith in
    let later : (st.script_addr == program_flash_begin) ≡ false = ground arith in
    let code : word st.script_addr / 2 ^ 24 % 256 ≡ 3 = ground arith in
    rw (same, later, ready, code) refl

-- Behind a loop instruction that is executed, the next call reads one word alone, the second of the
-- program memory, which is the version of the firmware, and not the first instruction behind it.
pub loop-reads_version :
    (now now' : ℕ) (word : ℕ → ℕ) (st : ScriptState)
    → program_flash_begin < st.script_addr
    → st.script_addr < program_flash_end
    → st.in_wait ≡ false
    → (word st.script_addr / 2 ^ 24 % 256 == op_loop) ≡ true
    → (script_execute now' word (script_execute now word st).1).0 ≡ (program_flash_begin + 4) ∷ []
loop-reads_version now now' word st low high ready loop =
    let e = loop-restarts now word st low high ready loop in
    rw e at
      (inner-reads now' word (script_execute now word st).1 (omega (arith, e)) (omega (arith, e)))
