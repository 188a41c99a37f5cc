-- ===== src/Kea/Script/Reads.antt =====
-- Where the interpreter reads.
use uptiny.Base.{ℕ, ◌+◌, ◌%◌, ◌≤◌, ◌≡◌, refl, ◌==◌, List, [], ◌∷◌, All, arith, Bool-cases, inl, inr}
use uptiny.Kea.Ms1.{program_flash_begin, program_flash_end}
use uptiny.Kea.Script.{
  ScriptState, on_op, in_programs, after_magic, script_execute, script_init, script_magic,
}

-- A whole word of the programs.
abbrev pub IsProgramWord : ℕ → Type 0
IsProgramWord a = (program_flash_begin ≤ a) × (a + 4 ≤ program_flash_end) × (a % 4 ≡ 0)

abbrev IsAligned : ScriptState → Type 0
IsAligned st = st.script_addr % 4 ≡ 0

after_magic-IsAligned :
    (now op : ℕ) (st : ScriptState) → IsAligned st → IsAligned (after_magic now op st)
unfolding after_magic on_op
after_magic-IsAligned now op st v = grind arith

in_programs-IsProgramWord : (a : ℕ) → a % 4 ≡ 0 → IsProgramWord (in_programs a)
in_programs-IsProgramWord a v = (ground arith, ground arith, ground arith)

script_execute-IsProgramWord :
    (now : ℕ) (word : ℕ → ℕ) (st : ScriptState)
    → IsAligned st
    → All IsProgramWord (script_execute now word st).0 × IsAligned (script_execute now word st).1
unfolding script_execute
script_execute-IsProgramWord now word st v =
    let addr = in_programs st.script_addr in
    let inside = in_programs-IsProgramWord st.script_addr v in
    elim (Bool-cases (addr == program_flash_begin)) [
      | inr later ↦ rw later (
        (inside, tt),
        after_magic-IsAligned now (word addr) (record st { script_addr = addr }) (inside.2),
      )
      | inl first ↦ elim (Bool-cases (word addr == script_magic)) [
        | inr other ↦ rw (first, other) ((inside, tt), inside.2)
        | inl magic ↦
            let second : IsProgramWord (addr + 8) = (ground arith, ground arith, ground arith) in
            rw (first, magic)
              (
                (inside, (second, tt)),
                after_magic-IsAligned now (word (addr + 8)) (record st { script_addr = addr + 8 })
                    (second.2),
              )
      ]
    ]

-- Calls at the times, one after another, with the addresses that they read.
pub run_script : List ℕ → (ℕ → ℕ) → ScriptState → List (List ℕ)
run_script [] word st = []
run_script (now ∷ times) word st =
    let (reads, st') = script_execute now word st in reads ∷ run_script times word st'

run_script-aligned :
    (times : List ℕ) (word : ℕ → ℕ) (st : ScriptState)
    → IsAligned st
    → All (All IsProgramWord) (run_script times word st)
unfolding run_script
run_script-aligned [] word st v = tt
run_script-aligned (now ∷ times) word st v =
    let (inside, v') = script_execute-IsProgramWord now word st v in
    (inside, run_script-aligned times word (script_execute now word st).1 v')

-- After `script_init`, whatever stands in the memory and however often and at whatever times the
-- interpreter is called, it reads whole words of the program memory alone.
pub run_script-IsProgramWord :
    (times : List ℕ) (word : ℕ → ℕ) (st : ScriptState)
    → All (All IsProgramWord) (run_script times word (script_init st))
unfolding script_init
run_script-IsProgramWord times word st =
    run_script-aligned times word (record st { script_addr = program_flash_begin }) refl
