-- ===== src/Tests/Script.antt =====
-- A script that shows a pattern, waits and starts again, on which the theorems are applied.
use uptiny.Base.{ℕ, false, ◌==◌, if◌then◌else◌, [], ◌∷◌, All}
use uptiny.Kea.Script.{ScriptState, script_init, script_magic}
use uptiny.Kea.Script.Reads.{IsProgramWord, run_script, run_script-IsProgramWord}

-- The magic number, the version, and three instructions.
abbrev blink : ℕ → ℕ
blink a =
    if a == 0x8000
    then script_magic
    else if a == 0x8004
    then 7
    else if a == 0x8008
    then 0x00000005
    else if a == 0x800C
    then 0x02000064
    else 0x03000000

abbrev dark : ScriptState
dark = record {
  script_addr = 0x8010;
  ts = 0;
  delay = 0;
  in_wait = false;
  leds = λ i. false;
  lamps = λ i. false;
}

run_script-IsProgramWord_example :
    All (All IsProgramWord) (run_script (1 ∷ 2 ∷ 50 ∷ 103 ∷ []) blink (script_init dark))
run_script-IsProgramWord_example = run_script-IsProgramWord (1 ∷ 2 ∷ 50 ∷ 103 ∷ []) blink dark
