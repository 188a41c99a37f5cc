-- ===== src/Tests/Ms1.antt =====
-- The diagnostic requests on which the theorems are applied.
use uptiny.Base.{ℕ, zero, suc, ◌<◌, ◌≤◌, ◌≡◌, refl, true, false, List, [], ◌∷◌, All, arith, laid}
use uptiny.Kea.FlashLoad.Image.{total}
use uptiny.Kea.FlashLoad.Stream.{loaded}
use uptiny.Kea.Ms1.{IsoTpMessage, UdsState, Board, message_received}
use uptiny.Kea.Ms1.BootLoader.{IsInPrograms, IsNonempty, run-keeps_boot_loader}
use uptiny.Kea.Ms1.Answers.{answers, message_received-answers}
use uptiny.Kea.Ms1.Download.{download, download_request, download_lem}
use uptiny.Kea.Ms1.Numbers.{IsOtherData, run, run-other_data}
use uptiny.Kea.Ms1.Sound.{IsSound, Reachable, Reachable-IsSound, start, received}
use uptiny.Tests.Kea.{chip, zeros, idle, pieces, loading, loading-ok, finalize-ok, pieces-total}

abbrev board : Board
board = record {
  flash = chip;
  stack = zeros;
  can_id = 1;
  max_message = 64;
  uptane_hardware_id = 65 ∷ 66 ∷ [];
  uptane_ecu_serial = 67 ∷ [];
}

abbrev programming : UdsState chip
programming = record {
  loader = idle;
  flash_load_startaddr = 0;
  flash_load_curaddr = 0;
  flash_load_size = 0;
  uds_in_download = false;
  uds_in_programming = true;
  session_ts = 0;
}

pieces-small : All (λ len. len ≤ 5) pieces
unfolding pieces
pieces-small = (omega arith, (omega arith, tt))

download_lem_example :
    chip.memory (download board 5 0x81FD 5 (λ i. i) pieces programming).loader.hw 0x8200
    ≡ loaded (chip.memory idle.hw) 0x81FD (λ i. i) (total pieces) 0x8200
unfolding loading
download_lem_example =
    download_lem board 5 0x81FD 5 (λ i. i) pieces programming refl refl (omega arith) pieces-small
      (rw pieces-total (omega arith)) loading-ok finalize-ok 0x8200

-- A hardware identifier is read.
identify : IsoTpMessage
identify = record { arbitration_id = 32; payload = laid (0x22 ∷ 0 ∷ 1 ∷ []) 0; size = 3 }

message_received-answers_example :
    answers (identify.payload 0) (message_received board 7 identify programming).response ≡ true
message_received-answers_example =
    message_received-answers board 7 identify programming (omega arith) (omega arith)

-- From the start into a programming session, where a download is asked for.
abbrev enter_programming : IsoTpMessage
enter_programming = record { arbitration_id = 32; payload = laid (0x10 ∷ 2 ∷ []) 0; size = 2 }

reached :
    Reachable board
      (message_received board 2
        (download_request 0x8000 5)
        (message_received board 1 enter_programming
          (record programming { uds_in_programming = false })).state).state
reached = received 2 (download_request 0x8000 5) (received 1 enter_programming (start idle))

Reachable-IsSound_example :
    IsSound board
      (message_received board 2
        (download_request 0x8000 5)
        (message_received board 1 enter_programming
          (record programming { uds_in_programming = false })).state).state
Reachable-IsSound_example = Reachable-IsSound board reached

-- The second and third message of a client that counts.
others : List (ℕ × IsoTpMessage)
others =
    (3, record { arbitration_id = 32; payload = laid (0x36 ∷ 2 ∷ 7 ∷ []) 0; size = 3 })
    ∷ (4, record { arbitration_id = 32; payload = laid (0x36 ∷ 3 ∷ 8 ∷ []) 0; size = 3 })
    ∷ []

others-other : All (IsOtherData board) others
unfolding others
others-other = ((refl, refl), ((refl, refl), tt))

run-other_data_example :
    (run board others (record programming { uds_in_download = true })).loader ≡ idle
run-other_data_example =
    run-other_data board others (record programming { uds_in_download = true }) others-other

-- From inside a sector into the next is erased.
erase_request : IsoTpMessage
erase_request = record {
  arbitration_id = 32;
  payload = laid (0x31 ∷ 1 ∷ 0xff ∷ 0 ∷ 0 ∷ 0 ∷ 0x80 ∷ 0x10 ∷ 0 ∷ 0 ∷ 2 ∷ 0 ∷ []) 0;
  size = 12;
}

bytes_lt : (xs : List ℕ) → All (λ b. b < 256) xs → (i : ℕ) → laid xs 0 i < 256
bytes_lt [] all i = omega arith
bytes_lt (x ∷ xs) (lt, all) zero = lt
bytes_lt (x ∷ xs) (lt, all) (suc i) = bytes_lt xs all i

erase_request-bytes : (i : ℕ) → erase_request.payload i < 256
unfolding erase_request
erase_request-bytes = bytes_lt (0x31 ∷ 1 ∷ 0xff ∷ 0 ∷ 0 ∷ 0 ∷ 0x80 ∷ 0x10 ∷ 0 ∷ 0 ∷ 2 ∷ 0 ∷ []) (
  omega arith,
  (
    omega arith,
    (
      omega arith,
      (
        omega arith,
        (
          omega arith,
          (
            omega arith,
            (
              omega arith,
              (omega arith, (omega arith, (omega arith, (omega arith, (omega arith, tt))))),
            ),
          ),
        ),
      ),
    ),
  ),
)

-- One request that erases.
programming-above : IsInPrograms board programming
programming-above = λ e. absurd (ground arith)

erasing : List (ℕ × IsoTpMessage)
erasing = (7, erase_request) ∷ []

erasing-IsNonempty : All (λ m. IsNonempty board m.1) erasing
unfolding erasing erase_request
erasing-IsNonempty = ((erase_request-bytes, λ e. omega arith), tt)

run-keeps_boot_loader_example :
    chip.memory (run board erasing programming).loader.hw 0x7fff ≡ chip.memory idle.hw 0x7fff
run-keeps_boot_loader_example =
    run-keeps_boot_loader board erasing programming programming-above erasing-IsNonempty 0x7fff
      (omega arith)
