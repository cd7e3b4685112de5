-- ===== src/Drivers/Keyboard/Tests.antt =====
-- Concrete runs of kernel/src/drivers/keyboard.c.
use sudo_os.Prelude.{
  ◌-◌, ◌⊎◌, none, some, length, get_or, ℕ, ◌≡◌, true, arith, List, [], ◌∷◌, length-replicate,
  replicate,
}
use sudo_os.Drivers.Keyboard.{Keyboard}
use sudo_os.Drivers.Keyboard.Queue.{IsValid}
use sudo_os.Drivers.Keyboard.Scan.{view, Event, interrupt, read, run, run_view, run-run_view}
use sudo_os.Drivers.Console.{Console, console_init}
use sudo_os.Drivers.Keyboard.Input.{kinput, kinput_keys, typed, Holds, kinput-typed}

-- One character waits in the buffer's last cell, and shift is held.
abbrev one_waiting : Keyboard
one_waiting = record { kbuf = replicate 128 b'x'; r_ptr = 127; w_ptr = 0; shift = true }

one_waiting-IsValid : IsValid one_waiting
one_waiting-IsValid = record {
  size = length-replicate {A = ℕ} 128 b'x';
  read_in = omega arith;
  write_in = omega arith;
}

-- A is pressed with shift held, shift is released, A is pressed again; three reads.
abbrev events : List Event
events = interrupt 0x1E ∷ read ∷ interrupt 0xAA ∷ interrupt 0x1E ∷ read ∷ read ∷ []

run-run_view_example : run one_waiting events ≡ run_view (view one_waiting) events
run-run_view_example =
    run-run_view events one_waiting-IsValid (omega arith, (omega arith, (omega arith, tt)))

-- Two keys, one of which is erased, and the end of the line.
abbrev keys : List ℕ
keys = b'a' ∷ 0 ∷ b'b' ∷ 8 ∷ b'\n' ∷ []

kinput-typed_example :
    ((kinput (console_init 640 480) (replicate 8 0) 8 keys ≡ none)
      × (typed kinput_keys (8 - 1) keys [] ≡ none))
    ⊎ ((buf : List ℕ) × (c : Console) × (line : List ℕ) × (rest : List ℕ) × (kinput
            (console_init 640 480)
            (replicate 8 0)
            8
            keys
          ≡ some (buf, c, rest))
        × (typed kinput_keys (8 - 1) keys [] ≡ some (line, rest))
        × Holds 8 (replicate 8 0) buf line
        × (get_or buf (length line) 0 ≡ 0))
kinput-typed_example =
    kinput-typed (console_init 640 480) (replicate 8 0) 8 keys (omega arith) (omega arith)
