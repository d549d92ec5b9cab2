-- ===== src/Keyboard/Tests.antt =====
-- Keys of Kernel/drivers/keyboard.c, and the theorems on them.
use tpe_so_2023_tp.Base.{ℕ, ◌≡◌, refl, arith, false, List, [], ◌∷◌, replicate, none}
use tpe_so_2023_tp.Sample.{kernel, outside}
use tpe_so_2023_tp.Keyboard.{
  Keyboard, Struck, struck, unbounded, faulted, keyboard_handler, kb_read_chars, strike, modified,
  get_scancode, put_buffer,
}
use tpe_so_2023_tp.Keyboard.Fifo.{waiting, IsBuffer, ExtendsStruck, keyboard_handler-ExtendsStruck}
use tpe_so_2023_tp.Keyboard.Reader.{ReadsFirst, kb_read_chars_lem}

-- "xyz" waits.
abbrev board : Keyboard
board = record {
  shift = 0;
  caps_lock = false;
  control = false;
  buffer_at = 8192;
  buffer_chars = b'x' ∷ b'y' ∷ b'z' ∷ replicate 29 0;
  buffer_size = 3;
  waiting_pids = none;
}

-- The keys of A and b, shift released between them.
abbrev pressed : List ℕ
pressed = 42 ∷ 30 ∷ 158 ∷ 170 ∷ 48 ∷ []

board-IsBuffer : IsBuffer board
board-IsBuffer = record { array = refl; room = omega arith }

keyboard_handler-ExtendsStruck_example :
    ExtendsStruck board (keyboard_handler 1 outside (0, 0) kernel board pressed)
keyboard_handler-ExtendsStruck_example =
    keyboard_handler-ExtendsStruck 1 outside (0, 0) kernel board pressed board-IsBuffer

kb_read_chars_lem_example : ReadsFirst board 2 (kb_read_chars board 1024 2)
kb_read_chars_lem_example = kb_read_chars_lem board 1024 2 board-IsBuffer (omega arith)

abbrev waits : Struck → List ℕ
waits unbounded = []
waits faulted = []
waits (struck k kb) = waiting kb

typed :
    waits (keyboard_handler 1 outside (0, 0) kernel board pressed)
    ≡ b'x' ∷ b'y' ∷ b'z' ∷ b'A' ∷ b'b' ∷ []
unfolding keyboard_handler strike modified get_scancode put_buffer
typed = refl
