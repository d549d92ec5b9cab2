-- ===== src/Keyboard.antt =====
-- Kernel/drivers/keyboard.c: the keys that the hardware reports, and the characters that wait to be read.
pub mod Fifo
pub mod Reader
mod Tests
use tpe_so_2023_tp.Base.{
  ℕ, zero, suc, ◌+◌, ◌-◌, ◌%◌, ◌/◌, Bool, true, false, ◌&&◌, ◌||◌, not, ltb, leb, ◌==◌,
  if◌then◌else◌, List, [], ◌∷◌, length, set, get_or, Option, none, some, ℤ, pos, minus_one, ◌==ℤ◌,
  Outcome, returned, fault,
}
use tpe_so_2023_tp.Text.{is_lower, memcpy}
use tpe_so_2023_tp.Pipe.Buffer.{overwrite, slice}
use tpe_so_2023_tp.Scheduler.{sch_get_running_pid, sch_block, sch_yield}
use tpe_so_2023_tp.Queue.{Core, Queue, queue_create, queue_add, queue_unblock_all}
use tpe_so_2023_tp.Kernel.{Kernel, FileDescriptor, keyboard}
use tpe_so_2023_tp.Process.{Outside}
use tpe_so_2023_tp.Process.Descriptors.{proc_map_fd}
use tpe_so_2023_tp.Process.Life.{Killed, finished, unfinished, proc_kill, proc_is_fg}

-- The static variables. `buffer_at` is the address of the array `buffer_chars`, of 32 bytes.
pub record Keyboard : Type 0 where
  pub shift : ℕ
  pub caps_lock : Bool
  pub control : Bool
  pub buffer_at : ℕ
  pub buffer_chars : List ℕ
  pub buffer_size : ℕ
  pub waiting_pids : Queue

abbrev pub buffer_max : ℕ
buffer_max = 32

-- The characters of a key, without and with shift.
abbrev pub scancodes : List (ℕ × ℕ)
scancodes =
    (0, 0)
    ∷ (0, 0)
    ∷ (49, 33)
    ∷ (50, 64)
    ∷ (51, 35)
    ∷ (52, 36)
    ∷ (53, 37)
    ∷ (54, 94)
    ∷ (55, 38)
    ∷ (56, 42)
    ∷ (57, 40)
    ∷ (48, 41)
    ∷ (45, 95)
    ∷ (61, 43)
    ∷ (8, 8)
    ∷ (9, 9)
    ∷ (113, 81)
    ∷ (119, 87)
    ∷ (101, 69)
    ∷ (114, 82)
    ∷ (116, 84)
    ∷ (121, 89)
    ∷ (117, 85)
    ∷ (105, 73)
    ∷ (111, 79)
    ∷ (112, 80)
    ∷ (91, 123)
    ∷ (93, 125)
    ∷ (10, 10)
    ∷ (0, 0)
    ∷ (97, 65)
    ∷ (115, 83)
    ∷ (100, 68)
    ∷ (102, 70)
    ∷ (103, 71)
    ∷ (104, 72)
    ∷ (106, 74)
    ∷ (107, 75)
    ∷ (108, 76)
    ∷ (59, 58)
    ∷ (39, 34)
    ∷ (96, 126)
    ∷ (0, 0)
    ∷ (92, 124)
    ∷ (122, 90)
    ∷ (120, 88)
    ∷ (99, 67)
    ∷ (118, 86)
    ∷ (98, 66)
    ∷ (110, 78)
    ∷ (109, 77)
    ∷ (44, 60)
    ∷ (46, 62)
    ∷ (47, 63)
    ∷ (0, 0)
    ∷ (0, 0)
    ∷ (0, 0)
    ∷ (32, 32)
    ∷ []

abbrev pub keys : ℕ
keys = 58

-- The four tests at the head of the loop.
pub modified : Keyboard → ℕ → Keyboard
modified kb key =
    let kb1 =
      if key == 42 || key == 54
      then record kb { shift = 1 }
      else if key == 170 || key == 182
      then record kb { shift = 0 }
      else kb in
    let kb2 = if key == 58 then record kb1 { caps_lock = not kb1.caps_lock } else kb1 in
    if key == 29
    then record kb2 { control = true }
    else if key == 157
    then record kb2 { control = false }
    else kb2

abbrev column : ℕ × ℕ → ℕ → ℕ
column (plain, shifted) zero = plain
column (plain, shifted) (suc _) = shifted

-- `beyond` is what lies behind the table, where the keys from 58 on are looked up.
pub get_scancode : (ℕ × ℕ) → Keyboard → ℕ → ℕ
get_scancode beyond kb key =
    let row = get_or scancodes key beyond in
    if kb.caps_lock && kb.shift == 0
    then (if is_lower (column row 0) then column row 1 else column row 0)
    else column row kb.shift

pub put_buffer : Core → Keyboard → ℕ → Core × Keyboard
put_buffer c kb code =
    let (_, c1, q) = queue_unblock_all c kb.waiting_pids in
    if ltb kb.buffer_size buffer_max
    then (
      c1,
      record kb {
        buffer_chars = set kb.buffer_chars kb.buffer_size code;
        buffer_size = kb.buffer_size + 1;
        waiting_pids = q;
      },
    )
    else (c, kb)

-- What a bounded run of the interrupt handler comes to; the bound is proc_kill's.
pub data Struck : Type 0 where
  unbounded : Struck
  faulted : Struck
  struck : Kernel → Keyboard → Struck

abbrev stored : Kernel → Core × Keyboard → Struck
stored k (c, kb) = struck (record k { core = c }) kb

abbrev interrupted : Keyboard → Killed → Struck
interrupted kb unfinished = unbounded
interrupted kb (finished fault) = faulted
interrupted kb (finished (returned (_, k))) = struck k kb

-- The statements below the tests; ESC is 27, and a process that is killed by the keyboard gets (uint8_t)-1.
pub strike : ℕ → Outside → (ℕ × ℕ) → Kernel → Keyboard → ℕ → Struck
strike depth o beyond k kb0 key =
    let kb = modified kb0 key in
    let code = get_scancode beyond kb key in
    let running = sch_get_running_pid (proc_is_fg k) k.core.scheduler in
    if not (key / 128 % 2 == 0)
    then struck k kb
    else if not (ltb key keys && not (code == 0))
    then struck k kb
    else if kb.control && code == b'd'
    then stored k (put_buffer k.core kb 27)
    else if kb.control && code == b'c'
    then interrupted kb (proc_kill depth o k running 255)
    else stored k (put_buffer k.core kb code)

-- The keys that asm_kbd_getkey gives while asm_kbd_active says that there is one.
pub keyboard_handler : ℕ → Outside → (ℕ × ℕ) → Kernel → Keyboard → List ℕ → Struck
keyboard_handler depth o beyond k kb [] = struck k kb
keyboard_handler depth o beyond k kb (key ∷ rest) = elim (strike depth o beyond k kb key) [
  | unbounded ↦ unbounded
  | faulted ↦ faulted
  | struck k1 kb1 ↦ keyboard_handler depth o beyond k1 kb1 rest
]

pub kb_init : Core → Keyboard → Core × Keyboard
kb_init c kb = let (q, c1) = queue_create c in (c1, record kb { waiting_pids = q })

-- memcpy from `i + off` to `i` within one array: `n` rounds of `w` bytes, the lowest first.
pub copy_down : ℕ → ℕ → ℕ → ℕ → List ℕ → List ℕ
copy_down zero w i off buf = buf
copy_down (suc n) w i off buf = copy_down n w (i + w) off (overwrite buf i (slice buf (i + off) w))

-- The `n` bytes from `off` on are copied to the start, by words of four bytes if both addresses and the number allow it.
pub moved_down : ℕ → List ℕ → ℕ → ℕ → List ℕ
moved_down at buf off n =
    if at % 4 == 0 && (at + off) % 4 == 0 && n % 4 == 0
    then copy_down (n / 4) 4 0 off buf
    else copy_down n 1 0 off buf

-- The characters that arrive at the address `buf`; there are as many as the result says.
pub kb_read_chars : Keyboard → ℕ → ℕ → List ℕ × Keyboard
kb_read_chars kb buf size =
    let count = if ltb size kb.buffer_size then size else kb.buffer_size in
    if count == 0 then ([], kb) else (
      memcpy buf kb.buffer_at kb.buffer_chars count,
      record kb {
        buffer_chars = moved_down kb.buffer_at kb.buffer_chars count (kb.buffer_size - count);
        buffer_size = kb.buffer_size - count;
      },
    )

abbrev keyboard_callbacks : FileDescriptor
keyboard_callbacks = record {
  read_callback = some keyboard;
  write_callback = none;
  close_callback = none;
  dup_callback = none;
}

pub kb_map_fd : Kernel → ℤ → ℤ → Outcome (ℤ × Kernel)
kb_map_fd k pid fd = proc_map_fd k pid fd keyboard_callbacks

-- What a process's reading comes to: an answer, or the process sleeps, to go on at `read_again`.
pub data Reading : Type 0 where
  answers : ℤ → List ℕ → Keyboard → Reading
  sleeps : Core → Keyboard → Reading

-- A round of the loop.
pub read_again : Core → Keyboard → ℤ → ℕ → ℕ → Reading
read_again c kb pid buf size =
    let (chars, kb1) = kb_read_chars kb buf size in
    let (_, c1, q) = queue_add c kb1.waiting_pids pid in
    let c2 = record c1 { scheduler = sch_yield (sch_block c1.scheduler pid).1 } in
    if length chars == 0
    then sleeps c2 (record kb1 { waiting_pids = q })
    else answers (pos (length chars)) chars kb1

pub read_callback : Kernel → Keyboard → ℤ → ℕ → ℕ → Reading
read_callback k kb pid buf size =
    if not (proc_is_fg k pid ==ℤ pos 1)
    then answers minus_one [] kb
    else if size == 0
    then answers (pos 0) [] kb
    else read_again k.core kb pid buf (if ltb buffer_max size then buffer_max else size)
