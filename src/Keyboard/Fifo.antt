-- ===== src/Keyboard/Fifo.antt =====
-- The buffer of Kernel/drivers/keyboard.c between the interrupt handler and the readers.
use tpe_so_2023_tp.Base.{
  ℕ, zero, suc, ◌+◌, ◌/◌, ◌%◌, ◌<◌, ◌≤◌, ◌≡◌, refl, ap, ◌∙◌, arith, Bool, true, false, ◌&&◌, not,
  ltb, ◌==◌, if◌then◌else◌, List, [], ◌∷◌, ◌++◌, length, length-set, set, take, returned, fault,
  Bool-cases, inl, inr,
}
use tpe_so_2023_tp.Scheduler.{sch_get_running_pid}
use tpe_so_2023_tp.Queue.{Core}
use tpe_so_2023_tp.Kernel.{Kernel}
use tpe_so_2023_tp.Process.{Outside}
use tpe_so_2023_tp.Process.Life.{Killed, finished, unfinished, proc_kill, proc_is_fg}
use tpe_so_2023_tp.Keyboard.{
  Keyboard, modified, get_scancode, put_buffer, Struck, unbounded, faulted, struck, strike,
  keyboard_handler, stored, interrupted, keys,
}

-- The characters that wait to be read, the oldest first.
abbrev pub waiting : Keyboard → List ℕ
waiting kb = take kb.buffer_size kb.buffer_chars

-- The array has its 32 bytes, and no more of them wait.
pub record IsBuffer (kb : Keyboard) : Type 0 where
  pub array : length kb.buffer_chars ≡ 32
  pub room : kb.buffer_size ≤ 32

-- What waits stays in front, and the buffer stays one.
pub record Extends (kb kb' : Keyboard) : Type 0 where
  pub added : List ℕ
  pub behind : waiting kb' ≡ waiting kb ++ added
  pub buffer : IsBuffer kb'

-- A key press that ends leaves such a buffer.
abbrev pub ExtendsStruck : Keyboard → Struck → Type 0
ExtendsStruck kb unbounded = Unit {0}
ExtendsStruck kb faulted = Unit {0}
ExtendsStruck kb (struck k kb') = Extends kb kb'

append_nil : (xs : List ℕ) → xs ≡ xs ++ []
append_nil [] = refl
append_nil (x ∷ xs) = ap (◌∷◌ x) (append_nil xs)

append_assoc : (xs ys zs : List ℕ) → (xs ++ ys) ++ zs ≡ xs ++ (ys ++ zs)
append_assoc [] ys zs = refl
append_assoc (x ∷ xs) ys zs = ap (◌∷◌ x) (append_assoc xs ys zs)

-- The array and the number are the same.
abbrev SameBuffer : Keyboard → Keyboard → Type 0
SameBuffer kb kb' = (kb'.buffer_chars ≡ kb.buffer_chars) × (kb'.buffer_size ≡ kb.buffer_size)

same-IsBuffer : (kb kb' : Keyboard) → SameBuffer kb kb' → IsBuffer kb → IsBuffer kb'
same-IsBuffer kb kb' (chars, size) b = record {
  array = ap length chars ∙ b.array;
  room = omega (arith, size, b.room);
}

same-waiting : (kb kb' : Keyboard) → SameBuffer kb kb' → waiting kb' ≡ waiting kb
same-waiting kb kb' (chars, size) =
    ap (λ n. take n kb'.buffer_chars) size ∙ ap (take kb.buffer_size) chars

same-Extends : (kb kb' : Keyboard) → SameBuffer kb kb' → IsBuffer kb → Extends kb kb'
same-Extends kb kb' same b = record {
  added = [];
  behind = same-waiting kb kb' same ∙ append_nil (waiting kb);
  buffer = same-IsBuffer kb kb' same b;
}

modified_buffer : (kb : Keyboard) (key : ℕ) → SameBuffer kb (modified kb key)
unfolding modified
modified_buffer kb key = (ground arith, ground arith)

-- A character put behind the first `n`.
take-set : (xs : List ℕ) (n v : ℕ) → n < length xs → take (suc n) (set xs n v) ≡ take n xs ++ v ∷ []
take-set [] n v lt = absurd (omega arith)
take-set (x ∷ xs) zero v lt = refl
take-set (x ∷ xs) (suc n) v lt = ap (◌∷◌ x) (take-set xs n v (omega arith))

put_buffer-Extends :
    (c : Core) (kb : Keyboard) (code : ℕ) → IsBuffer kb → Extends kb (put_buffer c kb code).1
unfolding put_buffer
put_buffer-Extends c kb code b = elim (Bool-cases (ltb kb.buffer_size 32)) [
  | inl room ↦
      let inside : kb.buffer_size < length kb.buffer_chars = ground (arith, room, b.array) in
      rw room (record {
        added = code ∷ [];
        behind =
            let one_more : kb.buffer_size + 1 ≡ suc kb.buffer_size = omega arith in
            ap (λ m. take m (set kb.buffer_chars kb.buffer_size code)) one_more
            ∙ take-set kb.buffer_chars kb.buffer_size code inside;
        buffer = record {
          array = length-set kb.buffer_chars kb.buffer_size code ∙ b.array;
          room = ground (arith, room);
        };
      })
  | inr full ↦ rw full (same-Extends kb kb (refl, refl) b)
]

-- The same, counted from the keyboard before the modifiers were looked at.
from_before : (kb kb1 kb2 : Keyboard) → SameBuffer kb kb1 → Extends kb1 kb2 → Extends kb kb2
from_before kb kb1 kb2 same ext = record {
  added = ext.added;
  behind = ext.behind ∙ ap (λ b. b ++ ext.added) (same-waiting kb kb1 same);
  buffer = ext.buffer;
}

interrupted-Extends :
    (kb kb1 : Keyboard) (r : Killed)
    → SameBuffer kb kb1
    → IsBuffer kb
    → ExtendsStruck kb (interrupted kb1 r)
interrupted-Extends kb kb1 unfinished e le = tt
interrupted-Extends kb kb1 (finished fault) e le = tt
interrupted-Extends kb kb1 (finished (returned (r, k))) e le = same-Extends kb kb1 e le

either_way : {A : Type 0} (P : A → Type 0) (b : Bool) (x y : A) → P x → P y → P (if b then x else y)
either_way P true x y p q = p
either_way P false x y p q = q

strike-Extends :
    (depth : ℕ) (o : Outside) (beyond : ℕ × ℕ) (k : Kernel) (kb : Keyboard) (key : ℕ)
    → IsBuffer kb
    → ExtendsStruck kb (strike depth o beyond k kb key)
unfolding strike
strike-Extends depth o beyond k kb0 key le =
    let kb = modified kb0 key in
    let same = modified_buffer kb0 key in
    let unchanged = same-Extends kb0 kb same le in
    let le' = same-IsBuffer kb0 kb same le in
    let put = λ (code : ℕ).
      from_before kb0 kb (put_buffer k.core kb code).1 same
        (put_buffer-Extends k.core kb code le') in
    let code = get_scancode beyond kb key in
    let killed = proc_kill depth o k (sch_get_running_pid (proc_is_fg k) k.core.scheduler) 255 in
    let is_c = kb.control && code == b'c' in
    let is_d = kb.control && code == b'd' in
    let char = stored k (put_buffer k.core kb code) in
    let below = if is_c then interrupted kb killed else char in
    let coded = if is_d then stored k (put_buffer k.core kb 27) else below in
    let no_char = not (ltb key keys && not (code == 0)) in
    let pressed = if no_char then struck k kb else coded in
    let P = ExtendsStruck kb0 in
    either_way P (not (key / 128 % 2 == 0)) (struck k kb) pressed unchanged (
      either_way P no_char (struck k kb) coded unchanged (
        either_way P is_d (stored k (put_buffer k.core kb 27)) below (put 27) (
          either_way P is_c (interrupted kb killed) char (interrupted-Extends kb0 kb killed same le)
            (put code))))

after_strike :
    (kb kb1 : Keyboard) (r : Struck) → Extends kb kb1 → ExtendsStruck kb1 r → ExtendsStruck kb r
after_strike kb kb1 unbounded ext later = tt
after_strike kb kb1 faulted ext later = tt
after_strike kb kb1 (struck k kb2) ext later = record {
  added = ext.added ++ later.added;
  behind =
      later.behind
      ∙ ap (λ b. b ++ later.added) ext.behind
      ∙ append_assoc (waiting kb) ext.added later.added;
  buffer = later.buffer;
}

go_on :
    (depth : ℕ) (o : Outside) (beyond : ℕ × ℕ) (kb : Keyboard) (rest : List ℕ) (r : Struck)
    → ExtendsStruck kb r
    → ((k1 : Kernel) (kb1 : Keyboard)
        → IsBuffer kb1
        → ExtendsStruck kb1 (keyboard_handler depth o beyond k1 kb1 rest))
    → ExtendsStruck kb (elim r [
      | unbounded ↦ unbounded
      | faulted ↦ faulted
      | struck k1 kb1 ↦ keyboard_handler depth o beyond k1 kb1 rest
    ])
go_on depth o beyond kb rest unbounded first later = tt
go_on depth o beyond kb rest faulted first later = tt
go_on depth o beyond kb rest (struck k1 kb1) first later =
    after_strike kb kb1 (keyboard_handler depth o beyond k1 kb1 rest) first
      (later k1 kb1 first.buffer)

-- Whatever keys the interrupt handler finds, it drops and reorders nothing of the characters that wait in the array of
-- 32 bytes: it adds behind, up to 32 characters in all.
pub keyboard_handler-ExtendsStruck :
    (depth : ℕ) (o : Outside) (beyond : ℕ × ℕ) (k : Kernel) (kb : Keyboard) (pressed : List ℕ)
    → IsBuffer kb
    → ExtendsStruck kb (keyboard_handler depth o beyond k kb pressed)
unfolding keyboard_handler
keyboard_handler-ExtendsStruck depth o beyond k kb [] le = same-Extends kb kb (refl, refl) le
keyboard_handler-ExtendsStruck depth o beyond k kb (key ∷ rest) le =
    go_on depth o beyond kb rest (strike depth o beyond k kb key)
      (strike-Extends depth o beyond k kb key le)
      (λ k1 kb1 le1. keyboard_handler-ExtendsStruck depth o beyond k1 kb1 rest le1)
