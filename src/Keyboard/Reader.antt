-- ===== src/Keyboard/Reader.antt =====
-- kb_read_chars of Kernel/drivers/keyboard.c: which characters a reader gets, and which stay in the array.
use native.Mathlib.Nat.{mul-suc}
use tpe_so_2023_tp.Base.{
  ℕ, zero, suc, ◌+◌, ◌-◌, ◌*◌, ◌/◌, ◌%◌, ◌<◌, ◌≤◌, ◌≡◌, refl, sym, ap, ◌∙◌, arith, ltb, leb, ◌==◌,
  ◌&&◌, if◌then◌else◌, List, [], ◌∷◌, length, get_or, take, drop, take_all, All, length-take,
  length-drop, get_or-take, get_or-drop, list_ext, Bool-cases, inl, inr,
}
use tpe_so_2023_tp.Text.{memcpy}
use tpe_so_2023_tp.Text.Words.{memcpy_lem}
use tpe_so_2023_tp.Pipe.Buffer.{overwrite, slice}
use tpe_so_2023_tp.Pipe.Buffer.Copy.{length-overwrite, get_or-overwrite}
use tpe_so_2023_tp.Keyboard.{Keyboard, copy_down, moved_down, kb_read_chars}
use tpe_so_2023_tp.Keyboard.Fifo.{IsBuffer, waiting}

length-copy_down : (n w i off : ℕ) (buf : List ℕ) → length (copy_down n w i off buf) ≡ length buf
unfolding copy_down
length-copy_down zero w i off buf = refl
length-copy_down (suc n) w i off buf =
    length-copy_down n w (i + w) off (overwrite buf i (slice buf (i + off) w))
    ∙ length-overwrite buf i (slice buf (i + off) w)

-- One round.
get_or-round :
    (w i off : ℕ) (buf : List ℕ) (j : ℕ)
    → i + off + w ≤ length buf
    → j < length buf
    → get_or (overwrite buf i (slice buf (i + off) w)) j 0
      ≡ (if leb i j && ltb j (i + w) then get_or buf (j + off) 0 else get_or buf j 0)
get_or-round w i off buf j fits lt =
    get_or-overwrite buf i (slice buf (i + off) w) j lt
    ∙ ground (
      arith,
      length-take w (drop (i + off) buf),
      length-drop (i + off) buf,
      get_or-take w (drop (i + off) buf) (j - i) 0,
      get_or-drop (i + off) buf (j - i) 0,
    )

-- Though the two ranges overlap, each entry of the copied range is the old one `off` places further on.
get_or-copy_down :
    (n w i off : ℕ) (buf : List ℕ) (j : ℕ)
    → i + off + w * n ≤ length buf
    → j < length buf
    → get_or (copy_down n w i off buf) j 0
      ≡ (if leb i j && ltb j (i + w * n) then get_or buf (j + off) 0 else get_or buf j 0)
unfolding copy_down
get_or-copy_down zero w i off buf j fits lt = ground arith
get_or-copy_down (suc n) w i off buf j fits lt =
    let once = overwrite buf i (slice buf (i + off) w) in
    let len = length-overwrite buf i (slice buf (i + off) w) in
    let more : w * suc n ≡ w * n + w = mul-suc w n in
    get_or-copy_down n w (i + w) off once j (omega (arith, len, more)) (omega (arith, len))
    ∙ ground (
      arith,
      more,
      get_or-round w i off buf j (omega (arith, more)) lt,
      get_or-round w i off buf (j + off) (omega (arith, more)),
    )

length-moved_down :
    (at : ℕ) (buf : List ℕ) (off n : ℕ) → length (moved_down at buf off n) ≡ length buf
unfolding moved_down
length-moved_down at buf off n =
    ground (arith, length-copy_down (n / 4) 4 0 off buf, length-copy_down n 1 0 off buf)

-- By words or by bytes.
get_or-moved_down :
    (at : ℕ) (buf : List ℕ) (off n j : ℕ)
    → off + n ≤ length buf
    → j < n
    → get_or (moved_down at buf off n) j 0 ≡ get_or buf (j + off) 0
unfolding moved_down
get_or-moved_down at buf off n j fits lt =
    let whole : n % 4 ≡ 0 → 4 * (n / 4) ≡ n = λ e. omega arith in
    ground (
      arith,
      whole,
      get_or-copy_down (n / 4) 4 0 off buf j (omega arith) (omega arith),
      get_or-copy_down n 1 0 off buf j (omega arith) (omega arith),
    )

take-moved_down :
    (at : ℕ) (buf : List ℕ) (off n : ℕ)
    → off + n ≤ length buf
    → take n (moved_down at buf off n) ≡ drop off (take (off + n) buf)
take-moved_down at buf off n fits =
    list_ext _ _ 0
      (omega (
        arith,
        length-take n (moved_down at buf off n),
        length-moved_down at buf off n,
        length-drop off (take (off + n) buf),
        length-take (off + n) buf,
      ))
      (λ j lt.
        let lt' : j < n = omega (arith, length-take n (moved_down at buf off n)) in
        ground (
          arith,
          get_or-take n (moved_down at buf off n) j 0,
          get_or-moved_down at buf off n j fits lt',
          get_or-drop off (take (off + n) buf) j 0,
          get_or-take (off + n) buf (off + j) 0,
        ))

-- What a reading of at most `size` characters comes to.
abbrev pub ReadsFirst : Keyboard → ℕ → List ℕ × Keyboard → Type 0
ReadsFirst kb size (chars, kb') =
    (chars ≡ take size (waiting kb)) × (waiting kb' ≡ drop size (waiting kb)) × IsBuffer kb'

take-take : (m n : ℕ) (xs : List ℕ) → m ≤ n → take m (take n xs) ≡ take m xs
take-take zero n xs le = refl
take-take (suc m) zero xs le = absurd (omega arith)
take-take (suc m) (suc n) [] le = refl
take-take (suc m) (suc n) (x ∷ xs) le = ap (◌∷◌ x) (take-take m n xs (omega arith))

drop_all : (n : ℕ) (xs : List ℕ) → length xs ≤ n → drop n xs ≡ []
drop_all zero [] le = refl
drop_all (suc n) [] le = refl
drop_all zero (x ∷ xs) le = absurd (omega arith)
drop_all (suc n) (x ∷ xs) le = drop_all n xs (omega arith)

-- With `count` characters to copy, of those that wait.
read_some :
    (kb : Keyboard) (buf count : ℕ)
    → IsBuffer kb
    → All (λ c. c < 256) kb.buffer_chars
    → count ≤ kb.buffer_size
    → (memcpy buf kb.buffer_at kb.buffer_chars count ≡ take count (waiting kb))
      × (take
            (kb.buffer_size - count)
            (moved_down kb.buffer_at kb.buffer_chars count (kb.buffer_size - count))
          ≡ drop count (waiting kb))
read_some kb buf count b bytes le =
    let whole : count + (kb.buffer_size - count) ≡ kb.buffer_size = omega arith in
    (
      memcpy_lem buf kb.buffer_at kb.buffer_chars count bytes (omega (arith, b.array, b.room))
          ∙ sym (take-take count kb.buffer_size kb.buffer_chars le),
      take-moved_down kb.buffer_at kb.buffer_chars count (kb.buffer_size - count)
            (omega (arith, b.array, b.room))
          ∙ ap (λ n. drop count (take n kb.buffer_chars)) whole,
    )

length-waiting : (kb : Keyboard) → IsBuffer kb → length (waiting kb) ≡ kb.buffer_size
length-waiting kb b = omega (arith, length-take kb.buffer_size kb.buffer_chars, b.array, b.room)

left-IsBuffer :
    (kb : Keyboard) (count : ℕ)
    → IsBuffer kb
    → IsBuffer (record kb {
      buffer_chars = moved_down kb.buffer_at kb.buffer_chars count (kb.buffer_size - count);
      buffer_size = kb.buffer_size - count;
    })
left-IsBuffer kb count b = record {
  array = length-moved_down kb.buffer_at kb.buffer_chars count (kb.buffer_size - count) ∙ b.array;
  room = omega (arith, b.room);
}

-- The same number of characters, as the code counts them.
as_counted :
    (kb : Keyboard) (size : ℕ)
    → IsBuffer kb
    → let count = if ltb size kb.buffer_size then size else kb.buffer_size in
      (take count (waiting kb) ≡ take size (waiting kb))
      × (drop count (waiting kb) ≡ drop size (waiting kb))
as_counted kb size b = elim (Bool-cases (ltb size kb.buffer_size)) [
  | inl fewer ↦ rw fewer (refl, refl)
  | inr all ↦
      let len = length-waiting kb b in
      let le : kb.buffer_size ≤ size = ground (arith, all) in
      rw all (
        take_all kb.buffer_size (waiting kb) (omega (arith, len))
            ∙ sym (take_all size (waiting kb) (omega (arith, len))),
        drop_all kb.buffer_size (waiting kb) (omega (arith, len))
            ∙ sym (drop_all size (waiting kb) (omega (arith, len))),
      )
]

read_counted :
    (kb : Keyboard) (buf size count : ℕ)
    → IsBuffer kb
    → All (λ c. c < 256) kb.buffer_chars
    → (if ltb size kb.buffer_size then size else kb.buffer_size) ≡ count
    → ReadsFirst kb count (kb_read_chars kb buf size)
unfolding kb_read_chars
read_counted kb buf size count b bytes e = elim (Bool-cases (count == 0)) [
  | inl none ↦
      let zero_count : count ≡ 0 = ground (arith, none) in rw (e, zero_count) (refl, refl, b)
  | inr some ↦
      let (first, rest) = read_some kb buf count b bytes (ground (arith, e)) in
      rw (e, some) (first, rest, left-IsBuffer kb count b)
]

-- Of the characters that wait, a reader gets the oldest, as many as it asks for or as there are, and the others wait on,
-- in order, at the start of the array, though the second copy is one between overlapping ranges.
pub kb_read_chars_lem :
    (kb : Keyboard) (buf size : ℕ)
    → IsBuffer kb
    → All (λ c. c < 256) kb.buffer_chars
    → ReadsFirst kb size (kb_read_chars kb buf size)
kb_read_chars_lem kb buf size b bytes =
    let (chars, left, ring) = read_counted kb buf size _ b bytes refl in
    let (same, same') = as_counted kb size b in (chars ∙ same, left ∙ same', ring)
