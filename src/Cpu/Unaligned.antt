-- ===== src/Cpu/Unaligned.antt =====
-- LWL, LWR, SWL and SWR of code/machine/mipssim.cc byte by byte, for a little-endian machine.
use os_td_minf.Prelude.{
  ℕ, zero, suc, ◌+◌, ◌-◌, ◌/◌, ◌%◌, ◌^◌, ◌<◌, ◌≡◌, arith, ltb, leb, ◌==◌, if◌then◌else◌,
}
use os_td_minf.Cpu.LoadStore.{merge_right, merge_left, store_right, store_left}

-- Byte `j` of a word, from the lowest.
abbrev pub byte_of : ℕ → ℕ → ℕ
byte_of x zero = x % 256
byte_of x (suc j) = byte_of (x / 256) j

-- LWR at byte `k` of a word puts the bytes from `k` on at the low end of the register, LWL those up
-- to `k` at its high end; SWR and SWL put the same bytes back. The other bytes stay.
abbrev pub right_byte : ℕ → ℕ → ℕ → ℕ → ℕ
right_byte k old value j = if ltb (j + k) 4 then byte_of value (j + k) else byte_of old j

abbrev pub left_byte : ℕ → ℕ → ℕ → ℕ → ℕ
left_byte k old value j = if leb (3 - k) j then byte_of value (j - (3 - k)) else byte_of old j

abbrev pub stored_right_byte : ℕ → ℕ → ℕ → ℕ → ℕ
stored_right_byte k register value j = if leb k j then byte_of register (j - k) else byte_of value j

abbrev pub stored_left_byte : ℕ → ℕ → ℕ → ℕ → ℕ
stored_left_byte k register value j =
    if leb j k then byte_of register (j + (3 - k)) else byte_of value j

-- The position whose bytes LWL takes at position `k`: 0 and 2 for each other.
abbrev pub swapped : ℕ → ℕ
swapped k = if k == 0 then 2 else if k == 2 then 0 else k

four : (P : ℕ → Type 0) → P 0 × P 1 × P 2 × P 3 → (k : ℕ) → k < 4 → P k
four P (a, b, c, d) zero h = a
four P (a, b, c, d) (suc zero) h = b
four P (a, b, c, d) (suc (suc zero)) h = c
four P (a, b, c, d) (suc (suc (suc zero))) h = d
four P (a, b, c, d) (suc (suc (suc (suc k)))) h = absurd (omega arith)

module _ (x y : ℕ) (x_small : x < 2 ^ 32) (y_small : y < 2 ^ 32) where
  -- What LWR at byte `k` of a word puts in the register, byte by byte: the word's bytes from `k` on
  -- at the low end, and the register's own above them.
  pub merge_right_lem :
      (k j : ℕ) → k < 4 → j < 4 → byte_of (merge_right k x y) j ≡ right_byte k x y j
  unfolding merge_right
  merge_right_lem k j h l =
      four (λ k. byte_of (merge_right k x y) j ≡ right_byte k x y j)
        (
          four (λ j. byte_of (merge_right 0 x y) j ≡ right_byte 0 x y j)
              (omega arith, omega arith, omega arith, omega arith) j l,
          four (λ j. byte_of (merge_right 1 x y) j ≡ right_byte 1 x y j)
              (omega arith, omega arith, omega arith, omega arith) j l,
          four (λ j. byte_of (merge_right 2 x y) j ≡ right_byte 2 x y j)
              (omega arith, omega arith, omega arith, omega arith) j l,
          four (λ j. byte_of (merge_right 3 x y) j ≡ right_byte 3 x y j)
              (omega arith, omega arith, omega arith, omega arith) j l,
        )
        k h

  -- What LWL at byte `k` of a word puts in the register: at positions 1 and 3 the word's bytes up to
  -- `k` at the high end, and the register's own below them; at positions 0 and 2 what belongs to the
  -- other of the two.
  pub merge_left_lem :
      (k j : ℕ) → k < 4 → j < 4 → byte_of (merge_left k x y) j ≡ left_byte (swapped k) x y j
  unfolding merge_left
  merge_left_lem k j h l =
      four (λ k. byte_of (merge_left k x y) j ≡ left_byte (swapped k) x y j)
        (
          four (λ j. byte_of (merge_left 0 x y) j ≡ left_byte (swapped 0) x y j)
              (omega arith, omega arith, omega arith, omega arith) j l,
          four (λ j. byte_of (merge_left 1 x y) j ≡ left_byte (swapped 1) x y j)
              (omega arith, omega arith, omega arith, omega arith) j l,
          four (λ j. byte_of (merge_left 2 x y) j ≡ left_byte (swapped 2) x y j)
              (omega arith, omega arith, omega arith, omega arith) j l,
          four (λ j. byte_of (merge_left 3 x y) j ≡ left_byte (swapped 3) x y j)
              (omega arith, omega arith, omega arith, omega arith) j l,
        )
        k h

  -- What SWR at byte `k` of a word leaves in the word: the register's low bytes from byte `k` on, and
  -- the word's own below them.
  pub store_right_lem :
      (k j : ℕ) → k < 4 → j < 4 → byte_of (store_right k x y) j ≡ stored_right_byte k x y j
  unfolding store_right
  store_right_lem k j h l =
      four (λ k. byte_of (store_right k x y) j ≡ stored_right_byte k x y j)
        (
          four (λ j. byte_of (store_right 0 x y) j ≡ stored_right_byte 0 x y j)
              (omega arith, omega arith, omega arith, omega arith) j l,
          four (λ j. byte_of (store_right 1 x y) j ≡ stored_right_byte 1 x y j)
              (omega arith, omega arith, omega arith, omega arith) j l,
          four (λ j. byte_of (store_right 2 x y) j ≡ stored_right_byte 2 x y j)
              (omega arith, omega arith, omega arith, omega arith) j l,
          four (λ j. byte_of (store_right 3 x y) j ≡ stored_right_byte 3 x y j)
              (omega arith, omega arith, omega arith, omega arith) j l,
        )
        k h

  -- What SWL at byte `k` of a word leaves in the word: the register's high bytes up to byte `k`, and
  -- the word's own above them.
  pub store_left_lem :
      (k j : ℕ) → k < 4 → j < 4 → byte_of (store_left k x y) j ≡ stored_left_byte k x y j
  unfolding store_left
  store_left_lem k j h l =
      four (λ k. byte_of (store_left k x y) j ≡ stored_left_byte k x y j)
        (
          four (λ j. byte_of (store_left 0 x y) j ≡ stored_left_byte 0 x y j)
              (omega arith, omega arith, omega arith, omega arith) j l,
          four (λ j. byte_of (store_left 1 x y) j ≡ stored_left_byte 1 x y j)
              (omega arith, omega arith, omega arith, omega arith) j l,
          four (λ j. byte_of (store_left 2 x y) j ≡ stored_left_byte 2 x y j)
              (omega arith, omega arith, omega arith, omega arith) j l,
          four (λ j. byte_of (store_left 3 x y) j ≡ stored_left_byte 3 x y j)
              (omega arith, omega arith, omega arith, omega arith) j l,
        )
        k h
