-- ===== src/OpenFile/Writing.antt =====
-- WriteAt: the bytes of the file change where they are written, and nowhere else.
use os_td_minf.Prelude.{
  ℕ, ◌+◌, ◌-◌, ◌*◌, ◌/◌, ◌%◌, ◌≤◌, ◌<◌, min, ◌≡◌, refl, sym, ap, subst, ◌∙◌, ◌≢◌, inl, inr, false,
  ◌&&◌, ◌||◌, some, arith, ltb, leb, ◌==◌, if◌then◌else◌, Bool-cases,
}
use os_td_minf.FileHeader.{FileHeader, sector_size, file_length}
use os_td_minf.Disk.Defs.{HostFile, Buffer, Disk, magic_size}
use os_td_minf.Disk.Sectors.{bcopy_lem, sector_byte}
use os_td_minf.OpenFile.Defs.{request, new_buffer, read_at, write_part, write_at}
use os_td_minf.OpenFile.Sectors.{Located, file_byte, Rests-file_byte}
use os_td_minf.OpenFile.Reading.{read_at-Fetched}
use os_td_minf.OpenFile.Storing.{Stores, write_sectors-Stores}
use os_td_minf.OpenFile.Filling.{Filled, fill_ends-Filled, bind_some}

-- What WriteAt of n bytes at `position` does to the disk: in the file, and in the sectors that are
-- not the file's.
pub record Written {F : Type 0} (host : HostFile F) (h : FileHeader) (sector : ℕ → ℕ) (n : ℕ)
    (from : Buffer) (position : ℕ) (d d' : Disk F) : Type 0 where
  pub idle : d'.active ≡ false
  pub bytes :
      (x : ℕ)
      → x < h.num_bytes
      → file_byte host sector d' x ≡ (
          if leb position x && ltb x (position + n)
          then from.bytes (x - position)
          else file_byte host sector d x)
  pub others :
      (s c : ℕ)
      → ((b : ℕ) → b * sector_size < h.num_bytes → sector b ≢ s)
      → c < sector_size
      → sector_byte host d' s c ≡ sector_byte host d s c

-- `buf` with n bytes of `from` at `skip`.
abbrev copied_to : Buffer → Buffer → ℕ → ℕ → Buffer
copied_to from buf skip n = record buf {
  bytes = λ m. if leb skip m && ltb m (skip + n) then from.bytes (0 + (m - skip)) else buf.bytes m;
}

module _ {F : Type 0} (host : HostFile F) (clock : Disk F → ℕ) (unset : ℕ → ℕ) {h : FileHeader}
    {sector : ℕ → ℕ} (located : Located h sector) where
  stored_byte :
      (n position : ℕ) (from base buf : Buffer) (d d₁ d' : Disk F)
      → 0 < n
      → Filled host h sector n position base d buf d₁
      → Stores host h sector
          (1 + (position + n - 1) / sector_size - position / sector_size)
          (position / sector_size)
          (position / sector_size)
          (copied_to from buf (position - position / sector_size * sector_size) n)
          d₁
          d'
      → (x : ℕ) → x < h.num_bytes
      → file_byte host sector d' x ≡ (
          if leb position x && ltb x (position + n)
          then from.bytes (x - position)
          else file_byte host sector d x)
  stored_byte n position from base buf d d₁ d' many filled stores x lt =
      let first = position / sector_size in
      let b = x / sector_size in
      let m = (b - first) * sector_size + x % sector_size in
      let skip = position - first * sector_size in
      let at = stores.blocks b (x % sector_size) (omega arith) (omega arith) in
      let kept = Rests-file_byte host sector d d₁ x filled.rests in
      elim (Bool-cases (leb position x && ltb x (position + n))) [
        | inl mine ↦
            let place : from.bytes (0 + (m - skip)) ≡ from.bytes (x - position) =
              ap from.bytes (ground (arith, mine)) in
            ground (arith, at, place, mine)
        | inr other ↦ elim (Bool-cases (leb first b)) [
          | inl late ↦
              let index : first * sector_size + m ≡ x = ground (arith, late) in
              let content : file_byte host sector d (first * sector_size + m)
                  ≡ file_byte host sector d x =
                ap (file_byte host sector d) index in
              elim (Bool-cases (ltb x (((position + n - 1) / sector_size + 1) * sector_size))) [
                | inl low ↦
                    let end =
                      filled.ends m (omega (arith, index, lt)) (ground (arith, index, low)) (
                        subst (λ y. (leb position y && ltb y (position + n)) ≡ false) (sym index)
                          other) in
                    ground (arith, at, kept, content, end, late, low, other)
                | inr high ↦ ground (arith, at, kept, late, high, other)
              ]
          | inr early ↦ ground (arith, at, kept, early, other)
        ]
      ]

  store :
      (n : ℕ) (from : Buffer) (position : ℕ) (d : Disk F)
      → d.active ≡ false
      → 0 < n
      → position + n ≤ h.num_bytes
      → n ≤ from.size
      → (d' : Disk F) × (write_part host clock unset h from n position d ≡ some (n, d'))
        × Written host h sector n from position d d'
  unfolding write_part
  store n from position d idle many inside fits =
      let first = position / sector_size in
      let k = 1 + (position + n - 1) / sector_size - first in
      let skip = position - first * sector_size in
      let base = new_buffer unset (k * sector_size) in
      let (buf, d₁, done₁, filled) =
        fill_ends-Filled host clock unset located n position base d idle many (omega arith) in
      let copied = bcopy_lem from 0 buf skip n (omega arith) (omega (arith, filled.same_size)) in
      let (d', done, stores) =
        write_sectors-Stores host clock unset located k first first (copied_to from buf skip n) d₁
          filled.rests.idle (omega arith) (omega (arith, filled.same_size))
          (λ b lt. ground arith) in
      (
        d',
        bind_some _ done₁ (bind_some _ copied (bind_some _ done refl)),
        record {
          idle = stores.idle;
          bytes = stored_byte n position from base buf d d₁ d' many filled stores;
          others = λ s c other small.
              stores.others s c other small
              ∙ ap (λ f. host.byte_at f (sector_size * s + magic_size + c)) filled.rests.same;
        },
      )

  -- WriteAt of any number of bytes at any position, where the buffer has that many: it returns as many
  -- as there are up to the end of the file, which is written there; the rest of the file, and every
  -- sector of the disk that is not the file's, stay as they are.
  pub write_at-Written :
      (from : Buffer) (num_bytes position : ℕ) (d : Disk F)
      → d.active ≡ false
      → num_bytes ≤ from.size
      → (d' : Disk F) × (write_at host clock unset h from num_bytes position d
          ≡ some (min num_bytes (h.num_bytes - position), d'))
        × Written host h sector (min num_bytes (h.num_bytes - position)) from position d d'
  unfolding write_at file_length
  write_at-Written from num_bytes position d idle fits =
      let n = min num_bytes (h.num_bytes - position) in
      elim (Bool-cases (num_bytes == 0 || leb h.num_bytes position)) [
        | inl nothing ↦
            let none_left : 0 ≡ n = ground arith in
            let untouched : Written host h sector 0 from position d d = record {
              idle = idle;
              bytes = λ x lt. ground arith;
              others = λ s c other small. refl;
            } in
            (
              d,
              simp nothing (ap (λ m. some (m, d)) none_left),
              subst (λ m. Written host h sector m from position d d) none_left untouched,
            )
        | inr something ↦
            let same : n ≡ request num_bytes position h.num_bytes = ground arith in
            let (d', done, written) =
              store n from position d idle (ground arith) (ground arith) (omega arith) in
            (
              d',
              simp something
                  (ap (λ m. write_part host clock unset h from m position d) (sym same) ∙ done),
              written,
            )
      ]

  -- WriteAt and then ReadAt, at any positions: ReadAt gives the bytes that were written, where they
  -- overlap, and otherwise those that the file had.
  pub read_at-write_at :
      (from into : Buffer) (n p m q : ℕ) (d : Disk F)
      → d.active ≡ false
      → n ≤ from.size
      → m ≤ into.size
      → (d' : Disk F) × (into' : Buffer) × (d'' : Disk F) × (write_at host clock unset h from n p d
          ≡ some (min n (h.num_bytes - p), d'))
        × (read_at host clock unset h into 0 m q d' ≡ some (min m (h.num_bytes - q), into', d''))
        × ((j : ℕ)
            → j < min m (h.num_bytes - q)
            → into'.bytes j ≡ (
                if leb p (q + j) && ltb (q + j) (p + min n (h.num_bytes - p))
                then from.bytes (q + j - p)
                else file_byte host sector d (q + j)))
  read_at-write_at from into n p m q d idle fits room =
      let (d', wrote, written) = write_at-Written from n p d idle fits in
      let (into', d'', got, fetched) =
        read_at-Fetched host clock unset located into 0 m q d' written.idle (omega arith) in
      (
        d',
        into',
        d'',
        wrote,
        got,
        λ j lt.
            let x : file_byte host sector d' (q + (j - 0)) ≡ file_byte host sector d' (q + j) =
              ap (file_byte host sector d') (omega arith) in
            let first = fetched.bytes j in
            let second = written.bytes (q + j) (omega arith) in
            ground (arith, first, second, x, lt),
      )
