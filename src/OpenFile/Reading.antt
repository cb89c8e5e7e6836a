-- ===== src/OpenFile/Reading.antt =====
-- ReadAt: the bytes of the file up to its end.
use os_td_minf.Prelude.{
  ℕ, ◌+◌, ◌-◌, ◌*◌, ◌/◌, ◌≤◌, ◌<◌, min, ◌≡◌, refl, sym, ap, subst, ◌∙◌, inl, inr, false, ◌&&◌, ◌||◌,
  some, arith, ltb, leb, ◌==◌, if◌then◌else◌, Bool-cases,
}
use os_td_minf.FileHeader.{FileHeader, sector_size, file_length}
use os_td_minf.Disk.Defs.{HostFile, Buffer, Disk}
use os_td_minf.Disk.Sectors.{bcopy_lem, Rests}
use os_td_minf.OpenFile.Defs.{request, new_buffer, read_at, read_part}
use os_td_minf.OpenFile.Sectors.{Located, file_byte, read_sectors-Reads}

-- What ReadAt of `num_bytes` at `position` does: n is the number of bytes that it returns.
pub record Fetched {F : Type 0} (host : HostFile F) (sector : ℕ → ℕ) (n : ℕ) (into : Buffer)
    (offset position : ℕ) (d : Disk F) (into' : Buffer) (d' : Disk F) : Type 0 where
  pub rests : Rests d d'
  pub same_size : into'.size ≡ into.size
  pub bytes :
      (j : ℕ)
      → into'.bytes j ≡ (
          if leb offset j && ltb j (offset + n)
          then file_byte host sector d (position + (j - offset))
          else into.bytes j)

module _ {F : Type 0} (host : HostFile F) (clock : Disk F → ℕ) (unset : ℕ → ℕ) {h : FileHeader}
    {sector : ℕ → ℕ} (located : Located h sector) where
  -- ReadAt of a request of one byte or more that ends in the file.
  fetch :
      (n : ℕ) (into : Buffer) (offset position : ℕ) (d : Disk F)
      → d.active ≡ false
      → 0 < n
      → position + n ≤ h.num_bytes
      → offset + n ≤ into.size
      → (into' : Buffer) × (d' : Disk F) × (read_part host clock unset h into offset n position d
          ≡ some (n, into', d'))
        × Fetched host sector n into offset position d into' d'
  unfolding read_part
  fetch n into offset position d idle many inside fits =
      let first = position / sector_size in
      let k = 1 + (position + n - 1) / sector_size - first in
      let skip = position - first * sector_size in
      let (buf, d', done, reads) =
        read_sectors-Reads host clock unset located k first first
          (new_buffer unset (k * sector_size)) d idle (omega arith) (omega arith)
          (λ b lt. ground arith) in
      let copied = bcopy_lem buf skip into offset n (ground (arith, reads.same_size)) fits in
      let into' : Buffer = record into {
        bytes = λ m.
            if leb offset m && ltb m (offset + n)
            then buf.bytes (skip + (m - offset))
            else into.bytes m;
      } in
      (
        into',
        d',
        rw (done, copied) refl,
        record {
          rests = reads.rests;
          same_size = refl;
          bytes = λ j. elim (Bool-cases (leb offset j && ltb j (offset + n))) [
            | inl mine ↦
                let m = skip + (j - offset) in
                let same : file_byte host sector d (first * sector_size + m)
                    ≡ file_byte host sector d (position + (j - offset)) =
                  ap (file_byte host sector d) (omega arith) in
                simp mine (ground (arith, reads.bytes m, same, mine))
            | inr other ↦ simp other refl
          ];
        },
      )

  pub read_at-Fetched :
      (into : Buffer) (offset num_bytes position : ℕ) (d : Disk F)
      → d.active ≡ false
      → offset + min num_bytes (h.num_bytes - position) ≤ into.size
      → (into' : Buffer) × (d' : Disk F) × (read_at host clock unset h into offset num_bytes
            position d
          ≡ some (min num_bytes (h.num_bytes - position), into', d'))
        × Fetched host sector
            (min num_bytes (h.num_bytes - position))
            into
            offset
            position
            d
            into'
            d'
  unfolding read_at file_length
  read_at-Fetched into offset num_bytes position d idle fits =
      let n = min num_bytes (h.num_bytes - position) in
      elim (Bool-cases (num_bytes == 0 || leb h.num_bytes position)) [
        | inl nothing ↦
            let none_left : 0 ≡ n = ground arith in
            let untouched : Fetched host sector 0 into offset position d into d = record {
              rests = record { idle = idle; same = refl };
              same_size = refl;
              bytes = λ j. ground arith;
            } in
            (
              into,
              d,
              simp nothing (ap (λ m. some (m, into, d)) none_left),
              subst (λ m. Fetched host sector m into offset position d into d) none_left untouched,
            )
        | inr something ↦
            let same : n ≡ request num_bytes position h.num_bytes = ground arith in
            let (into', d', done, fetched) =
              fetch n into offset position d idle (ground arith) (ground arith) fits in
            (
              into',
              d',
              simp something (
                  ap (λ m. read_part host clock unset h into offset m position d) (sym same)
                  ∙ done),
              fetched,
            )
      ]
