-- ===== src/OpenFile/Sectors.antt =====
-- The loops of ReadAt and WriteAt over the sectors of a file.
use os_td_minf.Prelude.{
  ℕ, zero, suc, ◌+◌, ◌-◌, ◌*◌, ◌/◌, ◌%◌, ◌≤◌, ◌<◌, ◌≡◌, refl, ap, ap₂, ◌∙◌, inl, inr, false, ◌&&◌,
  some, arith, pos, ltb, leb, if◌then◌else◌, Bool-cases,
}
use os_td_minf.FileHeader.{FileHeader, sector_size, byte_to_sector}
use os_td_minf.Disk.Defs.{HostFile, Buffer, Disk, num_sectors, magic_size}
use os_td_minf.Disk.Sectors.{sector_byte, Rests, read_sector_lem}
use os_td_minf.OpenFile.Defs.{read_sectors}

-- Block b of the file is in sector `sector b`, a sector of its own.
pub record Located (h : FileHeader) (sector : ℕ → ℕ) : Type 0 where
  pub found :
      (b : ℕ)
      → b * sector_size < h.num_bytes
      → byte_to_sector h (b * sector_size) ≡ some (pos (sector b))
  pub on_disk : (b : ℕ) → b * sector_size < h.num_bytes → sector b < num_sectors
  pub apart :
      (a b : ℕ)
      → a * sector_size < h.num_bytes
      → b * sector_size < h.num_bytes
      → sector a ≡ sector b
      → a ≡ b

-- Byte x of the file.
abbrev pub file_byte : {F : Type 0} → HostFile F → (ℕ → ℕ) → Disk F → ℕ → ℕ
file_byte host sector d x = sector_byte host d (sector (x / sector_size)) (x % sector_size)

module _ {F : Type 0} (host : HostFile F) (sector : ℕ → ℕ) where
  -- The same byte, from its block and its place in it.
  file_byte_lem :
      (d : Disk F) (x b k : ℕ)
      → x / sector_size ≡ b
      → x % sector_size ≡ k
      → file_byte host sector d x ≡ sector_byte host d (sector b) k
  file_byte_lem d x b k p q = ap₂ (λ c m. sector_byte host d (sector c) m) p q

  pub Rests-file_byte :
      (d d' : Disk F) (x : ℕ) → Rests d d' → file_byte host sector d' x ≡ file_byte host sector d x
  Rests-file_byte d d' x rests =
      ap
        (λ f.
          host.byte_at f (sector_size * sector (x / sector_size) + magic_size + x % sector_size))
        rests.same

-- What the loop of ReadAt leaves in the buffer.
pub record Reads {F : Type 0} (host : HostFile F) (sector : ℕ → ℕ) (k i first : ℕ) (buf : Buffer)
    (d : Disk F) (buf' : Buffer) (d' : Disk F) : Type 0 where
  pub rests : Rests d d'
  pub same_size : buf'.size ≡ buf.size
  pub bytes :
      (j : ℕ)
      → buf'.bytes j ≡ (
          if leb ((i - first) * sector_size) j && ltb j ((i - first + k) * sector_size)
          then file_byte host sector d (first * sector_size + j)
          else buf.bytes j)

module _ {F : Type 0} (host : HostFile F) (clock : Disk F → ℕ) (unset : ℕ → ℕ) {h : FileHeader}
    {sector : ℕ → ℕ} (located : Located h sector) where
  pub read_sectors-Reads :
      (k i first : ℕ) (buf : Buffer) (d : Disk F)
      → d.active ≡ false
      → first ≤ i
      → (i - first + k) * sector_size ≤ buf.size
      → ((b : ℕ) → b < i + k → b * sector_size < h.num_bytes)
      → (buf' : Buffer) × (d' : Disk F) × (read_sectors host clock unset k i first h buf d
          ≡ some (buf', d'))
        × Reads host sector k i first buf d buf' d'
  unfolding read_sectors
  read_sectors-Reads zero i first buf d idle low fits inside = (
    buf,
    d,
    refl,
    record {
      rests = record { idle = idle; same = refl };
      same_size = refl;
      bytes = λ j. ground arith;
    },
  )
  read_sectors-Reads (suc k) i first buf d idle low fits inside =
      let here = inside i (omega arith) in
      let offset = (i - first) * sector_size in
      let buf₁ : Buffer = record buf {
        bytes = λ m.
            if leb offset m && ltb m (offset + sector_size)
            then sector_byte host d (sector i) (0 + (m - offset))
            else buf.bytes m;
      } in
      let (d₁, rests₁, done₁) =
        read_sector_lem host clock (sector i) buf offset d idle (located.on_disk i here)
          (omega arith) in
      let (buf', d', done, reads) =
        read_sectors-Reads k (i + 1) first buf₁ d₁ rests₁.idle (omega arith) (omega arith)
          (λ b lt. inside b (omega arith)) in
      let rests : Rests d d' = record {
        idle = reads.rests.idle;
        same = reads.rests.same ∙ rests₁.same;
      } in
      (
        buf',
        d',
        rw (located.found i here, done₁) done,
        record {
          rests = rests;
          same_size = reads.same_size;
          bytes = λ j. elim (Bool-cases (leb offset j && ltb j (offset + sector_size))) [
            | inl mine ↦
                let x = first * sector_size + j in
                let put : buf₁.bytes j ≡ sector_byte host d (sector i) (0 + (j - offset)) =
                  simp mine refl in
                let same =
                  file_byte_lem host sector d x i (0 + (j - offset)) (ground arith)
                    (ground arith) in
                ground (arith, reads.bytes j, put, same)
            | inr other ↦
                let kept : buf₁.bytes j ≡ buf.bytes j = simp other refl in
                let same = Rests-file_byte host sector d d₁ (first * sector_size + j) rests₁ in
                ground (arith, reads.bytes j, kept, same)
          ];
        },
      )
