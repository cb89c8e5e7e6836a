-- ===== src/OpenFile/Storing.antt =====
-- The loop of WriteAt over the sectors of a file.
use os_td_minf.Prelude.{
  ℕ, zero, suc, ◌+◌, ◌-◌, ◌*◌, ◌≤◌, ◌<◌, ◌≡◌, refl, sym, ap, ◌∙◌, ◌≢◌, inl, inr, true, false, ◌&&◌,
  some, arith, ltb, leb, ◌==◌, if◌then◌else◌, ==_iff, ==_refl, ==_ne, Bool-cases,
}
use os_td_minf.FileHeader.{FileHeader, sector_size}
use os_td_minf.Disk.Defs.{HostFile, Buffer, Disk, magic_size}
use os_td_minf.Disk.Sectors.{sector_byte, write_sector_lem}
use os_td_minf.OpenFile.Defs.{write_sectors}
use os_td_minf.OpenFile.Sectors.{Located}

-- What the loop of WriteAt leaves in the sectors: those of the blocks from i on, k of them, have the
-- buffer's bytes, and every other sector is as it was.
pub record Stores {F : Type 0} (host : HostFile F) (h : FileHeader) (sector : ℕ → ℕ) (k i first : ℕ)
    (buf : Buffer) (d d' : Disk F) : Type 0 where
  pub idle : d'.active ≡ false
  pub blocks :
      (b c : ℕ)
      → b * sector_size < h.num_bytes
      → c < sector_size
      → sector_byte host d' (sector b) c ≡ (
          if leb i b && ltb b (i + k)
          then buf.bytes ((b - first) * sector_size + c)
          else sector_byte host d (sector b) c)
  pub others :
      (s c : ℕ)
      → ((b : ℕ) → b * sector_size < h.num_bytes → sector b ≢ s)
      → c < sector_size
      → sector_byte host d' s c ≡ sector_byte host d s c

module _ {F : Type 0} (host : HostFile F) where
  -- One sector written.
  written_byte :
      (d d' : Disk F) (s t c : ℕ) (content : ℕ → ℕ)
      → d'.fileno ≡ host.write_at d.fileno (sector_size * s + magic_size) content sector_size
      → c < sector_size
      → sector_byte host d' t c ≡ (if s == t then content c else sector_byte host d t c)
  written_byte d d' s t c content is lt =
      let at = sector_size * t + magic_size + c in
      let start = sector_size * s + magic_size in
      let law = host.byte_at-write_at d.fileno start content sector_size at in
      let now : sector_byte host d' t c ≡ (
          if leb start at && ltb at (start + sector_size)
          then content (at - start)
          else host.byte_at d.fileno at) =
        ap (λ f. host.byte_at f at) is ∙ law in
      elim (Bool-cases (s == t)) [
        | inl same ↦
            let e : content (at - start) ≡ content c = ap content (ground (arith, same)) in
            simp same (ground (arith, now, e, same))
        | inr other ↦ simp other (ground (arith, now, other))
      ]

module _ {F : Type 0} (host : HostFile F) (clock : Disk F → ℕ) (unset : ℕ → ℕ) {h : FileHeader}
    {sector : ℕ → ℕ} (located : Located h sector) where
  pub write_sectors-Stores :
      (k i first : ℕ) (buf : Buffer) (d : Disk F)
      → d.active ≡ false
      → first ≤ i
      → (i - first + k) * sector_size ≤ buf.size
      → ((b : ℕ) → b < i + k → b * sector_size < h.num_bytes)
      → (d' : Disk F) × (write_sectors host clock unset k i first h buf d ≡ some d')
        × Stores host h sector k i first buf d d'
  unfolding write_sectors
  write_sectors-Stores zero i first buf d idle low fits inside = (
    d,
    refl,
    record { idle = idle; blocks = λ b c lt small. ground arith; others = λ s c other small. refl },
  )
  write_sectors-Stores (suc k) i first buf d idle low fits inside =
      let here = inside i (omega arith) in
      let offset = (i - first) * sector_size in
      let (d₁, done₁, idle₁, is) =
        write_sector_lem host clock (sector i) buf offset d idle (located.on_disk i here)
          (omega arith) in
      let (d', done, stores) =
        write_sectors-Stores k (i + 1) first buf d₁ idle₁ (omega arith) (omega arith)
          (λ b lt. inside b (omega arith)) in
      let wrote = λ (t c : ℕ). λ (lt : c < sector_size).
        written_byte host d d₁ (sector i) t c (λ m. buf.bytes (offset + m)) is lt in
      (
        d',
        rw (located.found i here, done₁) done,
        record {
          idle = stores.idle;
          blocks = λ b c lt small. elim (Bool-cases (i == b)) [
            | inl same ↦
                let e : i ≡ b = (==_iff i b).0 same in
                let own : (sector i == sector b) ≡ true =
                  ap (λ m. sector i == sector m) (sym e) ∙ ==_refl (sector i) in
                let place : buf.bytes (offset + c) ≡ buf.bytes ((b - first) * sector_size + c) =
                  ap buf.bytes (omega (arith, e)) in
                ground (arith, stores.blocks b c lt small, wrote (sector b) c small, own, place, e)
            | inr other ↦
                let apart : (sector i == sector b) ≡ false =
                  ==_ne (sector i) (sector b)
                    (λ e. ground (arith, other, located.apart i b here lt e)) in
                ground (arith, stores.blocks b c lt small, wrote (sector b) c small, apart, other)
          ];
          others = λ s c other small.
              let apart : (sector i == s) ≡ false = ==_ne (sector i) s (other i here) in
              ground (arith, stores.others s c other small, wrote s c small, apart);
        },
      )
