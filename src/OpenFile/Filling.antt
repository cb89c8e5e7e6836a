-- ===== src/OpenFile/Filling.antt =====
-- WriteAt reads the sectors that it changes in part only.
use mathlib.Core.Path.{fun_ext}
use os_td_minf.Prelude.{
  ℕ, ◌+◌, ◌-◌, ◌*◌, ◌/◌, ◌≤◌, ◌<◌, min, ◌≡◌, refl, ap, subst, ◌∙◌, inl, inr, Bool, true, false, not,
  ◌&&◌, ◌||◌, Option, some, arith, ltb, leb, ◌==◌, if◌then◌else◌, Bool-cases, ◌>>=◌, length,
}
use os_td_minf.FileHeader.{FileHeader, sector_size}
use os_td_minf.Disk.Defs.{HostFile, Buffer, Disk}
use os_td_minf.Disk.Sectors.{Rests}
use os_td_minf.OpenFile.Defs.{when, fill_ends, refill}
use os_td_minf.OpenFile.Sectors.{Located, file_byte, Rests-file_byte}
use os_td_minf.OpenFile.Reading.{read_at-Fetched}

-- The buffer from `first` on has the file's bytes, but for the n bytes that come from `skip` on.
pub record Filled {F : Type 0} (host : HostFile F) (h : FileHeader) (sector : ℕ → ℕ)
    (n position : ℕ) (buf : Buffer) (d : Disk F) (buf' : Buffer) (d' : Disk F) : Type 0 where
  pub rests : Rests d d'
  pub same_size : buf'.size ≡ buf.size
  pub ends :
      (j : ℕ)
      → position / sector_size * sector_size + j < h.num_bytes
      → position / sector_size * sector_size + j
        < ((position + n - 1) / sector_size + 1) * sector_size
      → (leb position (position / sector_size * sector_size + j)
          && ltb (position / sector_size * sector_size + j) (position + n))
        ≡ false
      → buf'.bytes j ≡ file_byte host sector d (position / sector_size * sector_size + j)

-- The two reads cover what they shall.
ends_cover :
    (content : ℕ → ℕ) (buf₁ buf₂ : ℕ → ℕ) (unset first last position n length j : ℕ)
    → first ≡ position / sector_size
    → last ≡ (position + n - 1) / sector_size
    → 0 < n
    → buf₁ j ≡ (
        if not (position == first * sector_size)
          && (leb 0 j && ltb j (0 + min sector_size (length - first * sector_size)))
        then content (first * sector_size + (j - 0))
        else unset)
    → buf₂ j ≡ (
        if (not (position + n == (last + 1) * sector_size)
            && (not (first == last) || position == first * sector_size))
          && (leb ((last - first) * sector_size) j
              && ltb j
                  ((last - first) * sector_size + min sector_size (length - last * sector_size)))
        then content (last * sector_size + (j - (last - first) * sector_size))
        else buf₁ j)
    → first * sector_size + j < length
    → first * sector_size + j < (last + 1) * sector_size
    → (leb position (first * sector_size + j) && ltb (first * sector_size + j) (position + n))
      ≡ false
    → buf₂ j ≡ content (first * sector_size + j)
ends_cover content buf₁ buf₂ unset first last position n length j f l many b₁ b₂ inside low out =
    let e₁ : content (first * sector_size + (j - 0)) ≡ content (first * sector_size + j) =
      ap content (omega arith) in
    elim (Bool-cases (leb ((last - first) * sector_size) j)) [
      | inl late ↦
          let e₂ : content (last * sector_size + (j - (last - first) * sector_size))
              ≡ content (first * sector_size + j) =
            ap content (ground (arith, late, f, l)) in
          ground (arith, b₁, b₂, e₁, e₂, late, out, f, l)
      | inr early ↦ ground (arith, b₁, b₂, e₁, early, out, f, l)
    ]

pub bind_some :
    {A B : Type 0} {m : Option A} {a : A} (f : A → Option B) {r : Option B}
    → m ≡ some a
    → f a ≡ r
    → (m >>= f) ≡ r
bind_some f p q = ap (λ o. o >>= f) p ∙ q

module _ {F : Type 0} (host : HostFile F) (clock : Disk F → ℕ) (unset : ℕ → ℕ) {h : FileHeader}
    {sector : ℕ → ℕ} (located : Located h sector) where
  refill_lem :
      (wanted : Bool) (offset position : ℕ) (buf : Buffer) (d : Disk F)
      → d.active ≡ false
      → offset + min sector_size (h.num_bytes - position) ≤ buf.size
      → (buf' : Buffer) × (d' : Disk F) × (when wanted
            (buf, d)
            (refill host clock unset h offset position)
          ≡ some (buf', d'))
        × Rests d d'
        × (buf'.size ≡ buf.size)
        × ((j : ℕ)
            → buf'.bytes j ≡ (
                if wanted
                  && (leb offset j && ltb j (offset + min sector_size (h.num_bytes - position)))
                then file_byte host sector d (position + (j - offset))
                else buf.bytes j))
  unfolding refill
  refill_lem false offset position buf d idle fits =
      (buf, d, refl, record { idle = idle; same = refl }, refl, λ j. refl)
  refill_lem true offset position buf d idle fits =
      let (buf', d', done, fetched) =
        read_at-Fetched host clock unset located buf offset sector_size position d idle fits in
      (buf', d', rw done refl, fetched.rests, fetched.same_size, fetched.bytes)

  second_end :
      (n position : ℕ) (buf : Buffer) (d : Disk F) (buf₁ : Buffer) (d₁ : Disk F)
      → 0 < n
      → ((position + n - 1) / sector_size + 1 - position / sector_size) * sector_size ≤ buf.size
      → Rests d d₁
      → buf₁.size ≡ buf.size
      → ((j : ℕ)
          → buf₁.bytes j ≡ (
              if not (position == position / sector_size * sector_size)
                && (leb 0 j
                    && ltb j
                        (0 + min sector_size (h.num_bytes - position / sector_size * sector_size)))
              then file_byte host sector d (position / sector_size * sector_size + (j - 0))
              else buf.bytes j))
      → (buf' : Buffer) × (d' : Disk F) × (when
            (not (position + n == ((position + n - 1) / sector_size + 1) * sector_size)
              && (not (position / sector_size == (position + n - 1) / sector_size)
                  || position == position / sector_size * sector_size))
            (buf₁, d₁)
            (refill host clock unset h
              (((position + n - 1) / sector_size - position / sector_size) * sector_size)
              ((position + n - 1) / sector_size * sector_size))
          ≡ some (buf', d'))
        × Filled host h sector n position buf d buf' d'
  second_end n position buf d buf₁ d₁ many fits rests₁ size₁ bytes₁ =
      let first = position / sector_size in
      let last = (position + n - 1) / sector_size in
      let (buf', d', done, rests, size, bytes) =
        refill_lem
          (not (position + n == (last + 1) * sector_size)
            && (not (first == last) || position == first * sector_size))
          ((last - first) * sector_size) (last * sector_size) buf₁ d₁ rests₁.idle
          (omega (arith, size₁, fits)) in
      (
        buf',
        d',
        done,
        record {
          rests = record { idle = rests.idle; same = rests.same ∙ rests₁.same };
          same_size = size ∙ size₁;
          ends = λ j inside low out.
              ends_cover (file_byte host sector d) buf₁.bytes buf'.bytes (buf.bytes j) first last
                position n h.num_bytes j refl refl many (bytes₁ j)
                (subst
                  (λ (content : ℕ → ℕ). buf'.bytes j ≡ (
                    if (not (position + n == (last + 1) * sector_size)
                        && (not (first == last) || position == first * sector_size))
                      && (leb ((last - first) * sector_size) j
                          && ltb j (
                              (last - first) * sector_size
                              + min sector_size (h.num_bytes - last * sector_size)))
                    then content (last * sector_size + (j - (last - first) * sector_size))
                    else buf₁.bytes j))
                  (fun_ext (λ x. Rests-file_byte host sector d d₁ x rests₁)) (bytes j))
                inside low out;
        },
      )

  pub fill_ends-Filled :
      (n position : ℕ) (buf : Buffer) (d : Disk F)
      → d.active ≡ false
      → 0 < n
      → ((position + n - 1) / sector_size + 1 - position / sector_size) * sector_size ≤ buf.size
      → (buf' : Buffer) × (d' : Disk F) × (fill_ends host clock unset h n position buf d
          ≡ some (buf', d'))
        × Filled host h sector n position buf d buf' d'
  unfolding fill_ends
  fill_ends-Filled n position buf d idle many fits =
      let (buf₁, d₁, done₁, rests₁, size₁, bytes₁) =
        refill_lem (not (position == position / sector_size * sector_size)) 0
          (position / sector_size * sector_size) buf d idle (omega (arith, fits)) in
      let (buf', d', done, filled) =
        second_end n position buf d buf₁ d₁ many fits rests₁ size₁ bytes₁ in
      (buf', d', bind_some _ done₁ done, filled)
