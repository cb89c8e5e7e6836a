-- ===== src/Disk/Latency.antt =====
-- When a request to the disk is done.
use os_td_minf.Prelude.{
  ℕ, not, ◌&&◌, ◌==◌, ==_iff, ◌+◌, ◌-◌, ◌*◌, ◌^◌, ◌/◌, ltb, ◌%◌, ◌≤◌, ◌<◌, ◌≡◌, refl, sym, ap,
  subst, ◌∙◌, ◌≢◌, lt→ltb, inl, inr, Bool, true, false, arith, Bool-cases,
}
use os_td_minf.Disk.Defs.{
  num_sectors, sectors_per_track, rotation_time, time_to_seek, modulo_diff, buffered,
  compute_latency,
}
use native.Mathlib.Decide.{dec_le}
use os_td_minf.Cpu.Word.{wrap, sub32, lt_signed, div_signed}

-- The sector boundary that the head is at, or reaches next.
seek_lem :
    (now last new : ℕ)
    → last < num_sectors
    → new < num_sectors
    → ((time_to_seek now last new).0 ≤ 15500)
      × ((time_to_seek now last new).1 < rotation_time)
      × ((now + (time_to_seek now last new).0 + (time_to_seek now last new).1) % rotation_time ≡ 0)
unfolding time_to_seek
seek_lem now last new l n = (omega arith, ground arith, ground arith)

modulo_diff_lem :
    (to from : ℕ)
    → to < 2 ^ 31
    → from < 2 ^ 31
    → (modulo_diff to from < sectors_per_track)
      × ((from + modulo_diff to from) % sectors_per_track ≡ to % sectors_per_track)
unfolding modulo_diff
modulo_diff_lem to from h k = (ground arith, ground arith)

differ : true ≢ false
differ e = ground (arith, e)

ltb→lt : (a b : ℕ) → ltb a b ≡ true → a < b
ltb→lt a b h = ground arith

and_left : (a b : Bool) → (a && b) ≡ true → a ≡ true
and_left true b h = refl
and_left false b h = h

and_right : (a b : Bool) → (a && b) ≡ true → b ≡ true
and_right true b h = h
and_right false b h = ground (arith, h)

all_true : (a b c : Bool) → a ≡ true → b ≡ true → c ≡ true → (a && b && c) ≡ true
all_true a b c h k l = simp (h, k, l) refl

-- From a sector boundary on, `w` sectors and one more.
ticks_lem :
    (now seek rot w d new : ℕ)
    → seek ≡ d * 500
    → rot < 500
    → (now + seek + rot) % 500 ≡ 0
    → w < 32
    → ((now + seek + rot) / 500 + w) % 32 ≡ new % 32
    → (d * 500 + 500 ≤ seek + (rot + w * 500) + 500)
      × (seek + (rot + w * 500) + 500 < d * 500 + 500 + 32 * 500)
      × ((now + (seek + (rot + w * 500) + 500)) % 500 ≡ 0)
      × (((now + (seek + (rot + w * 500) + 500)) / 500) % 32 ≡ (new + 1) % 32)
ticks_lem now seek rot w d new e h at l there = (omega arith, omega arith, omega arith, omega arith)

-- The comparison on `int`, when neither time is negative.
elapsed_lem :
    (time init d : ℕ)
    → time < 2 ^ 31
    → init < 2 ^ 31
    → d < 32
    → lt_signed d (div_signed (sub32 time init) rotation_time)
      ≡ ltb d ((time - init) / rotation_time)
elapsed_lem time init d h k l = elim (dec_le init time) [
  | yes before ↦ let same : sub32 time init ≡ time - init = omega arith in rw same (ground arith)
  | no after ↦
      let same : sub32 time init ≡ 2 ^ 32 - (init - time) = omega arith in rw same (ground arith)
]

-- Tracks that the head has to pass.
abbrev distance : ℕ → ℕ → ℕ
distance last new =
    (new / sectors_per_track - last / sectors_per_track)
    + (last / sectors_per_track - new / sectors_per_track)

-- The sector boundary at or after the time `now`.
abbrev boundary : ℕ → ℕ
boundary now = (now + 499) / 500 * 500

-- The track buffer has sector `new`: since the time `init`, when the head came to the track, sector
-- `new` has passed the head, `k` sectors after the one that was there then.
abbrev InTrackBuffer : ℕ → ℕ → ℕ → Type 0
InTrackBuffer now init new =
    (k : ℕ) × (k < 32) × ((init / 500 + k) % 32 ≡ new % 32) × (k < (boundary now - init) / 500)

abbrev FromBuffer : ℕ → ℕ → ℕ → ℕ → Bool → Type 0
FromBuffer now last init new writing =
    (writing ≡ false)
    × (new / sectors_per_track ≡ last / sectors_per_track)
    × InTrackBuffer now init new

-- The ticks that a request takes.
pub data Takes (now last init new : ℕ) (writing : Bool) (ticks : ℕ) : Type 0 where
  from_buffer :
      FromBuffer now last init new writing → ticks ≡ 500 → Takes now last init new writing ticks
  from_disk :
      ¬ FromBuffer now last init new writing
      → distance last new * 500 + 500 ≤ ticks
      → ticks < distance last new * 500 + 500 + 32 * 500
      → (now + ticks) % 500 ≡ 0
      → ((now + ticks) / 500) % 32 ≡ (new + 1) % 32
      → Takes now last init new writing ticks

module _ (now last init new : ℕ) (early : now + 32000 < 2 ^ 31) (old : init < 2 ^ 31)
    (l : last < num_sectors) (n : new < num_sectors) where
  -- On the track that the head is on.
  seek_distance : (time_to_seek now last new).0 ≡ distance last new * 500
  unfolding time_to_seek
  seek_distance = refl

  same_track_lem :
      new / sectors_per_track ≡ last / sectors_per_track → (time_to_seek now last new).0 ≡ 0
  unfolding time_to_seek
  same_track_lem e = ground arith

  boundary_lem :
      new / sectors_per_track ≡ last / sectors_per_track
      → now + (time_to_seek now last new).0 + (time_to_seek now last new).1 ≡ boundary now
  unfolding time_to_seek
  boundary_lem e = ground arith

  abbrev seek : ℕ
  seek = (time_to_seek now last new).0

  abbrev after : ℕ
  after = now + seek + (time_to_seek now last new).1

  -- The narrowing to `int` changes nothing.
  after_lem : (wrap after ≡ after) × (after < 2 ^ 31)
  after_lem =
      let (few, less, at) = seek_lem now last new l n in
      (omega (arith, few, less, early), omega (arith, few, less, early))

  start_lem : div_signed init rotation_time ≡ init / 500
  start_lem = ground (arith, old)

  abbrev delay : ℕ
  delay = modulo_diff new (div_signed init rotation_time)

  delay_lem : (delay < 32) × ((init / 500 + delay) % 32 ≡ new % 32)
  delay_lem =
      rw start_lem (modulo_diff_lem new (init / 500) (omega (arith, n)) (omega (arith, old)))

  elapsed :
      lt_signed delay (div_signed (sub32 (wrap after) init) rotation_time)
      ≡ ltb delay ((after - init) / 500)
  elapsed = rw after_lem.0 (elapsed_lem after init delay after_lem.1 old delay_lem.0)

  same_of : seek ≡ 0 → new / sectors_per_track ≡ last / sectors_per_track
  unfolding time_to_seek
  same_of e = ground (arith, e)

  abbrev later : Bool
  later = lt_signed delay (div_signed (sub32 (wrap after) init) rotation_time)

  buffered-FromBuffer :
      (writing : Bool)
      → buffered (wrap after) init new writing seek ≡ true
      → FromBuffer now last init new writing
  unfolding buffered
  buffered-FromBuffer true hit = ground arith
  buffered-FromBuffer false hit =
      let same : new / sectors_per_track ≡ last / sectors_per_track =
        same_of ((==_iff seek 0).0 (and_left (seek == 0) later hit)) in
      (
        refl,
        same,
        (
          delay,
          delay_lem.0,
          delay_lem.1,
          passed (boundary_lem same) (and_right (seek == 0) later hit),
        ),
      )
    where
      passed :
          after ≡ boundary now
          → lt_signed delay (div_signed (sub32 (wrap after) init) rotation_time) ≡ true
          → delay < (boundary now - init) / 500
      passed at late =
          subst (λ time. delay < (time - init) / 500) at
            (ltb→lt delay ((after - init) / 500) (sym elapsed ∙ late))

  FromBuffer-buffered :
      (writing : Bool)
      → FromBuffer now last init new writing
      → buffered (wrap after) init new writing seek ≡ true
  unfolding buffered
  FromBuffer-buffered writing (reads, same, (k, small, at, passed)) =
      let is_delay : k ≡ delay = omega (arith, at, delay_lem.0, delay_lem.1) in
      let late : delay < (after - init) / 500 =
        subst (λ time. delay < (time - init) / 500) (sym (boundary_lem same))
          (subst (λ d. d < (boundary now - init) / 500) is_delay passed) in
      let compared = elapsed ∙ lt→ltb delay ((after - init) / 500) late in
      all_true _ _ _ (ap not reads) (ap (λ z. z == 0) (same_track_lem same)) compared

  from_disk_lem :
      (writing : Bool)
      → ¬ FromBuffer now last init new writing
      → Takes now last init new writing (
          seek
          + ((time_to_seek now last new).1
              + modulo_diff new (div_signed (wrap after) rotation_time) * rotation_time)
          + rotation_time)
  from_disk_lem writing other =
      let (few, less, at) = seek_lem now last new l n in
      let wait = modulo_diff new (div_signed (wrap after) rotation_time) in
      let head : div_signed (wrap after) rotation_time ≡ after / 500 =
        rw after_lem.0 (ground (arith, after_lem.1)) in
      let (small, there) =
        modulo_diff_lem new (after / 500) (omega (arith, n)) (omega (arith, after_lem.1)) in
      let is_wait : wait ≡ modulo_diff new (after / 500) = ap (modulo_diff new) head in
      let (most, least, on_boundary, passed) =
        ticks_lem now seek (time_to_seek now last new).1 wait (distance last new) new seek_distance
          less at (subst (λ w. w < 32) (sym is_wait) small)
          (subst (λ w. (after / 500 + w) % 32 ≡ new % 32) (sym is_wait) there) in
      from_disk other most least on_boundary passed

-- A request of a disk whose times are below 2 ^ 31: a read of the track that the head is on, for a
-- sector that has passed the head since the head came there, takes 500 ticks, from the track
-- buffer; any other takes the seek, and ends on the first sector boundary after it, at least a sector
-- later, when the sector asked for has just passed the head.
pub compute_latency_lem :
    (now last init new : ℕ) (writing : Bool)
    → now + 32000 < 2 ^ 31
    → init < 2 ^ 31
    → last < num_sectors
    → new < num_sectors
    → Takes now last init new writing (compute_latency now last init new writing)
unfolding compute_latency
compute_latency_lem now last init new writing early old l n =
    elim (Bool-cases (
      buffered (wrap (after now last init new early old l n)) init new writing
        (time_to_seek now last new).0)) [
          | inl hit ↦
              simp hit
                (from_buffer (buffered-FromBuffer now last init new early old l n writing hit) refl)
          | inr miss ↦ simp miss (
              from_disk_lem now last init new early old l n writing λ hit. absurd (
                differ
                  (sym (FromBuffer-buffered now last init new early old l n writing hit) ∙ miss)))
        ]
