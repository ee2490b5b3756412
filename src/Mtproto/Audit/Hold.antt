-- ===== src/Mtproto/Audit/Hold.antt =====
-- `hold` of internal/mtproto/audit.go: pings at an interval, for as long as the deadline has not
-- passed. The session with its clock is a state of type `W`; times are nanoseconds. The rounding of
-- the results into floating point is left out: `first` and `last` are what the drift is made of.
use mtproto_checker.Common.{
  Bool, Bool-cases, Option, Result, arith, err, false, if◌then◌else◌, inl, inr, ltb, none, ok, refl,
  some, suc, true, zero, ℕ, ◌*◌, ◌+◌, ◌-◌, ◌<◌, ◌==◌, ◌^◌, ◌≡◌, ◌≤◌, ◌⊎◌,
}

pub record Held : Type 0 where
  pub pings : ℕ
  pub lost : ℕ
  pub survived : Bool
  pub first : ℕ
  pub last : ℕ

-- Reading the clock, sleeping, and one ping with its round trip.
pub record Line (W E : Type 0) : Type 0 where
  pub now : W → ℕ × W
  pub sleep : ℕ → W → W
  pub ping : W → Result E ℕ × W

abbrev pub default_interval : ℕ
default_interval = 5 * 10 ^ 9

-- What the loop makes of a ping: the first loss ends it.
unfoldable pub after_ping : {E : Type 0} → Held → Result E ℕ → Held × Bool
after_ping h (err e) = (record h { pings = suc h.pings; lost = suc h.lost; survived = false }, true)
after_ping h (ok rtt) = (
  record h { pings = suc h.pings; first = if h.first == 0 then rtt else h.first; last = rtt },
  false,
)

module _ {W E : Type 0} (line : Line W E) where
  -- The body of the loop behind its test: what the ping gave, and the state behind it.
  unfoldable pub hold_round : ℕ → ℕ → W → Result E ℕ × W
  hold_round deadline interval w =
      let (read, w1) = line.now w in
      let remaining = deadline - read in
      line.ping (line.sleep (if ltb remaining interval then remaining else interval) w1)

  -- `none` is no Go value: the fuel has run out.
  unfoldable pub hold_loop : ℕ → ℕ → ℕ → Held → W → Option (Held × W)
  hold_loop zero deadline interval h w = none
  hold_loop (suc fuel) deadline interval h w =
      let (read, w1) = line.now w in
      let (answer, w2) = hold_round deadline interval w1 in
      let (h1, over) = after_ping h answer in
      let again = hold_loop fuel deadline interval h1 w2 in
      if ltb read deadline then (if over then some (h1, w2) else again) else some (h, w1)

  unfoldable pub hold : ℕ → ℕ → ℕ → W → Option (Held × W)
  hold fuel total interval w =
      let (read, w1) = line.now w in
      hold_loop fuel (read + total) (if interval == 0 then default_interval else interval)
        (record { pings = 0; lost = 0; survived = true; first = 0; last = 0 }) w1

  -- A clock that does not go back, and that a sleep moves on by at least what was asked for.
  pub record IsClock (time : W → ℕ) : Type 0 where
    pub reads : (w : W) → (line.now w).0 ≡ time (line.now w).1
    pub read_on : (w : W) → time w ≤ time (line.now w).1
    pub sleeps : (d : ℕ) (w : W) → time w + d ≤ time (line.sleep d w)
    pub ping_on : (w : W) → time w ≤ time (line.ping w).1

-- At most one ping was lost, the last one; and exactly then the session has not survived.
pub record IsCounted (h : Held) : Type 0 where
  pub lost_few : h.lost ≤ 1
  pub lost_counted : h.lost ≤ h.pings
  pub survived_none_lost : h.survived ≡ (h.lost == 0)

after_ping-IsCounted :
    {E : Type 0} (h : Held) (answer : Result E ℕ)
    → IsCounted h
    → h.lost ≡ 0
    → IsCounted (after_ping h answer).0
      × ((after_ping h answer).1 ≡ false → (after_ping h answer).0.lost ≡ 0)
      × ((after_ping h answer).1 ≡ true → (after_ping h answer).0.survived ≡ false)
unfolding after_ping
after_ping-IsCounted h (err e) c z = ground arith
after_ping-IsCounted h (ok rtt) c z = ground arith

module _ {W E : Type 0} (line : Line W E) (time : W → ℕ) (c : IsClock line time) where
  -- A round takes the clock to the deadline or on.
  round_moves :
      (deadline interval : ℕ) (w : W)
      → 0 < interval
      → time w < deadline
      → time w < time (hold_round line deadline interval w).1
  unfolding hold_round
  round_moves deadline interval w lo more =
      let w1 = (line.now w).1 in
      let d =
        if ltb (deadline - (line.now w).0) interval then deadline - (line.now w).0 else interval in
      let r = c.reads w in
      let o = c.read_on w in
      let s = c.sleeps d w1 in let p = c.ping_on (line.sleep d w1) in ground arith

  hold_loop-ends :
      (fuel deadline interval : ℕ) (h : Held) (w : W)
      → 0 < interval
      → deadline - time w < fuel
      → IsCounted h
      → h.lost ≡ 0
      → (h' : Held) × (w' : W) × (hold_loop line fuel deadline interval h w ≡ some (h', w'))
        × IsCounted h'
        × (h'.survived ≡ true → deadline ≤ time w')
  unfolding hold_loop
  hold_loop-ends zero deadline interval h w lo f k z = absurd (omega arith)
  hold_loop-ends (suc fuel) deadline interval h w lo f k z =
      let read = (line.now w).0 in
      let w1 = (line.now w).1 in
      let next = hold_round line deadline interval w1 in
      let told = after_ping h next.0 in
      let r = c.reads w in
      let o = c.read_on w in
      let (counted, kept, dropped) = after_ping-IsCounted h next.0 k z in
      elim (Bool-cases (ltb read deadline)) [
        | inr done ↦ (h, w1, rw (done, hold_loop) refl, k, λ live. ground arith)
        | inl more ↦
            let early : time w1 < deadline = ground arith in
            let moved = round_moves deadline interval w1 lo early in
            elim (Bool-cases (told.1)) [
              | inl over ↦ (
                told.0,
                next.1,
                rw (hold_loop, more, over) refl,
                counted,
                λ live. let lost = dropped over in cc,
              )
              | inr going ↦
                  let (h', w', ended, k', whole) =
                    hold_loop-ends fuel deadline interval told.0 next.1 lo (omega arith) counted
                      (kept going) in
                  (h', w', rw (hold_loop, more, going) ended, k', whole)
            ]
      ]

  -- With a clock that does not go back, and that a sleep moves on, `hold` comes to its end: as many
  -- rounds as there are nanoseconds, and one more, are enough. At most one ping was lost, the
  -- session is told to have survived exactly if none was, and unless one was, the whole time passed.
  pub hold-ends :
      (total interval : ℕ) (w : W)
      → (h : Held) × (w' : W) × (hold line (suc total) total interval w ≡ some (h, w'))
        × IsCounted h
        × ((h.survived ≡ false) ⊎ (time w + total ≤ time w'))
  unfolding hold
  hold-ends total interval w =
      let read = (line.now w).0 in
      let w1 = (line.now w).1 in
      let r = c.reads w in
      let o = c.read_on w in
      let (h, w', ended, k, whole) =
        hold_loop-ends (suc total) (read + total)
          (if interval == 0 then default_interval else interval)
          (record { pings = 0; lost = 0; survived = true; first = 0; last = 0 }) w1 (ground arith)
          (ground arith) (ground arith) refl in
      (
        h,
        w',
        ended,
        k,
        elim (Bool-cases h.survived) [
          | inl live ↦ inr (omega (arith, whole live))
          | inr dead ↦ inl dead
        ],
      )
