-- ===== src/Sat/Inverse.antt =====
-- The numbering of packages/core/src/satnumber.ts read both ways: a height's first sat, and the
-- height that mined a sat.
use ordspv.Common.{
  ℕ, zero, suc, ◌+◌, ◌-◌, ◌*◌, ◌/◌, ◌%◌, ◌≤◌, ◌<◌, ◌≡◌, refl, ◌∙◌, ap, min, inl, inr, ok, arith,
  ltb, Bool-cases, ltb→lt, ltb→ge,
}
use ordspv.Sat.Numbers.{
  SatPlace, epoch_blocks, final_epoch, epoch_subsidy, subsidy_sats, first_sat_loop,
  first_sat_of_block, total_sats, sat_to_height_loop, sat_to_height,
}

-- A loop that has not reached the height's epoch adds the whole epoch.
first_loop_skip :
    (k e h start : ℕ)
    → (e + 1) * epoch_blocks ≤ h
    → first_sat_loop (suc k) e h start
      ≡ first_sat_loop k (e + 1) h (start + epoch_blocks * epoch_subsidy e)
unfolding first_sat_loop
first_loop_skip k e h start r = ground arith

-- In the height's epoch the loop adds the blocks before the height.
first_loop_stop :
    (k e b start : ℕ)
    → b ≤ epoch_blocks
    → first_sat_loop (suc k) e (e * epoch_blocks + b) start ≡ start + b * epoch_subsidy e
unfolding first_sat_loop
first_loop_stop zero e b start r = ground arith
first_loop_stop (suc k) e b start r = ground arith

first_loop-le : (k e h start : ℕ) → start ≤ first_sat_loop k e h start
unfolding first_sat_loop
first_loop-le zero e h start = omega arith
first_loop-le (suc k) e h start = ground (
  arith,
  first_loop-le k (e + 1) h (start + min (h - e * epoch_blocks) epoch_blocks * epoch_subsidy e),
)

quotient_of : (a s o : ℕ) → o < s → ((a * s + o) / s ≡ a) × ((a * s + o) % s ≡ o)
quotient_of a s o h = (grind arith, grind arith)

quotient_parts :
    (n s m : ℕ) → n < m * s → (n / s * s + n % s ≡ n) × (n % s < s) × (n / s < m) × (0 < s)
quotient_parts n s m h = (grind arith, grind arith, grind arith, grind arith)

epoch_of : (e b : ℕ) → b < epoch_blocks → (e * epoch_blocks + b) / epoch_blocks ≡ e
epoch_of e b h = omega arith

place-lt : (b m s o : ℕ) → b < m → o < s → b * s + o < m * s
place-lt b m s o p q = grind arith

-- A place that the second loop finds is a place that the first loop numbers so.
sat_loop_sound :
    (k e cum sat : ℕ) (p : SatPlace)
    → cum ≤ sat
    → sat_to_height_loop k e cum sat ≡ ok p
    → (e * epoch_blocks ≤ p.height)
      × (p.height < (e + k) * epoch_blocks)
      × (first_sat_loop k e p.height cum + p.offset ≡ sat)
      × (p.offset < epoch_subsidy (p.height / epoch_blocks))
unfolding sat_to_height_loop
sat_loop_sound zero e cum sat p le eq = cc
sat_loop_sound (suc k) e cum sat p le eq =
    elim (Bool-cases (ltb sat (cum + epoch_blocks * epoch_subsidy e))) [
      | inl here ↦
          let into = sat - cum in
          let b = into / epoch_subsidy e in
          let parts =
            quotient_parts into (epoch_subsidy e) epoch_blocks (omega (arith, ltb→lt _ _ here)) in
          ground (arith, parts, epoch_of e b, first_loop_stop k e b cum)
      | inr later ↦
          let next = cum + epoch_blocks * epoch_subsidy e in
          let (at, below, same, fits) =
            sat_loop_sound k (e + 1) next sat p (ltb→ge _ _ later) (rw later at eq) in
          (omega arith, omega arith, rw (first_loop_skip k e p.height cum (omega arith)) same, fits)
    ]

-- Every sat below what the remaining epochs mint has a place.
sat_loop_total :
    (k e cum sat : ℕ)
    → cum ≤ sat
    → sat < first_sat_loop k e ((e + k) * epoch_blocks) cum
    → (p : SatPlace) × (sat_to_height_loop k e cum sat ≡ ok p)
unfolding sat_to_height_loop
sat_loop_total zero e cum sat le lt = unfold first_sat_loop in absurd (omega arith)
sat_loop_total (suc k) e cum sat le lt =
    elim (Bool-cases (ltb sat (cum + epoch_blocks * epoch_subsidy e))) [
      | inl here ↦
          let into = sat - cum in
          let b = into / epoch_subsidy e in
          (record { height = e * epoch_blocks + b; offset = into % epoch_subsidy e }, rw here refl)
      | inr later ↦
          let next = cum + epoch_blocks * epoch_subsidy e in
          let last : (e + suc k) * epoch_blocks ≡ (e + 1 + k) * epoch_blocks = omega arith in
          let skip = first_loop_skip k e ((e + suc k) * epoch_blocks) cum (omega arith) in
          let (p, found) =
            sat_loop_total k (e + 1) next sat (ltb→ge _ _ later) (rw (skip, last) at lt) in
          (p, rw later found)
    ]

-- The second loop finds the place that the first loop numbers.
sat_loop_complete :
    (k e h o cum : ℕ)
    → e * epoch_blocks ≤ h
    → h < (e + k) * epoch_blocks
    → o < epoch_subsidy (h / epoch_blocks)
    → sat_to_height_loop k e cum (first_sat_loop k e h cum + o)
      ≡ ok (record { height = h; offset = o })
unfolding sat_to_height_loop
sat_loop_complete zero e h o cum lo hi fits = absurd (omega arith)
sat_loop_complete (suc k) e h o cum lo hi fits =
    elim (Bool-cases (ltb h ((e + 1) * epoch_blocks))) [
      | inl here ↦
          let b = h - e * epoch_blocks in
          let same : h ≡ e * epoch_blocks + b = omega arith in
          let within : b < epoch_blocks = omega (arith, ltb→lt _ _ here) in
          let fits' : o < epoch_subsidy e = rw (epoch_of e b within) at (rw same at fits) in
          rw same (
            rw (first_loop_stop k e b cum (omega arith)) (
              ground (
                arith,
                quotient_of b (epoch_subsidy e) o fits',
                place-lt b epoch_blocks (epoch_subsidy e) o within fits',
              )))
      | inr later ↦
          let next = cum + epoch_blocks * epoch_subsidy e in
          let far = ltb→ge _ _ later in
          rw (first_loop_skip k e h cum far) (
            ground (
              arith,
              first_loop-le k (e + 1) h next,
              sat_loop_complete k (e + 1) h o next far (omega arith) fits,
            ))
    ]

-- The remaining epochs mint more than the numbers before a place in them.
first_loop-lt :
    (k e h o cum : ℕ)
    → e * epoch_blocks ≤ h
    → h < (e + k) * epoch_blocks
    → o < epoch_subsidy (h / epoch_blocks)
    → first_sat_loop k e h cum + o < first_sat_loop k e ((e + k) * epoch_blocks) cum
first_loop-lt zero e h o cum lo hi fits = absurd (omega arith)
first_loop-lt (suc k) e h o cum lo hi fits =
    let next = cum + epoch_blocks * epoch_subsidy e in
    let last : (e + suc k) * epoch_blocks ≡ (e + 1 + k) * epoch_blocks = omega arith in
    rw (first_loop_skip k e ((e + suc k) * epoch_blocks) cum (omega arith))
      (elim (Bool-cases (ltb h ((e + 1) * epoch_blocks))) [
        | inl here ↦
            let b = h - e * epoch_blocks in
            let same : h ≡ e * epoch_blocks + b = omega arith in
            let within : b < epoch_blocks = omega (arith, ltb→lt _ _ here) in
            let fits' : o < epoch_subsidy e = rw (epoch_of e b within) at (rw same at fits) in
            let start : first_sat_loop (suc k) e h cum ≡ cum + b * epoch_subsidy e =
              ap (λ (x : ℕ). first_sat_loop (suc k) e x cum) same
              ∙ first_loop_stop k e b cum (omega arith) in
            omega (
              arith,
              start,
              place-lt b epoch_blocks (epoch_subsidy e) o within fits',
              first_loop-le k (e + 1) ((e + suc k) * epoch_blocks) next,
            )
        | inr later ↦
            let far = ltb→ge _ _ later in
            rw (first_loop_skip k e h cum far, last)
              (first_loop-lt k (e + 1) h o next far (omega arith) fits)
      ])

subsidy_fits :
    (h o : ℕ)
    → o < subsidy_sats h
    → (h < final_epoch * epoch_blocks) × (o < epoch_subsidy (h / epoch_blocks))
unfolding subsidy_sats
subsidy_fits h o fits = ground arith

-- A sat in range has a height and an offset in that block's subsidy, and they number it again.
pub sat_to_height-first_sat :
    (sat : ℕ)
    → sat < total_sats
    → (p : SatPlace) × (sat_to_height sat ≡ ok p)
      × (first_sat_of_block p.height + p.offset ≡ sat)
      × (p.offset < subsidy_sats p.height)
unfolding sat_to_height subsidy_sats first_sat_of_block
sat_to_height-first_sat sat lt =
    let (p, found) = sat_loop_total final_epoch 0 0 sat (omega arith) (unfold total_sats in lt) in
    let (_, below, same, fits) = sat_loop_sound final_epoch 0 0 sat p (omega arith) found in
    (p, ground (arith, found), same, ground arith)

-- A height and an offset in its subsidy name one sat, and `sat_to_height` gives them back.
pub first_sat-sat_to_height :
    (h o : ℕ)
    → o < subsidy_sats h
    → sat_to_height (first_sat_of_block h + o) ≡ ok (record { height = h; offset = o })
unfolding sat_to_height first_sat_of_block total_sats
first_sat-sat_to_height h o fits =
    let (lt, fits') = subsidy_fits h o fits in
    ground (
      arith,
      first_loop-lt final_epoch 0 h o 0 (omega arith) lt fits',
      sat_loop_complete final_epoch 0 h o 0 (omega arith) lt fits',
    )
