-- ===== src/Dashboard/Figures/Levels.antt =====
-- When a meter warns.
use motionmesh.Base.{
  ℕ, ◌*◌, ◌≤◌, ◌<◌, ◌≡◌, refl, Bool, ◌&&◌, arith, ltb, leb, if◌then◌else◌, Bool-cases, inl, inr,
}
use native.Mathlib.Nat.{mul-le-mul_right}
use motionmesh.Dashboard.Figures.{
  percentage, is_at_least, Level, normal, warning, danger, meter_level,
}

-- A use reaches a share of a limit, in hundredths; there is no limit where it is 0.
abbrev pub reaches : ℕ → ℕ → ℕ → Bool
reaches n used limit = ltb 0 limit && leb (n * limit) (used * 100)

is_at_least-reaches :
    (n used limit : ℕ)
    → 0 < n
    → n ≤ 100
    → is_at_least (percentage used limit) n ≡ reaches n used limit
unfolding percentage
is_at_least-reaches n used limit h k = elim (Bool-cases (ltb 0 limit)) [
  | inr none_set ↦ rw none_set (ground arith)
  | inl set ↦ elim (Bool-cases (leb limit used)) [
    | inl full ↦
        let bound : n * limit ≤ 100 * limit = mul-le-mul_right limit k in
        let reached : n * limit ≤ used * 100 = ground arith in
        let low : n * 1 ≤ 100 = omega arith in rw (set, full) (ground arith)
    | inr part ↦ rw (set, part) refl
  ]
]

-- A meter is in danger from 95 hundredths of its limit on and warns from 80 on, both exactly, and
-- the cut at 100 changes neither; without a limit it does neither.
pub meter_level-reaches :
    (used limit : ℕ)
    → meter_level used limit ≡ (
        if reaches 95 used limit then danger else if reaches 80 used limit then warning else normal)
unfolding meter_level
meter_level-reaches used limit =
    let d = is_at_least-reaches 95 used limit (omega arith) (omega arith) in
    let w = is_at_least-reaches 80 used limit (omega arith) (omega arith) in
    elim (Bool-cases (reaches 95 used limit)) [
      | inl k ↦ rw (d, k) refl
      | inr k ↦ elim (Bool-cases (reaches 80 used limit)) [
        | inl l ↦ rw (d, k, w, l) refl
        | inr l ↦ rw (d, k, w, l) refl
      ]
    ]

abbrev pub rank : Level → ℕ
rank normal = 0
rank warning = 1
rank danger = 2

-- More use of the same limit never calms a meter.
pub meter_level_mono :
    (used more limit : ℕ)
    → used ≤ more
    → rank (meter_level used limit) ≤ rank (meter_level more limit)
meter_level_mono used more limit h =
    rw (meter_level-reaches used limit, meter_level-reaches more limit) (ground arith)
