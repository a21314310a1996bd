-- ===== src/Version/Order.antt =====
-- The comparisons of fluid/version.go form one total order on pairs of a scalar and a process id.
use fluidfs.Prelude.{◌≡◌, ◌↔◌, true, false, ◌&&◌, ◌||◌, arith}
use fluidfs.Version.{Version, less, less_equal, equal, not_equal, greater, greater_equal}

-- Of two versions exactly one is less, equal or greater, and the six comparisons agree with that:
-- equality is that of the scalars and of the process ids.
pub compare_total :
    (v o : Version)
    → ((less v o || equal v o || greater v o) ≡ true)
      × (((less v o && greater v o) || (equal v o && (less v o || greater v o))) ≡ false)
      × (less_equal v o ≡ (less v o || equal v o))
      × (greater_equal v o ≡ (greater v o || equal v o))
      × (not_equal v o ≡ (less v o || greater v o))
      × (greater v o ≡ less o v)
      × ((equal v o ≡ true) ↔ ((v.scalar ≡ o.scalar) × (v.pid ≡ o.pid)))
unfolding less less_equal equal not_equal greater greater_equal
compare_total v o = (
  ground arith,
  ground arith,
  ground arith,
  ground arith,
  ground arith,
  ground arith,
  (λ h. (ground arith, ground arith), λ h. ground arith),
)

-- If one version is less than a second, which is less than a third, then the first is less than the
-- third, and the third is not less than the first.
pub less_trans :
    (u v w : Version) → less u v ≡ true → less v w ≡ true → (less u w ≡ true) × (less w u ≡ false)
unfolding less
less_trans u v w p q = (ground arith, ground arith)
