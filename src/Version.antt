-- ===== src/Version.antt =====
-- fluid/version.go: Lamport scalar versions. `uint` and `uint64` have 64 bits; the methods that
-- change their receivers return the new values of these.
pub mod Order
pub mod Lamport
use fluidfs.Prelude.{ℕ, ◌+◌, ◌%◌, Bool, not, ◌&&◌, [], ◌∷◌, ltb, leb, ◌==◌, if◌then◌else◌}
use fluidfs.Prelude.Int.{u64_mod}
use fluidfs.Utils.{max_uint64}

pub record Version : Type 0 where
  pub pid : ℕ
  pub scalar : ℕ
  pub latest : ℕ

-- The two versions as the call leaves them.
unfoldable pub update : Version → Version → Version × Version
unfolding max_uint64
update v o =
    let latest = max_uint64 (v.latest ∷ o.latest ∷ []) in
    (record v { latest = latest }, record o { latest = latest })

-- The old version as the call leaves it, and the new one.
unfoldable pub next : Version → ℕ → Version × Version
next v pid =
    let pid' = if pid == 0 then v.pid else pid in
    let latest = (v.latest + 1) % u64_mod in
    (record v { latest = latest }, record { pid = pid'; scalar = latest; latest = latest })

unfoldable pub less_equal : Version → Version → Bool
less_equal v o = if v.scalar == o.scalar then leb v.pid o.pid else leb v.scalar o.scalar

unfoldable pub less : Version → Version → Bool
less v o = if v.scalar == o.scalar then ltb v.pid o.pid else ltb v.scalar o.scalar

unfoldable pub equal : Version → Version → Bool
equal v o = v.pid == o.pid && v.scalar == o.scalar

unfoldable pub not_equal : Version → Version → Bool
unfolding equal
not_equal v o = not (equal v o)

unfoldable pub greater : Version → Version → Bool
greater v o = if v.scalar == o.scalar then ltb o.pid v.pid else ltb o.scalar v.scalar

unfoldable pub greater_equal : Version → Version → Bool
greater_equal v o = if v.scalar == o.scalar then leb o.pid v.pid else leb o.scalar v.scalar
