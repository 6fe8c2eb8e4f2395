-- ===== src/Utils/Version.antt =====
-- include/storage/lib/utils/Version.hpp: a version is a pair of bytes, compared major first.
use yet_another_storage.Prelude.{ℕ, ◌≡◌, Bool, true, ◌&&◌, ◌||◌, not, ◌↔◌, ◌⊎◌, arith, ltb, ◌==◌}

pub record Version : Type 0 where
  pub major : ℕ
  pub minor : ℕ

-- `operator<`
unfoldable pub version_lt : Version → Version → Bool
version_lt lhs rhs = ltb lhs.major rhs.major || (lhs.major == rhs.major && ltb lhs.minor rhs.minor)

-- `operator>`
unfoldable pub version_gt : Version → Version → Bool
unfolding version_lt
version_gt lhs rhs = version_lt rhs lhs

-- `operator==`
unfoldable pub version_eq : Version → Version → Bool
unfolding version_lt
version_eq lhs rhs = not (version_lt lhs rhs) && not (version_lt rhs lhs)

-- The equality that is defined from the order alone is equality of versions.
pub version_eq_iff : (a b : Version) → (version_eq a b ≡ true) ↔ (a ≡ b)
unfolding version_eq
version_eq_iff a b = ground arith

-- The order is total: one version is below the other, above it, or it is the same.
pub version_trichotomy :
    (a b : Version) → (version_lt a b ≡ true) ⊎ (version_gt a b ≡ true) ⊎ (a ≡ b)
unfolding version_gt
version_trichotomy a b = ground arith

pub version_lt_trans :
    (a b c : Version) → version_lt a b ≡ true → version_lt b c ≡ true → version_lt a c ≡ true
unfolding version_lt
version_lt_trans a b c p q = ground arith
