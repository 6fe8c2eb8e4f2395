-- ===== src/Freelist/Bins.antt =====
-- The bins as an array: their limits never change, and the header that is written to the device
-- holds their offsets.
use yet_another_storage.Prelude.{
  ℕ, zero, suc, ◌<◌, ◌≤◌, ◌-◌, ◌≡◌, refl, ap, ◌∙◌, subst, if◌then◌else◌, Bool, none, some, List, [],
  ◌∷◌, arith, map, length, length-map, ltb,
}
use yet_another_storage.Freelist.{
  Bins, freelist_limits, bins_of, set_bins, get_bins, offset_at, set_offset_at, Scan, scan, found,
  ended, take_bin, pop_free_entry_offset, lower_bound, push_free_entry, default_cluster_size,
  bin_count,
}

abbrev pub limits : Bins → List ℕ
limits = map (λ b. b.limit)

-- The bins have the limits of the source.
pub record HasLimits (bins : Bins) : Type 0 where
  pub same : limits bins ≡ freelist_limits

get_bins-bins_of : (os ls : List ℕ) → length os ≡ length ls → get_bins (bins_of os ls) ≡ os
unfolding get_bins bins_of
get_bins-bins_of [] ls h = refl
get_bins-bins_of (o ∷ os) [] h = absurd (omega arith)
get_bins-bins_of (o ∷ os) (l ∷ ls) h = ap (◌∷◌ o) (get_bins-bins_of os ls (omega arith))

-- The bins that are set from a header of eleven offsets are written back as that header.
pub get_bins-set_bins :
    (header : List ℕ) → length header ≡ bin_count → get_bins (set_bins header) ≡ header
unfolding set_bins
get_bins-set_bins header h = get_bins-bins_of header freelist_limits h

bins_of-get_bins : (bins : Bins) → bins_of (get_bins bins) (limits bins) ≡ bins
unfolding get_bins bins_of
bins_of-get_bins [] = refl
bins_of-get_bins (b ∷ bs) = ap (◌∷◌ b) (bins_of-get_bins bs)

-- Bins that have the limits of the source are what is set from their own header: nothing of them
-- is lost on the device.
pub set_bins-get_bins : (bins : Bins) → HasLimits bins → set_bins (get_bins bins) ≡ bins
unfolding set_bins
set_bins-get_bins bins h =
    subst (λ l. bins_of (get_bins bins) l ≡ bins) h.same (bins_of-get_bins bins)

limits-bins_of : (os ls : List ℕ) → length os ≡ length ls → limits (bins_of os ls) ≡ ls
unfolding bins_of
limits-bins_of [] [] h = refl
limits-bins_of [] (l ∷ ls) h = absurd (omega arith)
limits-bins_of (o ∷ os) [] h = absurd (omega arith)
limits-bins_of (o ∷ os) (l ∷ ls) h = ap (◌∷◌ l) (limits-bins_of os ls (omega arith))

pub set_bins-HasLimits : (header : List ℕ) → length header ≡ bin_count → HasLimits (set_bins header)
unfolding set_bins
set_bins-HasLimits header h = record { same = limits-bins_of header freelist_limits h }

pub limits-set_offset_at : (i o : ℕ) (bins : Bins) → limits (set_offset_at i o bins) ≡ limits bins
unfolding set_offset_at
limits-set_offset_at i o [] = refl
limits-set_offset_at zero o (b ∷ bs) = refl
limits-set_offset_at (suc i) o (b ∷ bs) = ap (◌∷◌ b.limit) (limits-set_offset_at i o bs)

pub push_free_entry-HasLimits :
    (o s : ℕ) (bins : Bins) → HasLimits bins → HasLimits (push_free_entry o s bins).1
unfolding push_free_entry
push_free_entry-HasLimits o s bins h = record { same = limits-set_offset_at _ o bins ∙ h.same }

pub take_bin-HasLimits :
    (b : Bool) (r : Scan) (bins : Bins) → HasLimits bins → HasLimits (take_bin b r bins).1
unfolding take_bin
take_bin-HasLimits b (found i) bins h = record { same = limits-set_offset_at i 0 bins ∙ h.same }
take_bin-HasLimits b (ended none) bins h = h
take_bin-HasLimits b (ended (some i)) bins h = record {
  same = ground (arith, limits-set_offset_at i 0 bins, h.same);
}

-- Neither `PushFreeEntry` nor `PopFreeEntryOffset` changes a limit.
pub pop_free_entry_offset-HasLimits :
    (s : ℕ) (bins : Bins) → HasLimits bins → HasLimits (pop_free_entry_offset s bins).1
unfolding pop_free_entry_offset
pop_free_entry_offset-HasLimits s bins h =
    let less = ltb s default_cluster_size in
    take_bin-HasLimits less (scan s less 0 none bins) bins h

pub lower_bound-set_offset_at :
    (s i o : ℕ) (bins : Bins) → lower_bound s (set_offset_at i o bins) ≡ lower_bound s bins
unfolding lower_bound set_offset_at
lower_bound-set_offset_at s i o [] = refl
lower_bound-set_offset_at s zero o (b ∷ bs) = refl
lower_bound-set_offset_at s (suc i) o (b ∷ bs) = ground (arith, lower_bound-set_offset_at s i o bs)

pub offset_at-set_offset_at :
    (i o : ℕ) (bins : Bins) → i < length bins → offset_at i (set_offset_at i o bins) ≡ o
unfolding offset_at set_offset_at
offset_at-set_offset_at i o [] h = absurd (omega arith)
offset_at-set_offset_at zero o (b ∷ bs) h = refl
offset_at-set_offset_at (suc i) o (b ∷ bs) h = offset_at-set_offset_at i o bs (omega arith)

pub set_offset_at-set_offset_at :
    (i o p : ℕ) (bins : Bins) → set_offset_at i o (set_offset_at i p bins) ≡ set_offset_at i o bins
unfolding set_offset_at
set_offset_at-set_offset_at i o p [] = refl
set_offset_at-set_offset_at zero o p (b ∷ bs) = refl
set_offset_at-set_offset_at (suc i) o p (b ∷ bs) = ap (◌∷◌ b) (set_offset_at-set_offset_at i o p bs)

pub length-HasLimits : (bins : Bins) → HasLimits bins → length bins ≡ bin_count
length-HasLimits bins h =
    omega (arith, length-map {0, 0} bins (λ b. b.limit), ap (length {A = ℕ}) h.same)

pub length-set_offset_at : (i o : ℕ) (bins : Bins) → length (set_offset_at i o bins) ≡ length bins
unfolding set_offset_at
length-set_offset_at i o [] = refl
length-set_offset_at zero o (b ∷ bs) = refl
length-set_offset_at (suc i) o (b ∷ bs) = ap suc (length-set_offset_at i o bs)

-- The bin of a size among the limits alone.
abbrev limit_bound : ℕ → List ℕ → ℕ
limit_bound s [] = 0
limit_bound s (l ∷ ls) = if ltb l s then suc (limit_bound s ls) else 0

lower_bound-eq-limit_bound :
    (s : ℕ) (bins : Bins) → lower_bound s bins ≡ limit_bound s (limits bins)
unfolding lower_bound
lower_bound-eq-limit_bound s [] = refl
lower_bound-eq-limit_bound s (b ∷ bs) = ground (arith, lower_bound-eq-limit_bound s bs)

limit_bound-lt : (s : ℕ) → s ≤ default_cluster_size → limit_bound s freelist_limits < bin_count
limit_bound-lt s h = ground arith

-- A size up to the cluster size has a bin of its own.
pub lower_bound-lt :
    (s : ℕ) (bins : Bins)
    → HasLimits bins
    → s ≤ default_cluster_size
    → lower_bound s bins < bin_count
lower_bound-lt s bins h k = rw (lower_bound-eq-limit_bound s bins, h.same) (limit_bound-lt s k)

-- A greater size is beyond the last bin, and the cluster size is the last bin's.
limit_bound-gt : (s : ℕ) → default_cluster_size < s → limit_bound s freelist_limits ≡ bin_count
limit_bound-gt s h = ground arith

pub lower_bound-gt :
    (s : ℕ) (bins : Bins)
    → HasLimits bins
    → default_cluster_size < s
    → lower_bound s bins ≡ bin_count
lower_bound-gt s bins h k = rw (lower_bound-eq-limit_bound s bins, h.same) (limit_bound-gt s k)

pub lower_bound-cluster :
    (bins : Bins) → HasLimits bins → lower_bound default_cluster_size bins ≡ bin_count - 1
lower_bound-cluster bins h = rw (lower_bound-eq-limit_bound default_cluster_size bins, h.same) refl
