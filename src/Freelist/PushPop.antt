-- ===== src/Freelist/PushPop.antt =====
-- Which entry `PopFreeEntryOffset` hands out.
use yet_another_storage.Prelude.{
  ℕ, zero, suc, ◌+◌, ◌<◌, ◌≤◌, ◌≡◌, ◌≢◌, refl, Bool, false, not, ◌&&◌, Option, none, some, [], ◌∷◌,
  arith, length, ltb, leb, if◌then◌else◌, ◌⊎◌, inl, inr, Bool-cases,
}
use yet_another_storage.Freelist.{
  BinDescriptor, Bins, offset_at, set_offset_at, scan, Scan, found, ended, take_bin,
  pop_free_entry_offset, lower_bound, get_bin_id_for_size, push_free_entry, get_free_entry,
  default_cluster_size, non_exist_offset, is_exist_offset,
}
use yet_another_storage.Freelist.Bins.{
  HasLimits, lower_bound-set_offset_at, offset_at-set_offset_at, set_offset_at-set_offset_at,
  length-HasLimits, length-set_offset_at, lower_bound-lt, lower_bound-gt, lower_bound-cluster,
}

-- The scan stops at the bin of the size, if that bin is not empty.
scan-lower_bound :
    (s : ℕ) (less : Bool) (id : ℕ) (last : Option ℕ) (bins : Bins)
    → lower_bound s bins < length bins
    → offset_at (lower_bound s bins) bins ≢ 0
    → scan s less id last bins ≡ found (id + lower_bound s bins)
unfolding scan lower_bound offset_at
scan-lower_bound s less id last [] h k = absurd (omega arith)
scan-lower_bound s less id last (b ∷ bs) h k = elim (Bool-cases (ltb b.limit s)) [
  | inl e ↦ ground (
    arith,
    scan-lower_bound s less (suc id)
        (if not less && is_exist_offset b.offset then some id else last) bs,
  )
  | inr e ↦ ground arith
]

get_bin_id-lem :
    (s : ℕ) (bins : Bins)
    → HasLimits bins
    → s ≤ default_cluster_size
    → (get_bin_id_for_size s bins ≡ lower_bound s bins) × (lower_bound s bins < length bins)
unfolding get_bin_id_for_size
get_bin_id-lem s bins h k = ground (arith, length-HasLimits bins h, lower_bound-lt s bins h k)

-- With bins that have the limits of the source, an entry at an offset other than zero that is
-- pushed for a size up to the cluster size is the next one that is popped for that size; its bin
-- is empty then, and the other bins are as they were.
pub pop-push :
    (o s : ℕ) (bins : Bins)
    → HasLimits bins
    → o ≢ non_exist_offset
    → s ≤ default_cluster_size
    → pop_free_entry_offset s (push_free_entry o s bins).1
      ≡ (o, set_offset_at (get_bin_id_for_size s bins) non_exist_offset bins)
unfolding pop_free_entry_offset push_free_entry
pop-push o s bins h k l =
    let (e, lt) = get_bin_id-lem s bins h l in
    let i = lower_bound s bins in
    let bins' = set_offset_at i o bins in
    let less = ltb s default_cluster_size in
    rw e (
      ground (
        arith,
        lower_bound-set_offset_at s i o bins,
        length-set_offset_at i o bins,
        offset_at-set_offset_at i o bins lt,
        set_offset_at-set_offset_at i 0 o bins,
        scan-lower_bound s less 0 none bins',
      ))

-- With bins that have the limits of the source, `GetFreeEntry` shows the offset that
-- `PushFreeEntry` for the same size would return, also for a size above the cluster size.
pub get_free_entry-eq-push :
    (o s : ℕ) (bins : Bins) → HasLimits bins → get_free_entry s bins ≡ (push_free_entry o s bins).0
unfolding get_free_entry push_free_entry
get_free_entry-eq-push o s bins h = elim (Bool-cases (ltb default_cluster_size s)) [
  | inl e ↦
      ground (arith, length-HasLimits bins h, lower_bound-gt s bins h, lower_bound-cluster bins h)
  | inr e ↦ rw e
]

unfoldable pub limit_at : ℕ → Bins → ℕ
limit_at i [] = 0
limit_at zero (b ∷ bs) = b.limit
limit_at (suc i) (b ∷ bs) = limit_at i bs

-- No bin that is wide enough holds an entry.
abbrev pub NoFit : ℕ → Bins → Type 0
NoFit s bins = (i : ℕ) → s ≤ limit_at i bins → offset_at i bins ≡ non_exist_offset

-- No bin from `from` on holds an entry.
abbrev pub NoneFrom : ℕ → Bins → Type 0
NoneFrom from bins = (i : ℕ) → from ≤ i → offset_at i bins ≡ non_exist_offset

-- The first of the last five bins, which stand in for a bin that is wide enough.
abbrev pub wide_from : ℕ
wide_from = 6

-- What `PopFreeEntryOffset` for the size `s` hands out: nothing, and then no bin that is wide
-- enough holds an entry, for a size of a cluster or more none of the last five does either, and the
-- bins are as they were; or the entry of the first bin that is wide enough and holds one; or, where
-- there is no such bin and the size is at least that of a cluster, the entry of the last bin that
-- holds one, if it is among the last five. The bin is empty then.
pub data Popped (s : ℕ) (bins : Bins) : ℕ × Bins → Type 0 where
  nothing :
      {r : ℕ × Bins}
      → r ≡ (non_exist_offset, bins)
      → NoFit s bins
      → (default_cluster_size ≤ s → NoneFrom wide_from bins)
      → Popped s bins r
  fitting :
      {r : ℕ × Bins} (i : ℕ)
      → r ≡ (offset_at i bins, set_offset_at i non_exist_offset bins)
      → offset_at i bins ≢ non_exist_offset
      → s ≤ limit_at i bins
      → ((j : ℕ) → j < i → s ≤ limit_at j bins → offset_at j bins ≡ non_exist_offset)
      → Popped s bins r
  widest :
      {r : ℕ × Bins} (i : ℕ)
      → r ≡ (offset_at i bins, set_offset_at i non_exist_offset bins)
      → offset_at i bins ≢ non_exist_offset
      → NoFit s bins
      → default_cluster_size ≤ s
      → wide_from ≤ i
      → NoneFrom (suc i) bins
      → Popped s bins r

module _ (s : ℕ) (less : Bool) where
  -- The bins before `n` that are wide enough hold nothing.
  abbrev NoFitBefore : ℕ → Bins → Type 0
  NoFitBefore n bins = (j : ℕ) → j < n → s ≤ limit_at j bins → offset_at j bins ≡ non_exist_offset

  -- The last bin that the loop has seen an entry in, from the bin `id` on; `last` is the one before.
  abbrev Seen : ℕ → Option ℕ → Bins → Option ℕ → Type 0
  Seen id last bins r =
      ((r ≡ last) × (less ≡ false → NoneFrom 0 bins))
      ⊎ ((i : ℕ) × (r ≡ some (id + i))
          × (offset_at i bins ≢ non_exist_offset)
          × (less ≡ false)
          × NoneFrom (suc i) bins)

  -- What the loop of `PopFreeEntryOffset` has found, from the bin `id` on.
  abbrev ScanOutcome : ℕ → Option ℕ → Bins → Scan → Type 0
  ScanOutcome id last bins (found j) =
      (i : ℕ) × (j ≡ id + i)
      × (s ≤ limit_at i bins)
      × (offset_at i bins ≢ non_exist_offset)
      × NoFitBefore i bins
  ScanOutcome id last bins (ended r) = NoFit s bins × Seen id last bins r

  NoFit-cons :
      (b : BinDescriptor) (bs : Bins)
      → (s ≤ b.limit → b.offset ≡ non_exist_offset)
      → NoFit s bs
      → NoFit s (b ∷ bs)
  unfolding limit_at offset_at
  NoFit-cons b bs full h zero fits = full fits
  NoFit-cons b bs full h (suc i) fits = h i fits

  NoFitBefore-cons :
      (b : BinDescriptor) (bs : Bins) (n : ℕ)
      → (s ≤ b.limit → b.offset ≡ non_exist_offset)
      → NoFitBefore n bs
      → NoFitBefore (suc n) (b ∷ bs)
  unfolding limit_at offset_at
  NoFitBefore-cons b bs n full h zero lt fits = full fits
  NoFitBefore-cons b bs n full h (suc j) lt fits = h j (omega arith) fits

  NoneFrom-cons :
      (b : BinDescriptor) (bs : Bins) (n : ℕ) → NoneFrom n bs → NoneFrom (suc n) (b ∷ bs)
  unfolding offset_at
  NoneFrom-cons b bs n h zero le = absurd (omega arith)
  NoneFrom-cons b bs n h (suc j) le = h j (omega arith)

  NoneFrom-empty :
      (b : BinDescriptor) (bs : Bins)
      → b.offset ≡ non_exist_offset
      → NoneFrom 0 bs
      → NoneFrom 0 (b ∷ bs)
  unfolding offset_at
  NoneFrom-empty b bs e h zero le = e
  NoneFrom-empty b bs e h (suc j) le = h j (omega arith)

  Seen-behind :
      (id : ℕ) (last : Option ℕ) (b : BinDescriptor) (bs : Bins) (r : Option ℕ)
      → Seen (suc id) (if not less && is_exist_offset b.offset then some id else last) bs r
      → Seen id last (b ∷ bs) r
  unfolding offset_at
  Seen-behind id last b bs r (inl (e, clear)) =
      elim (Bool-cases (not less && is_exist_offset b.offset)) [
        | inl t ↦
            let wide : less ≡ false = ground arith in
            inr (0, ground arith, ground arith, wide, NoneFrom-cons b bs 0 (clear wide))
        | inr t ↦ inl (ground arith, λ wide. NoneFrom-empty b bs (ground arith) (clear wide))
      ]
  Seen-behind id last b bs r (inr (i, e, held, l, clear)) =
      inr (suc i, ground arith, held, l, NoneFrom-cons b bs (suc i) clear)

  outcome_behind :
      (id : ℕ) (last : Option ℕ) (b : BinDescriptor) (bs : Bins) (r : Scan)
      → (s ≤ b.limit → b.offset ≡ non_exist_offset)
      → ScanOutcome (suc id) (if not less && is_exist_offset b.offset then some id else last) bs r
      → ScanOutcome id last (b ∷ bs) r
  unfolding limit_at offset_at
  outcome_behind id last b bs (found j) full (i, e, room, held, before) =
      (suc i, omega arith, room, held, NoFitBefore-cons b bs i full before)
  outcome_behind id last b bs (ended r) full (none_fits, seen) =
      (NoFit-cons b bs full none_fits, Seen-behind id last b bs r seen)

  scan-outcome :
      (id : ℕ) (last : Option ℕ) (bins : Bins) → ScanOutcome id last bins (scan s less id last bins)
  unfolding scan
  scan-outcome id last [] =
      ((λ i h. unfold offset_at in refl), inl (refl, λ wide i h. unfold offset_at in refl))
  scan-outcome id last (b ∷ bs) = elim (Bool-cases (leb s b.limit && is_exist_offset b.offset)) [
    | inl e ↦ rw e (
      0,
      omega arith,
      unfold limit_at in ground arith,
      unfold offset_at in ground arith,
      λ j lt. absurd (omega arith),
    )
    | inr e ↦ rw e (
        outcome_behind id last b bs
          (scan s less (suc id) (if not less && is_exist_offset b.offset then some id else last) bs)
          (λ h. ground arith)
          (scan-outcome (suc id) (if not less && is_exist_offset b.offset then some id else last)
            bs))
  ]

NoneFrom-later : (m n : ℕ) (bins : Bins) → m ≤ n → NoneFrom m bins → NoneFrom n bins
NoneFrom-later m n bins le h i l = h i (omega arith)

-- What the code after the loop makes of the loop's outcome.
take_bin-Popped :
    (s : ℕ) (r : Scan) (bins : Bins)
    → ScanOutcome s (ltb s default_cluster_size) 0 none bins r
    → Popped s bins (take_bin (ltb s default_cluster_size) r bins)
unfolding take_bin
take_bin-Popped s (found j) bins (i, e, room, held, before) =
    fitting i (ground arith) held room before
take_bin-Popped s (ended none) bins (none_fits, inl (e, clear)) =
    nothing refl none_fits
      (λ wide. NoneFrom-later 0 wide_from bins (omega arith) (clear (ground arith)))
take_bin-Popped s (ended none) bins (none_fits, inr (i, e, held, l, clear)) = absurd (ground arith)
take_bin-Popped s (ended (some j)) bins (none_fits, inl (e, clear)) = absurd (ground arith)
take_bin-Popped s (ended (some j)) bins (none_fits, inr (i, e, held, l, clear)) =
    elim (Bool-cases (ltb 5 j)) [
      | inl t ↦ widest i (ground arith) held none_fits (ground arith) (ground arith) clear
      | inr t ↦
          nothing (ground arith) none_fits
            (λ wide. NoneFrom-later (suc i) wide_from bins (ground arith) clear)
    ]

-- For every size and all bins, `PopFreeEntryOffset` hands out the entry of the first bin that is
-- wide enough and holds one. Where there is none and the size is at least the cluster size, it hands
-- out the entry of the last bin that holds one, if that is one of the last five. The bin is emptied
-- and the others are as they were. Else it finds nothing: then no bin that is wide enough holds an
-- entry, nor, for a size of a cluster or more, one of the last five, and the bins are unchanged.
pub pop_free_entry_offset-Popped :
    (s : ℕ) (bins : Bins) → Popped s bins (pop_free_entry_offset s bins)
unfolding pop_free_entry_offset
pop_free_entry_offset-Popped s bins =
    let less = ltb s default_cluster_size in
    take_bin-Popped s (scan s less 0 none bins) bins (scan-outcome s less 0 none bins)
