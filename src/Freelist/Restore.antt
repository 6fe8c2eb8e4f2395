-- ===== src/Freelist/Restore.antt =====
-- A bin that is emptied and given back its entry is as it was.
use yet_another_storage.Prelude.{ℕ, zero, suc, ◌≡◌, refl, ap, ◌∙◌, sym, [], ◌∷◌}
use yet_another_storage.Freelist.{
  Bins, offset_at, set_offset_at, get_bin_id_for_size, push_free_entry, get_free_entry,
}
use yet_another_storage.Freelist.Bins.{
  HasLimits, lower_bound-set_offset_at, length-set_offset_at, set_offset_at-set_offset_at,
}
use yet_another_storage.Freelist.PushPop.{get_free_entry-eq-push}

set_offset_at_self : (i : ℕ) (bins : Bins) → set_offset_at i (offset_at i bins) bins ≡ bins
unfolding set_offset_at offset_at
set_offset_at_self i [] = refl
set_offset_at_self zero (b ∷ bs) = refl
set_offset_at_self (suc i) (b ∷ bs) = ap (◌∷◌ b) (set_offset_at_self i bs)

get_bin_id-set_offset_at :
    (s i o : ℕ) (bins : Bins)
    → get_bin_id_for_size s (set_offset_at i o bins) ≡ get_bin_id_for_size s bins
unfolding get_bin_id_for_size
get_bin_id-set_offset_at s i o bins =
    rw (lower_bound-set_offset_at s i o bins, length-set_offset_at i o bins) refl

get_free_entry-eq-offset :
    (s : ℕ) (bins : Bins)
    → HasLimits bins
    → get_free_entry s bins ≡ offset_at (get_bin_id_for_size s bins) bins
get_free_entry-eq-offset s bins h =
    get_free_entry-eq-push 0 s bins h ∙ unfold push_free_entry in refl

-- The bin of a size, emptied by a pop and given back the entry that it held.
pub push-restore :
    (s o : ℕ) (bins : Bins)
    → HasLimits bins
    → (push_free_entry
        (get_free_entry s bins)
        s
        (set_offset_at (get_bin_id_for_size s bins) o bins)).1
      ≡ bins
unfolding push_free_entry
push-restore s o bins h =
    let i = get_bin_id_for_size s bins in
    rw
      (
        get_bin_id-set_offset_at s i o bins,
        set_offset_at-set_offset_at i (get_free_entry s bins) o bins,
        get_free_entry-eq-offset s bins h,
      )
      (set_offset_at_self i bins)

pub set_offset_at-restore :
    (s : ℕ) (bins : Bins)
    → HasLimits bins
    → get_free_entry s bins ≡ 0
    → set_offset_at (get_bin_id_for_size s bins) 0 bins ≡ bins
set_offset_at-restore s bins h e =
    let i = get_bin_id_for_size s bins in
    ap (λ o. set_offset_at i o bins) (sym e ∙ get_free_entry-eq-offset s bins h)
    ∙ set_offset_at_self i bins
