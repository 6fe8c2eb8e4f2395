-- ===== src/Tests/Opening.antt =====
-- A concrete factory.
use yet_another_storage.Prelude.{
  ℕ, ◌≡◌, ◌≢◌, refl, ap, Bool, true, false, ◌||◌, List, [], ◌∷◌, length, arith,
}
use yet_another_storage.Exec.{Result, ok}
use yet_another_storage.Utils.Version.{Version, version_lt}
use yet_another_storage.Trie.Lookup.{key_eq}
use yet_another_storage.Volume.{value}
use yet_another_storage.Factory.{World, Factory, create, get_pv_manager}
use yet_another_storage.Factory.Kept.{IsStable, Call, create_at, get_at, after_all, create-kept}

-- The world is the paths that have a device; a path is canonical as it is.
abbrev has_device : List ℕ → List (List ℕ) → Bool
has_device path [] = false
has_device path (p ∷ ps) = key_eq p path || has_device path ps

abbrev world : World
world = record {
  W = List (List ℕ);
  PvPath = List ℕ;
  exists = λ path w. (ok (has_device path w), w);
  canonical = λ path w. (ok path, w);
  wstring = λ path. path;
  load = λ path version w. (ok (length w), w);
  create = λ path version priority cluster_size w. (ok (length w), path ∷ w);
}

abbrev path : List ℕ
path = 47 ∷ []

has_device-cons :
    (p : List ℕ) (w : List (List ℕ)) → has_device path w ≡ true → has_device path (p ∷ w) ≡ true
has_device-cons p w h = ground arith

new_path :
    (p q' : List ℕ) (id : ℕ) (w w₁ w₂ w₃ : List (List ℕ))
    → has_device path w ≡ true
    → ◌≡◌ {A = Result Bool × List (List ℕ)} (ok (has_device p w), w) (ok false, w₁)
    → ◌≡◌ {A = Result (List ℕ) × List (List ℕ)} (ok p, w₂) (ok q', w₃)
    → q' ≢ path
new_path p q' id w w₁ w₂ w₃ h new same e =
    let here : p ≡ path = ground arith in
    let gone : has_device p w ≡ false = ground arith in cc (ap (λ x. has_device x w) here)

abbrev world-IsStable : IsStable world path path
world-IsStable = record {
  IsPresent = λ w. has_device path w ≡ true;
  present = λ w h. (ap (λ b. (ok b, w)) h, refl);
  exists-IsPresent = λ p w h. h;
  canonical-IsPresent = λ p w h. h;
  load-IsPresent = λ p v w h. h;
  create-IsPresent = λ p v priority cluster_size w h. has_device-cons p w h;
  new_canonical = λ p q' v priority cluster_size id w w₁ w₂ w₃ h new made same.
      new_path p q' id w w₁ w₂ w₃ h new same;
}

abbrev version_1_2 : Version
version_1_2 = record { major = 1; minor = 2 }

abbrev factory : Factory (List (List ℕ))
factory = record { managers = []; max_supported_version = version_1_2; world = (46 ∷ []) ∷ [] }

supported : version_lt version_1_2 version_1_2 ≡ false
unfolding version_lt
supported = refl

-- Another volume is made, one is loaded, and one is asked for.
abbrev between : List (Call (List ℕ))
between =
    create_at (48 ∷ []) version_1_2 0 64
    ∷ create_at (46 ∷ []) version_1_2 0 64
    ∷ get_at (49 ∷ [])
    ∷ []

create-kept_example :
    (s' : Factory (List (List ℕ))) × (create world false path version_1_2 0 3840 factory
      ≡ (ok (value 1), s'))
    × (create world false path version_1_2 5 64 (after_all world false between s')
        ≡ (ok (value 1), after_all world false between s'))
    × (get_pv_manager world false path (after_all world false between s')
        ≡ (ok (value 1), after_all world false between s'))
unfolding key_eq
create-kept_example =
    create-kept world false path path world-IsStable 1 version_1_2 version_1_2 version_1_2 0 3840 5
      64 between factory (path ∷ (46 ∷ []) ∷ []) refl supported supported refl refl refl
