-- ===== src/Factory.antt =====
-- include/storage/PVManagerFactory.hpp: the manager of each volume, under its canonical path. Each
-- call holds the factory's mutex.
pub mod Kept
use yet_another_storage.Prelude.{
  ℕ, Bool, true, false, not, Option, none, some, List, [], ◌∷◌, if◌then◌else◌, ◌≡◌, refl,
}
use yet_another_storage.Errors.{handle, pv_version_unsupported, path_not_found}
use yet_another_storage.Exec.{Exec, Result, ok, throw, fault, pure, gets, modify, ◌>>=◌, ◌>>◌}
use yet_another_storage.Utils.Version.{Version, version_lt}
use yet_another_storage.Trie.Lookup.{key_eq, key_eq_iff}
use yet_another_storage.Volume.{Expected, value, unexpected, failure}

-- What the factory calls, on a world of files and volumes: `DDevice::Exists`, `DDevice::Canonical`
-- and `wstring` of a path, and `Load` and `Create` of `PVManager`, which return the number of a
-- new manager.
pub record World : Type 1 where
  pub W : Type 0
  pub PvPath : Type 0
  pub exists : PvPath → Exec W Bool
  pub canonical : PvPath → Exec W PvPath
  pub wstring : PvPath → List ℕ
  pub load : PvPath → Version → Exec W ℕ
  pub create : PvPath → Version → ℕ → ℕ → Exec W ℕ

-- `managers_`, an unordered map.
abbrev pub Managers : Type 0
Managers = List (List ℕ × ℕ)

-- `managers_.find`
unfoldable pub find_manager : List ℕ → Managers → Option ℕ
find_manager path [] = none
find_manager path ((p, id) ∷ managers) =
    if key_eq p path then some id else find_manager path managers

pub record Factory (W : Type 0) : Type 0 where
  pub managers : Managers
  pub max_supported_version : Version
  pub world : W

module _ (o : World) (copies : Bool) where
  abbrev pub on_world_result : {A : Type 0} → Factory o.W → Result A × o.W → Result A × Factory o.W
  on_world_result s (ok a, w) = (ok a, record s { world = w })
  on_world_result s (throw e, w) = (throw e, record s { world = w })
  on_world_result s (fault e, w) = (fault e, record s { world = w })

  abbrev pub on_world : {A : Type 0} → Exec o.W A → Exec (Factory o.W) A
  on_world call s = on_world_result s (call s.world)

  abbrev pub caught : Result (Expected ℕ) × Factory o.W → Result (Expected ℕ) × Factory o.W
  caught (ok a, s) = (ok a, s)
  caught (throw e, s) = (ok (unexpected (handle copies e)), s)
  caught (fault e, s) = (fault e, s)

  -- `managers_[path] = manager`, for a path that is new or not.
  unfoldable pub keep_manager : List ℕ → ℕ → Exec (Factory o.W) (Unit {0})
  keep_manager path id = modify (λ s. record s { managers = (path, id) ∷ s.managers })

  -- `Create`, where the device exists
  unfoldable pub open_existing : o.PvPath → Exec (Factory o.W) (Expected ℕ)
  open_existing path = do
    canonical_path ← on_world (o.canonical path)
    known ← gets (λ s. find_manager (o.wstring canonical_path) s.managers)
    version ← gets (λ s. s.max_supported_version)
    elim known [
      | some id ↦ pure (value id)
      | none ↦ (do
        id ← on_world (o.load canonical_path version)
        keep_manager (o.wstring canonical_path) id
        pure (value id))
    ]

  -- `Create`
  unfoldable pub create : o.PvPath → Version → ℕ → ℕ → Exec (Factory o.W) (Expected ℕ)
  create path requested_version priority cluster_size s =
      if version_lt s.max_supported_version requested_version
      then (
        ok (unexpected (failure "requested PV version is unsupported" pv_version_unsupported)),
        s,
      )
      else caught (
          (do
            found ← on_world (o.exists path)
            if found then open_existing path else (do
              id ← on_world (o.create path requested_version priority cluster_size)
              canonical_path ← on_world (o.canonical path)
              keep_manager (o.wstring canonical_path) id
              pure (value id)))
            s)

  -- `GetPVManager`
  unfoldable pub get_pv_manager : o.PvPath → Exec (Factory o.W) (Expected ℕ)
  get_pv_manager path s = caught (
      (do
        found ← on_world (o.exists path)
        if not found
            then pure (unexpected (failure "requested PV path isn't found" path_not_found))
            else (do
              canonical_path ← on_world (o.canonical path)
              known ← gets (λ f. find_manager (o.wstring canonical_path) f.managers)
              pure (elim known [
                | some id ↦ value id
                | none ↦
                    unexpected (failure "requested PV on the given path isn't found" path_not_found)
              ])))
        s)

  pub find-keep :
      (path : List ℕ) (id : ℕ) (managers : Managers)
      → find_manager path ((path, id) ∷ managers) ≡ some id
  unfolding find_manager
  find-keep path id managers = rw ((key_eq_iff path path).1 refl) refl

  pub on_world_ok :
      {A : Type 0} (call : Exec o.W A) (s : Factory o.W) {a : A} {w : o.W}
      → call s.world ≡ (ok a, w)
      → on_world call s ≡ (ok a, record s { world = w })
  on_world_ok call s e = rw e refl

  -- `Create` of a path without a device keeps the manager of the new volume under its canonical path.
  pub create-made :
      (path q : o.PvPath) (version : Version) (priority cluster_size id : ℕ) (s : Factory o.W)
      (w : o.W)
      → version_lt s.max_supported_version version ≡ false
      → o.exists path s.world ≡ (ok false, s.world)
      → o.create path version priority cluster_size s.world ≡ (ok id, w)
      → o.canonical path w ≡ (ok q, w)
      → create path version priority cluster_size s
        ≡ (ok (value id), record s { managers = (o.wstring q, id) ∷ s.managers; world = w })
  unfolding create keep_manager
  create-made path q version priority cluster_size id s w old new made canonical =
      let s₁ : Factory o.W = record s { world = w } in
      rw (old, on_world_ok (o.exists path) s new)
        (rw (on_world_ok (o.create path version priority cluster_size) s made)
          (rw (on_world_ok (o.canonical path) s₁ canonical) refl))
