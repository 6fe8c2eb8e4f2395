-- ===== src/Factory/Kept.antt =====
-- include/storage/PVManagerFactory.hpp: what any calls of the factory leave of a volume's manager.
use yet_another_storage.Prelude.{
  ℕ, Bool, true, false, not, some, List, [], ◌∷◌, if◌then◌else◌, ◌≡◌, ◌≢◌, refl, arith,
  Option-cases, Bool-cases, inl, inr,
}
use yet_another_storage.Exec.{Exec, and_then, Result, ok, throw, fault, pure, ◌>>=◌, ◌>>◌}
use yet_another_storage.Utils.Version.{Version, version_lt}
use yet_another_storage.Trie.Lookup.{key_eq, key_eq_iff}
use yet_another_storage.Volume.{Expected, value}
use yet_another_storage.Factory.{
  World, Factory, find_manager, on_world, on_world_result, caught, keep_manager, open_existing,
  create, get_pv_manager, create-made, on_world_ok, find-keep,
}

-- What the calls of the world do to a device that stands under a path with this canonical form: they
-- leave it there, and where they make a device that was not there, its canonical form is another one.
pub record IsStable (o : World) (path q : o.PvPath) : Type 1 where
  pub IsPresent : o.W → Type 0
  pub present :
      (w : o.W) → IsPresent w → (o.exists path w ≡ (ok true, w)) × (o.canonical path w ≡ (ok q, w))
  pub exists-IsPresent : (p : o.PvPath) (w : o.W) → IsPresent w → IsPresent (o.exists p w).1
  pub canonical-IsPresent : (p : o.PvPath) (w : o.W) → IsPresent w → IsPresent (o.canonical p w).1
  pub load-IsPresent :
      (p : o.PvPath) (v : Version) (w : o.W) → IsPresent w → IsPresent (o.load p v w).1
  pub create-IsPresent :
      (p : o.PvPath) (v : Version) (priority cluster_size : ℕ) (w : o.W)
      → IsPresent w
      → IsPresent (o.create p v priority cluster_size w).1
  pub new_canonical :
      (p q' : o.PvPath) (v : Version) (priority cluster_size id : ℕ) (w w₁ w₂ w₃ : o.W)
      → IsPresent w
      → o.exists p w ≡ (ok false, w₁)
      → o.create p v priority cluster_size w₁ ≡ (ok id, w₂)
      → o.canonical p w₂ ≡ (ok q', w₃)
      → o.wstring q' ≢ o.wstring q

-- The calls of a factory.
pub data Call (P : Type 0) : Type 0 where
  create_at : P → Version → ℕ → ℕ → Call P
  get_at : P → Call P

module _ (o : World) (copies : Bool) where
  -- The factory after a call.
  abbrev pub after : Call o.PvPath → Factory o.W → Factory o.W
  after (create_at path version priority cluster_size) s =
      (create o copies path version priority cluster_size s).1
  after (get_at path) s = (get_pv_manager o copies path s).1

  unfoldable pub after_all : List (Call o.PvPath) → Factory o.W → Factory o.W
  after_all [] s = s
  after_all (c ∷ cs) s = after_all cs (after c s)

  module _ (path q : o.PvPath) (t : IsStable o path q) (id : ℕ) (v : Version) where
    open t use {IsPresent}

    -- The device stands under the path, its manager is known, and the factory has the version.
    record IsKept (s : Factory o.W) : Type 0 where
      pub there : IsPresent s.world
      pub known : find_manager (o.wstring q) s.managers ≡ some id
      pub versioned : s.max_supported_version ≡ v

    and_then-IsKept :
        {A B : Type 0} (r : Result A × Factory o.W) (f : A → Exec (Factory o.W) B)
        → IsKept r.1
        → ((a : A) (s' : Factory o.W) → r ≡ (ok a, s') → IsKept s' → IsKept (f a s').1)
        → IsKept (and_then r f).1
    and_then-IsKept (ok a, s) f k h = h a s refl k
    and_then-IsKept (throw e, s) f k h = k
    and_then-IsKept (fault e, s) f k h = k

    choice-IsKept :
        {A : Type 0} (b : Bool) (m n : Exec (Factory o.W) A) (s : Factory o.W)
        → (b ≡ true → IsKept (m s).1)
        → (b ≡ false → IsKept (n s).1)
        → IsKept ((if b then m else n) s).1
    choice-IsKept true m n s k l = k refl
    choice-IsKept false m n s k l = l refl

    on_world_result-IsKept :
        {A : Type 0} (s : Factory o.W) (r : Result A × o.W)
        → IsKept s
        → IsPresent r.1
        → IsKept (on_world_result o copies s r).1
    on_world_result-IsKept s (ok a, w) k p = record {
      there = p;
      known = k.known;
      versioned = k.versioned;
    }
    on_world_result-IsKept s (throw e, w) k p = record {
      there = p;
      known = k.known;
      versioned = k.versioned;
    }
    on_world_result-IsKept s (fault e, w) k p = record {
      there = p;
      known = k.known;
      versioned = k.versioned;
    }

    -- What a call of the world that has returned has returned.
    on_world_result-ok :
        {A : Type 0} (s s' : Factory o.W) (r : Result A × o.W) (a : A)
        → on_world_result o copies s r ≡ (ok a, s')
        → r ≡ (ok a, s'.world)
    on_world_result-ok s s' (ok b, w) a e = ground arith
    on_world_result-ok s s' (throw x, w) a e = cc
    on_world_result-ok s s' (fault x, w) a e = cc

    keep_manager-IsKept :
        (name : List ℕ) (n : ℕ) (s : Factory o.W)
        → IsKept s
        → name ≢ o.wstring q
        → IsKept ((keep_manager o copies name n >> pure {A = Expected ℕ} (value n)) s).1
    unfolding keep_manager find_manager
    keep_manager-IsKept name n s k other =
        let unlike : key_eq name (o.wstring q) ≡ false =
          ground (arith, key_eq_iff name (o.wstring q)) in
        record { there = k.there; known = rw unlike k.known; versioned = k.versioned }

    caught-IsKept :
        (r : Result (Expected ℕ) × Factory o.W) → IsKept r.1 → IsKept (caught o copies r).1
    caught-IsKept (ok a, s) k = k
    caught-IsKept (throw e, s) k = k
    caught-IsKept (fault e, s) k = k

    open_existing-IsKept :
        (p : o.PvPath) (s : Factory o.W) → IsKept s → IsKept (open_existing o copies p s).1
    unfolding open_existing
    open_existing-IsKept p s k =
        and_then-IsKept (on_world o copies (o.canonical p) s) _
          (on_world_result-IsKept s (o.canonical p s.world) k
            (t.canonical-IsPresent p s.world k.there))
          (λ p' s₁ e₁ k₁. elim (Option-cases (find_manager (o.wstring p') s₁.managers)) [
            | inr (n, e) ↦ rw e k₁
            | inl e ↦ rw e (
                and_then-IsKept (on_world o copies (o.load p' s₁.max_supported_version) s₁) _
                  (on_world_result-IsKept s₁ (o.load p' s₁.max_supported_version s₁.world) k₁
                    (t.load-IsPresent p' s₁.max_supported_version s₁.world k₁.there))
                  (λ n s₂ e₂ k₂.
                    keep_manager-IsKept (o.wstring p') n s₂ k₂ (λ same. cc (e, k₁.known))))
          ])

    -- Where the device is made, its canonical form is another one.
    create_new-IsKept :
        (p : o.PvPath) (v' : Version) (priority cluster_size : ℕ) (s s₁ : Factory o.W) (w : o.W)
        → IsPresent w
        → o.exists p w ≡ (ok false, s₁.world)
        → IsKept s₁
        → IsKept
            ((do
              n ← on_world o copies (o.create p v' priority cluster_size)
              canonical_path ← on_world o copies (o.canonical p)
              keep_manager o copies (o.wstring canonical_path) n
              pure {A = Expected ℕ} (value n))
              s₁).1
    create_new-IsKept p v' priority cluster_size s s₁ w h new k =
        and_then-IsKept (on_world o copies (o.create p v' priority cluster_size) s₁) _
          (on_world_result-IsKept s₁ (o.create p v' priority cluster_size s₁.world) k
            (t.create-IsPresent p v' priority cluster_size s₁.world k.there))
          (λ n s₂ e₂ k₂.
            and_then-IsKept (on_world o copies (o.canonical p) s₂) _
              (on_world_result-IsKept s₂ (o.canonical p s₂.world) k₂
                (t.canonical-IsPresent p s₂.world k₂.there))
              (λ p' s₃ e₃ k₃. keep_manager-IsKept (o.wstring p') n s₃ k₃ (
                t.new_canonical p p' v' priority cluster_size n w s₁.world s₂.world s₃.world h new
                  (on_world_result-ok s₁ s₂ (o.create p v' priority cluster_size s₁.world) n e₂)
                  (on_world_result-ok s₂ s₃ (o.canonical p s₂.world) p' e₃))))

    create-IsKept :
        (p : o.PvPath) (v' : Version) (priority cluster_size : ℕ) (s : Factory o.W)
        → IsKept s
        → IsKept (create o copies p v' priority cluster_size s).1
    unfolding create
    create-IsKept p v' priority cluster_size s k =
        elim (Bool-cases (version_lt s.max_supported_version v')) [
          | inl e ↦ rw e k
          | inr e ↦ rw e (
              caught-IsKept _ (
                and_then-IsKept (on_world o copies (o.exists p) s) _
                  (on_world_result-IsKept s (o.exists p s.world) k
                    (t.exists-IsPresent p s.world k.there))
                  (λ found s₁ e₁ k₁.
                    choice-IsKept found _ _ s₁ (λ known. open_existing-IsKept p s₁ k₁)
                      (λ new.
                        create_new-IsKept p v' priority cluster_size s s₁ s.world k.there
                          (on_world_result-ok s s₁ (o.exists p s.world) false (rw (← new) e₁))
                          k₁))))
        ]

    get_pv_manager-IsKept :
        (p : o.PvPath) (s : Factory o.W) → IsKept s → IsKept (get_pv_manager o copies p s).1
    unfolding get_pv_manager
    get_pv_manager-IsKept p s k = caught-IsKept _ (
        and_then-IsKept (on_world o copies (o.exists p) s) _
          (on_world_result-IsKept s (o.exists p s.world) k (t.exists-IsPresent p s.world k.there))
          (λ found s₁ e₁ k₁.
            choice-IsKept (not found) _ _ s₁ (λ missing. k₁)
              (λ there.
                and_then-IsKept (on_world o copies (o.canonical p) s₁) _
                  (on_world_result-IsKept s₁ (o.canonical p s₁.world) k₁
                    (t.canonical-IsPresent p s₁.world k₁.there))
                  (λ p' s₂ e₂ k₂. k₂))))

    after_all-IsKept :
        (cs : List (Call o.PvPath)) (s : Factory o.W) → IsKept s → IsKept (after_all cs s)
    unfolding after_all
    after_all-IsKept [] s k = k
    after_all-IsKept (create_at p v' priority cluster_size ∷ cs) s k =
        after_all-IsKept cs (create o copies p v' priority cluster_size s).1
          (create-IsKept p v' priority cluster_size s k)
    after_all-IsKept (get_at p ∷ cs) s k =
        after_all-IsKept cs (get_pv_manager o copies p s).1 (get_pv_manager-IsKept p s k)

    -- Where the manager is kept, `Create` and `GetPVManager` return it and change nothing.
    found-IsKept :
        (v' : Version) (priority cluster_size : ℕ) (s : Factory o.W)
        → version_lt v v' ≡ false
        → IsKept s
        → (create o copies path v' priority cluster_size s ≡ (ok (value id), s))
          × (get_pv_manager o copies path s ≡ (ok (value id), s))
    unfolding create open_existing get_pv_manager
    found-IsKept v' priority cluster_size s old k =
        let (there, canonical) = t.present s.world k.there in
        let supported : version_lt s.max_supported_version v' ≡ false = rw k.versioned old in
        (
          rw
              (
                supported,
                on_world_ok o copies (o.exists path) s there,
                on_world_ok o copies (o.canonical path) s canonical,
                k.known,
              )
              refl,
          rw
              (
                on_world_ok o copies (o.exists path) s there,
                on_world_ok o copies (o.canonical path) s canonical,
                k.known,
              )
              refl,
        )

    -- `Create` of a supported version under a path without a device makes one volume: whatever other
    -- calls of the factory come between, under this path and others, a later `Create` of a supported
    -- version and `GetPVManager` of the path return the manager that was made, and change nothing.
    -- The device is there when it is made, the calls of the world leave it there, and a device that
    -- they make later has another canonical path.
    pub create-kept :
        (version version' : Version) (priority cluster_size p' c' : ℕ) (cs : List (Call o.PvPath))
        (s : Factory o.W) (w : o.W)
        → s.max_supported_version ≡ v
        → version_lt v version ≡ false
        → version_lt v version' ≡ false
        → o.exists path s.world ≡ (ok false, s.world)
        → o.create path version priority cluster_size s.world ≡ (ok id, w)
        → IsPresent w
        → (s' : Factory o.W) × (create o copies path version priority cluster_size s
            ≡ (ok (value id), s'))
          × (create o copies path version' p' c' (after_all cs s')
              ≡ (ok (value id), after_all cs s'))
          × (get_pv_manager o copies path (after_all cs s') ≡ (ok (value id), after_all cs s'))
    create-kept version version' priority cluster_size p' c' cs s w at old old' new made there =
        let (exists, canonical) = t.present w there in
        let s' : Factory o.W = record s { managers = (o.wstring q, id) ∷ s.managers; world = w } in
        let created =
          create-made o copies path q version priority cluster_size id s w (rw at old) new made
            canonical in
        let kept : IsKept s' = record {
          there = there;
          known = find-keep o copies (o.wstring q) id s.managers;
          versioned = at;
        } in
        let (found, managed) =
          found-IsKept version' p' c' (after_all cs s') old' (after_all-IsKept cs s' kept) in
        (s', created, found, managed)
