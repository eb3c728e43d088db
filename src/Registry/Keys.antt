-- ===== src/Registry/Keys.antt =====
-- What the registry's map holds after an operation: distinct keys, and the entries that `cleanup`
-- leaves (registry/store.rs).
use rtmp_rs.Prelude.{
  ℕ, ◌≡◌, refl, ap, ◌∙◌, Bool, true, false, ◌||◌, ◌&&◌, not, Option, none, some, List, [], ◌∷◌,
  if◌then◌else◌, arith,
}
use rtmp_rs.Prelude.Map.{Eq, HashMap, get, insert, remove, get-insert, get-remove}
use rtmp_rs.Media.Gop.{is_some}
use rtmp_rs.Registry.Frame.{StreamKey, key_eq}
use rtmp_rs.Registry.Entry.{Broadcast, RegistryConfig, StreamEntry}
use rtmp_rs.Registry.Store.{StreamRegistry, should_remove, keys_to_remove, remove_all, cleanup}

module _ {K V : Type 0} ⦃q : Eq K⦄ where
  -- No key stands twice.
  unfoldable pub distinct : HashMap K V → Bool
  distinct [] = true
  distinct ((k, v) ∷ m) = not (is_some (get m k)) && distinct m

  abbrev pub IsDistinct : HashMap K V → Type 0
  IsDistinct m = distinct m ≡ true

  pub distinct-insert :
      (m : HashMap K V) (k : K) (v : V) → distinct m ≡ true → distinct (insert m k v) ≡ true
  unfolding insert distinct get
  distinct-insert [] k v d = refl
  distinct-insert ((j, w) ∷ m) k v d =
      ground (arith, q.beq_iff k j, q.beq_iff j k, get-insert m k v j, distinct-insert m k v)

  pub distinct-remove : (m : HashMap K V) (k : K) → distinct m ≡ true → distinct (remove m k) ≡ true
  unfolding remove distinct
  distinct-remove [] k d = refl
  distinct-remove ((j, w) ∷ m) k d = ground (arith, get-remove m k j, distinct-remove m k)

abbrev pub mem : StreamKey → List StreamKey → Bool
mem k [] = false
mem k (j ∷ js) = key_eq.beq j k || mem k js

module _ (B : Broadcast) where
  get-remove_all :
      (keys : List StreamKey) (m : HashMap StreamKey (StreamEntry B)) (k : StreamKey)
      → get (remove_all B keys m) k ≡ (if mem k keys then none else get m k)
  unfolding remove_all
  get-remove_all [] m k = refl
  get-remove_all (j ∷ keys) m k =
      ground (arith, get-remove_all keys (remove m j) k, get-remove m j k)

  distinct-remove_all :
      (keys : List StreamKey) (m : HashMap StreamKey (StreamEntry B))
      → distinct m ≡ true
      → distinct (remove_all B keys m) ≡ true
  unfolding remove_all
  distinct-remove_all [] m d = d
  distinct-remove_all (j ∷ keys) m d = distinct-remove_all keys (remove m j) (distinct-remove m j d)

  -- The test of `cleanup` on what the map holds.
  abbrev pub expires : ℕ → RegistryConfig → Option (StreamEntry B) → Bool
  expires now config none = false
  expires now config (some e) = should_remove B now config e

  mem-keys_to_remove :
      (now : ℕ) (config : RegistryConfig) (m : HashMap StreamKey (StreamEntry B)) (k : StreamKey)
      → distinct m ≡ true
      → mem k (keys_to_remove B now config m) ≡ expires now config (get m k)
  unfolding keys_to_remove distinct get
  mem-keys_to_remove now config [] k d = refl
  mem-keys_to_remove now config ((j, e) ∷ m) k d =
      ground (arith, key_eq.beq_iff j k, key_eq.beq_iff k j, mem-keys_to_remove now config m k)

  -- `cleanup` removes exactly the entries that have expired, and leaves the others as they are.
  pub get-cleanup :
      (now : ℕ) (r : StreamRegistry B) (k : StreamKey)
      → IsDistinct r.streams
      → get (cleanup B now r).streams k
        ≡ (if expires now r.config (get r.streams k) then none else get r.streams k)
  unfolding cleanup
  get-cleanup now r k d =
      let keys = keys_to_remove B now r.config r.streams in
      get-remove_all keys r.streams k
      ∙ ap (λ b. if b then none else get r.streams k)
          (mem-keys_to_remove now r.config r.streams k d)

  pub cleanup-IsDistinct :
      (now : ℕ) (r : StreamRegistry B) → IsDistinct r.streams → IsDistinct (cleanup B now r).streams
  unfolding cleanup
  cleanup-IsDistinct now r d =
      distinct-remove_all (keys_to_remove B now r.config r.streams) r.streams d
