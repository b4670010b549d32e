-- ===== src/LruCache/Cache.antt =====
-- `LruCache` of common/cache/lrucache.go. The map `cache` is the list of its keys; the element
-- that it holds for a key is the one with that key in `lru`. An age or a size of zero (or less)
-- is unset. `time.Now().Unix()` is an argument of each call that reads the clock. `evicted` logs
-- the calls of `onEvict`. The mutex makes each operation one step.
use mathlib.Core.Option
use rule_base_proxy.Common.{
  Bool, Eq, List, Option, [], false, if◌then◌else◌, leb, length, ltb, none, not, some, suc, true,
  zero, ℕ, ◌&&◌, ◌++◌, ◌+◌, ◌∷◌,
}
use rule_base_proxy.LruCache.Entries.{Entry, find, remove}

pub record Cache {ℓ} (K V : Type ℓ) : Type ℓ where
  pub max_age : ℕ
  pub max_size : ℕ
  pub cache : List K
  pub lru : List (Entry K V)
  pub update_age_on_get : Bool
  pub stale_return : Bool
  pub on_evict : Bool
  pub evicted : List (K × V)

-- The functional options `WithEvict`, `WithUpdateAgeOnGet`, `WithAge`, `WithSize`, `WithStale`.
pub data Setting : Type 0 where
  with_evict : Setting
  with_update_age_on_get : Setting
  with_age : ℕ → Setting
  with_size : ℕ → Setting
  with_stale : Bool → Setting

module _ {ℓ} {K V : Type ℓ} where
  unfoldable pub apply_setting : Setting → Cache K V → Cache K V
  apply_setting with_evict l = record l { on_evict = true }
  apply_setting with_update_age_on_get l = record l { update_age_on_get = true }
  apply_setting (with_age n) l = record l { max_age = n }
  apply_setting (with_size n) l = record l { max_size = n }
  apply_setting (with_stale b) l = record l { stale_return = b }

  unfoldable pub apply_settings : List Setting → Cache K V → Cache K V
  unfolding apply_setting
  apply_settings [] l = l
  apply_settings (o ∷ os) l = apply_settings os (apply_setting o l)

  unfoldable pub new_lru_cache : List Setting → Cache K V
  unfolding apply_settings
  new_lru_cache options = apply_settings options (record {
    max_age = 0;
    max_size = 0;
    cache = [];
    lru = [];
    update_age_on_get = false;
    stale_return = false;
    on_evict = false;
    evicted = [];
  })

module _ {ℓ} {K : Type ℓ} ⦃e : Eq K⦄ where
  -- `_, ok := c.cache[key]`
  unfoldable pub has_key : K → List K → Bool
  has_key k [] = false
  has_key k (j ∷ ks) = if e.beq j k then true else has_key k ks

  -- `delete(c.cache, key)`
  unfoldable pub delete_key : K → List K → List K
  delete_key k [] = []
  delete_key k (j ∷ ks) = if e.beq j k then delete_key k ks else j ∷ delete_key k ks

module _ {ℓ} {K V : Type ℓ} ⦃e : Eq K⦄ where
  -- `le, ok := c.cache[key]`
  unfoldable pub element : Cache K V → K → Option (Entry K V)
  element c key = if has_key key c.cache then find key c.lru else none

  unfoldable pub delete_element : Cache K V → Entry K V → Cache K V
  delete_element c le = record c {
    lru = remove le.key c.lru;
    cache = delete_key le.key c.cache;
    evicted = if c.on_evict then c.evicted ++ (le.key, le.value) ∷ [] else c.evicted;
  }

  -- `if len > c.maxSize { c.deleteElement(c.lru.Front()) }`
  unfoldable pub delete_front : Cache K V → Cache K V
  delete_front c = elim c.lru [ [] ↦ c | x ∷ l ↦ delete_element c x ]

  -- The loop of `maybeDeleteOldest`, on fuel.
  unfoldable pub delete_expired : ℕ → ℕ → Cache K V → Cache K V
  delete_expired zero now c = c
  delete_expired (suc fuel) now c = elim c.lru [
    | [] ↦ c
    | x ∷ l ↦ elim (leb x.expires now) [
      | true ↦ delete_expired fuel now (delete_element c x)
      | false ↦ c
    ]
  ]

  -- Each round takes one element, so the number of elements is fuel enough.
  unfoldable pub maybe_delete_oldest : ℕ → Cache K V → Cache K V
  maybe_delete_oldest now c =
      if not c.stale_return && ltb 0 c.max_age then delete_expired (length c.lru) now c else c

  -- The two branches of `SetWithExpire`.
  unfoldable pub store_entry : Cache K V → K → V → ℕ → Cache K V
  store_entry c key value expires = elim (element c key) [
    | some le ↦ record c {
      lru = remove key c.lru ++ record le { value = value; expires = expires } ∷ [];
    }
    | none ↦
        let c' = record c {
          cache = key ∷ c.cache;
          lru = c.lru ++ record { key = key; value = value; expires = expires } ∷ [];
        } in
        if ltb 0 c.max_size && ltb c.max_size (length c'.lru) then delete_front c' else c'
  ]

  unfoldable pub set_with_expire : ℕ → Cache K V → K → V → ℕ → Cache K V
  set_with_expire now c key value expires =
      maybe_delete_oldest now (store_entry c key value expires)

  -- `Set`: the clock is read at `now`, and again at `later`.
  unfoldable pub set : ℕ → ℕ → Cache K V → K → V → Cache K V
  set now later c key value =
      set_with_expire later c key value (if ltb 0 c.max_age then now + c.max_age else 0)

  -- `!c.staleReturn && c.maxAge > 0 && le.Value.(*entry).expires <= time.Now().Unix()`
  unfoldable pub is_expired : ℕ → Cache K V → Entry K V → Bool
  is_expired now c le = not c.stale_return && (ltb 0 c.max_age && leb le.expires now)

  -- `get`: the new state and the entry; the clock is read at `now`, and once more at `later`.
  unfoldable pub get_entry : ℕ → ℕ → Cache K V → K → Cache K V × Option (Entry K V)
  get_entry now later c key = elim (element c key) [
    | none ↦ (c, none)
    | some le ↦
        if is_expired now c le
        then (maybe_delete_oldest later (delete_element c le), none)
        else (let entry =
              if ltb 0 c.max_age && c.update_age_on_get
              then record le { expires = later + c.max_age }
              else le in
            (record c { lru = remove key c.lru ++ entry ∷ [] }, some entry))
  ]

  unfoldable pub get : ℕ → ℕ → Cache K V → K → Cache K V × Option V
  get now later c key =
      let (c', le) = get_entry now later c key in (c', Option.map (λ x. x.value) le)

  unfoldable pub get_with_expire : ℕ → ℕ → Cache K V → K → Cache K V × Option (V × ℕ)
  get_with_expire now later c key =
      let (c', le) = get_entry now later c key in (c', Option.map (λ x. (x.value, x.expires)) le)

  unfoldable pub exist : Cache K V → K → Bool
  exist c key = has_key key c.cache

  unfoldable pub delete : Cache K V → K → Cache K V
  delete c key = elim (element c key) [ none ↦ c | some le ↦ delete_element c le ]

  -- The loop of `CloneTo`: each element is pushed at the back and put into the map.
  unfoldable pub clone_entries : List (Entry K V) → Cache K V → Cache K V
  clone_entries [] n = n
  clone_entries (x ∷ l) n = clone_entries l (record n {
    lru = n.lru ++ x ∷ [];
    cache = if has_key x.key n.cache then n.cache else x.key ∷ n.cache;
  })

  -- `c.CloneTo(n)`: the new state of `n`.
  unfoldable pub clone_to : Cache K V → Cache K V → Cache K V
  clone_to c n = clone_entries c.lru (record n { lru = []; cache = [] })

-- `SetOnEvict`: a callback is set unless one is there.
unfoldable pub set_on_evict {ℓ} : {K V : Type ℓ} → Cache K V → Cache K V
set_on_evict c = record c { on_evict = true }
