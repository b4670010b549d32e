-- ===== src/LruCache/Making.antt =====
-- The caches that `NewLRUCache` and `CloneTo` (common/cache/lrucache.go) make are valid.
use mathlib.Core.List.{append-nil, append_assoc}
use rule_base_proxy.Common.{
  Eq, List, [], ap, arith, false, if◌then◌else◌, is_some, refl, subst, sym, ◌++◌, ◌∙◌, ◌∷◌, ◌≡◌,
}
use rule_base_proxy.LruCache.Entries.{Entry, find, Distinct-find_before, Distinct}
use rule_base_proxy.LruCache.Cache.{
  Cache, has_key, clone_entries, clone_to, Setting, new_lru_cache, apply_settings, apply_setting,
}
use rule_base_proxy.LruCache.Valid.{IsCoherent, IsValid, element-find, push-IsCoherent}

module _ {ℓ} {K V : Type ℓ} ⦃e : Eq K⦄ where
  -- Each constructor option leaves the cache empty.
  apply_setting_empty :
      (o : Setting) (c : Cache K V)
      → c.lru ≡ []
      → c.cache ≡ []
      → ((apply_setting o c).lru ≡ []) × ((apply_setting o c).cache ≡ [])
  unfolding apply_setting
  apply_setting_empty Setting.with_evict c h h' = (h, h')
  apply_setting_empty _ c h h' = (h, h')

  apply_settings-IsValid :
      (os : List Setting) (c : Cache K V)
      → c.lru ≡ []
      → c.cache ≡ []
      → IsValid (apply_settings os c)
  unfolding apply_settings
  apply_settings-IsValid [] c h h' = record {
    coherent = record { distinct = rw h tt; agree = λ k. rw (h, h') (unfold has_key find in refl) };
    bounded = λ p. rw h (omega arith);
  }
  apply_settings-IsValid (o ∷ os) c h h' =
      let (e₁, e₂) = apply_setting_empty o c h h' in apply_settings-IsValid os _ e₁ e₂

  -- A new cache is valid and empty, whatever its options.
  pub new_lru_cache-IsValid : (os : List Setting) → IsValid {K = K} {V = V} (new_lru_cache os)
  unfolding new_lru_cache
  new_lru_cache-IsValid os = apply_settings-IsValid os _ refl refl

  -- The loop of `CloneTo` rebuilds the list and the map of a coherent cache.
  clone_entries-IsCoherent :
      (l : List (Entry K V)) (n : Cache K V)
      → IsCoherent n
      → Distinct (n.lru ++ l)
      → IsCoherent (clone_entries l n) × ((clone_entries l n).lru ≡ n.lru ++ l)
  unfolding clone_entries
  clone_entries-IsCoherent [] n v d = (v, sym (append-nil n.lru))
  clone_entries-IsCoherent (x ∷ l) n v d =
      let absent = Distinct-find_before n.lru x l d in
      let n' : Cache K V = record n { lru = n.lru ++ x ∷ []; cache = x.key ∷ n.cache } in
      let pushed : IsCoherent n' = push-IsCoherent n x v (element-find n x.key v ∙ absent) in
      let (coherent, same) =
        clone_entries-IsCoherent l n' pushed (rw (append_assoc n.lru (x ∷ []) l) d) in
      let fresh : has_key x.key n.cache ≡ false = v.agree x.key ∙ ap is_some absent in
      let P = λ (ks : List K).
        IsCoherent (clone_entries l (record n' { cache = ks }))
        × ((clone_entries l (record n' { cache = ks })).lru ≡ n.lru ++ x ∷ l) in
      subst P (ap (λ b. if b then n.cache else x.key ∷ n.cache) (sym fresh))
        (coherent, same ∙ append_assoc n.lru (x ∷ []) l)

  -- After `c.CloneTo(n)` the cache `n` holds what `c` holds, in the same order.
  pub clone_to-IsCoherent :
      (c n : Cache K V) → IsCoherent c → IsCoherent (clone_to c n) × ((clone_to c n).lru ≡ c.lru)
  unfolding clone_to
  clone_to-IsCoherent c n v =
      clone_entries-IsCoherent c.lru (record n { lru = []; cache = [] })
        (record { distinct = tt; agree = λ k. unfold has_key find in refl }) v.distinct
