-- ===== src/LruCache/Settings.antt =====
-- No operation of `LruCache` (common/cache/lrucache.go) changes what the options have set.
use rule_base_proxy.Common.{
  Eq, List-cases, Option-cases, [], arith, inl, inr, length, refl, suc, zero, ℕ, ◌++◌, ◌∙◌, ◌∷◌,
  ◌≡◌,
}
use rule_base_proxy.LruCache.Entries.{Entry}
use rule_base_proxy.LruCache.Cache.{
  Cache, element, delete_element, delete_front, delete_expired, maybe_delete_oldest, store_entry,
  set_with_expire, set, get_entry, get,
}

pub record SameSettings {ℓ} {K V : Type ℓ} (c d : Cache K V) : Type ℓ where
  pub age : d.max_age ≡ c.max_age
  pub size : d.max_size ≡ c.max_size
  pub updates : d.update_age_on_get ≡ c.update_age_on_get
  pub stale : d.stale_return ≡ c.stale_return
  pub callback : d.on_evict ≡ c.on_evict

module _ {ℓ} {K V : Type ℓ} where
  SameSettings-refl : (c : Cache K V) → SameSettings c c
  SameSettings-refl c = record {
    age = refl;
    size = refl;
    updates = refl;
    stale = refl;
    callback = refl;
  }

  SameSettings-trans : {b c d : Cache K V} → SameSettings b c → SameSettings c d → SameSettings b d
  SameSettings-trans p q = record {
    age = q.age ∙ p.age;
    size = q.size ∙ p.size;
    updates = q.updates ∙ p.updates;
    stale = q.stale ∙ p.stale;
    callback = q.callback ∙ p.callback;
  }

module _ {ℓ} {K V : Type ℓ} ⦃e : Eq K⦄ where
  delete_element-SameSettings :
      (c : Cache K V) (x : Entry K V) → SameSettings c (delete_element c x)
  unfolding delete_element
  delete_element-SameSettings c x = record {
    age = refl;
    size = refl;
    updates = refl;
    stale = refl;
    callback = refl;
  }

  delete_front-SameSettings : (c : Cache K V) → SameSettings c (delete_front c)
  unfolding delete_front delete_element
  delete_front-SameSettings c = ground arith

  delete_expired-SameSettings :
      (fuel now : ℕ) (c : Cache K V) → SameSettings c (delete_expired fuel now c)
  unfolding delete_expired
  delete_expired-SameSettings zero now c = SameSettings-refl c
  delete_expired-SameSettings (suc fuel) now c = elim (List-cases c.lru) [
    | inl h ↦ ground arith
    | inr (x, l, h) ↦ ground (
      arith,
      delete_element-SameSettings c x,
      delete_expired-SameSettings fuel now (delete_element c x),
    )
  ]

  maybe_delete_oldest-SameSettings :
      (now : ℕ) (c : Cache K V) → SameSettings c (maybe_delete_oldest now c)
  unfolding maybe_delete_oldest
  maybe_delete_oldest-SameSettings now c =
      ground (arith, delete_expired-SameSettings (length c.lru) now c)

  pub store_entry-SameSettings :
      (c : Cache K V) (k : K) (x : V) (expires : ℕ) → SameSettings c (store_entry c k x expires)
  unfolding store_entry
  store_entry-SameSettings c k x expires =
      let c' : Cache K V = record c {
        cache = k ∷ c.cache;
        lru = c.lru ++ record { key = k; value = x; expires = expires } ∷ [];
      } in
      ground (arith, delete_front-SameSettings c')

  pub set_with_expire-SameSettings :
      (now : ℕ) (c : Cache K V) (k : K) (x : V) (expires : ℕ)
      → SameSettings c (set_with_expire now c k x expires)
  unfolding set_with_expire
  set_with_expire-SameSettings now c k x expires =
      SameSettings-trans (store_entry-SameSettings c k x expires)
        (maybe_delete_oldest-SameSettings now _)

  pub set-SameSettings :
      (now later : ℕ) (c : Cache K V) (k : K) (x : V) → SameSettings c (set now later c k x)
  unfolding set
  set-SameSettings now later c k x = set_with_expire-SameSettings later c k x _

  get_entry-SameSettings :
      (now later : ℕ) (c : Cache K V) (k : K) → SameSettings c (get_entry now later c k).0
  unfolding get_entry
  get_entry-SameSettings now later c k = elim (Option-cases (element c k)) [
    | inl h ↦ ground arith
    | inr (le, h) ↦
        let gone =
          SameSettings-trans (delete_element-SameSettings c le)
            (maybe_delete_oldest-SameSettings later (delete_element c le)) in
        ground (arith, gone)
  ]

  pub get-SameSettings :
      (now later : ℕ) (c : Cache K V) (k : K) → SameSettings c (get now later c k).0
  unfolding get
  get-SameSettings now later c k = get_entry-SameSettings now later c k
