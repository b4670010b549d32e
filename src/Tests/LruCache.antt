-- ===== src/Tests/LruCache.antt =====
-- The cache of common/cache/lrucache.go on small runs.
use rule_base_proxy.Common.{List, [], false, none, refl, some, ℕ, ◌∷◌, ◌≡◌}
use rule_base_proxy.Common.{nat_eq}
use rule_base_proxy.LruCache.Entries.{find, remove}
use rule_base_proxy.LruCache.Cache.{
  Cache, with_evict, with_age, with_size, apply_setting, apply_settings, new_lru_cache, has_key,
  delete_key, element, delete_element, delete_front, delete_expired, maybe_delete_oldest,
  store_entry, set_with_expire, set, is_expired, get_entry, get, get_with_expire, exist, delete,
  clone_entries, clone_to,
}
use rule_base_proxy.LruCache.Valid.{IsValid, set-IsValid}
use rule_base_proxy.LruCache.Making.{new_lru_cache-IsValid}
use rule_base_proxy.LruCache.History.{
  Call, get_call, set_call, Tracks, run_calls, run_call, note, notes, run_calls-Tracks,
}

program : Unit {0}
unfolding find remove apply_setting apply_settings new_lru_cache has_key delete_key element
    delete_element delete_front delete_expired maybe_delete_oldest store_entry set_with_expire set
    is_expired get_entry get get_with_expire exist delete clone_entries clone_to run_calls run_call
    note notes
program = tt

abbrev empty : Cache ℕ ℕ
empty = new_lru_cache (with_size 2 ∷ with_evict ∷ [])

abbrev aged : Cache ℕ ℕ
aged = new_lru_cache (with_age 10 ∷ [])

abbrev two : Cache ℕ ℕ
two = set 0 0 (set 0 0 empty 1 10) 2 20

-- The least recently used entry goes, and its callback is made.
evicts :
    ((set 0 0 (get 0 0 two 1).0 3 30).evicted ≡ (2, 20) ∷ [])
    × ((get 0 0 (set 0 0 (get 0 0 two 1).0 3 30) 2).1 ≡ none)
unfolding program
evicts = (refl, refl)

-- An entry is given out before its age, and not from then on.
ages :
    ((get 9 9 (set 0 0 aged 1 10) 1).1 ≡ some 10)
    × ((get 10 10 (set 0 0 aged 1 10) 1).1 ≡ none)
    × (exist (get 10 10 (set 0 0 aged 1 10) 1).0 1 ≡ false)
unfolding program
ages = (refl, refl, refl)

empty-IsValid : IsValid empty
empty-IsValid = new_lru_cache-IsValid {K = ℕ} {V = ℕ} (with_size 2 ∷ with_evict ∷ [])

two-IsValid : IsValid two
two-IsValid = set-IsValid 0 0 _ 2 20 (set-IsValid 0 0 _ 1 10 empty-IsValid)

set-IsValid_example : IsValid (set 0 0 two 3 30)
set-IsValid_example = set-IsValid 0 0 two 3 30 two-IsValid

abbrev calls : List (Call ℕ ℕ)
calls = set_call 1 10 ∷ set_call 2 20 ∷ get_call 1 ∷ set_call 3 30 ∷ []

start-Tracks : Tracks 1 empty []
unfolding program
start-Tracks = record {
  valid = empty-IsValid;
  age = refl;
  size = refl;
  distinct = tt;
  window = refl;
}

run_calls-Tracks_example : Tracks 1 (run_calls 0 calls empty) (notes 2 calls [])
run_calls-Tracks_example = run_calls-Tracks 0 1 calls empty [] start-Tracks
