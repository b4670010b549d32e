-- ===== src/FakeIp/Ready.antt =====
-- The pools of component/fakeip/pool.go that its operations work on, and what is kept.
use rule_base_proxy.Common.{Text, inl, inr, length, some, subst₂, sym, ℕ, ◌+◌, ◌<◌, ◌∙◌, ◌≡◌, ◌≤◌}
use rule_base_proxy.Net.{Ip}
use rule_base_proxy.LruCache.Entries.{Entry, find}
use rule_base_proxy.LruCache.Cache.{Cache, set, get}
use rule_base_proxy.LruCache.Settings.{set-SameSettings, get-SameSettings}
use rule_base_proxy.LruCache.Valid.{IsValid, set-IsValid, get-IsValid}
use rule_base_proxy.LruCache.Ageless.{find-set_inv, find-get}
use rule_base_proxy.FakeIp.Pool.{
  Pool, Key, host_key, offset_key, Value, ip_value, host_value, key_Eq,
}
use rule_base_proxy.FakeIp.Scan.{IsRange}

-- A host maps to an IPv4 address, an offset to a host.
abbrev pub Fits : Key → Value → Type 0
Fits (host_key h) v = (ip : Ip) × (v ≡ ip_value ip) × (length ip ≡ 4)
Fits (offset_key o) v = (h : Text) × (v ≡ host_value h)

abbrev pub Typed : Cache Key Value → Type 0
Typed c = (k : Key) (y : Entry Key Value) → find k c.lru ≡ some y → Fits k y.value

-- The cache of a pool: valid, with no age, with room for a pair of entries, and well typed.
pub record IsStore (c : Cache Key Value) : Type 0 where
  pub valid : IsValid c
  pub ageless : c.max_age ≡ 0
  pub roomy : 2 ≤ c.max_size
  pub typed : Typed c

pub record IsReady (p : Pool) : Type 0 where
  pub range : IsRange p
  pub store : IsStore p.cache

pub get-IsStore : (c : Cache Key Value) (k : Key) → IsStore c → IsStore (get 0 0 c k).0
get-IsStore c k s =
    let same = get-SameSettings 0 0 c k in
    record {
      valid = get-IsValid 0 0 c k s.valid;
      ageless = same.age ∙ s.ageless;
      roomy = rw same.size s.roomy;
      typed = λ j y f. s.typed j y (sym (find-get 0 0 c k j s.valid s.ageless) ∙ f);
    }

pub set-IsStore :
    (c : Cache Key Value) (k : Key) (x : Value) → IsStore c → Fits k x → IsStore (set 0 0 c k x)
set-IsStore c k x s fits =
    let same = set-SameSettings 0 0 c k x in
    record {
      valid = set-IsValid 0 0 c k x s.valid;
      ageless = same.age ∙ s.ageless;
      roomy = rw same.size s.roomy;
      typed = λ j y f. elim (find-set_inv 0 0 c k j x s.valid s.ageless f) [
        | inl (k_is, v_is) ↦ subst₂ Fits k_is (sym v_is) fits
        | inr before ↦ s.typed j y before
      ];
    }

-- The pool knows an address of a host.
abbrev pub Knows : Pool → Text → Ip → Type 0
Knows p h ip =
    (y : Entry Key Value) × (find (host_key h) p.cache.lru ≡ some y) × (y.value ≡ ip_value ip)

pub with_cache-IsRange :
    (p : Pool) (c : Cache Key Value) → IsRange p → IsRange (record p { cache = c })
with_cache-IsRange p c r = record {
  least = r.least;
  above = r.above;
  word = r.word;
  gateway = r.gateway;
  offset = r.offset;
}

pub moved-IsRange :
    (p : Pool) (o : ℕ) (c : Cache Key Value)
    → IsRange p
    → o + p.min < p.max
    → IsRange (record p { offset = o; cache = c })
moved-IsRange p o c r inside = record {
  least = r.least;
  above = r.above;
  word = r.word;
  gateway = r.gateway;
  offset = inside;
}
