-- ===== src/Adapter/Proxy.antt =====
-- `Proxy` of adapter/adapter.go: an outbound adapter with what is known of its health. Times are
-- nanoseconds; `sem` counts the tokens of the semaphore that are taken.
use rule_base_proxy.Common.{
  Bool, List, Option, Text, [], codes, empty, get_or_else, if◌then◌else◌, is_some, ltb, none, not,
  some, suc, text_eq, true, ℕ, ◌%◌, ◌&&◌, ◌+◌, ◌/◌, ◌==◌, ◌>>=◌, ◌^◌, ◌||◌, ◌∷◌,
}
use rule_base_proxy.Queue.{put, pop, last_item, queue_len, seems_empty}
use rule_base_proxy.Rule.Metadata.{Metadata, atyp_domain_name}

-- The adapter types of constant/adapters.go that the code asks for, by their `iota`.
abbrev pub direct_type : ℕ
direct_type = 0

pub record Proxy : Type 0 where
  pub name : Text
  pub kind : ℕ
  pub addr : Text
  pub alive : Bool
  pub history : List ℕ
  pub last_success : ℕ
  pub sem : ℕ

unfoldable pub new_proxy : ℕ → Text → ℕ → Text → Proxy
new_proxy now name kind addr = record {
  name = name;
  kind = kind;
  addr = addr;
  alive = true;
  history = [];
  last_success = now;
  sem = 0;
}

abbrev pub max_delay : ℕ
max_delay = 0xffff

-- `LastDelay`
unfoldable pub last_delay : Proxy → ℕ
last_delay p =
    if not p.alive || seems_empty p.history
    then max_delay
    else elim (last_item p.history) [ none ↦ max_delay | some d ↦ if d == 0 then max_delay else d ]

-- The calls of the deferred function of `URLTest` and `URLTestOrg`, for the delay, or `none` for an
-- error: `Store` and `Put`, and `Pop` of a queue that is not empty.
unfoldable pub store_alive : Option ℕ → Proxy → Proxy
store_alive t p = record p { alive = is_some t }

unfoldable pub put_delay : ℕ → Proxy → Proxy
put_delay t p = record p { history = put (t ∷ []) p.history }

unfoldable pub drop_oldest : Proxy → Proxy
drop_oldest p = record p { history = elim (pop p.history) [ none ↦ p.history | some r ↦ r.0 ] }

-- The deferred function where no other goroutine steps in between; Adapter/Limits has its calls as
-- steps.
unfoldable pub record_delay : Option ℕ → Proxy → Proxy
record_delay t p =
    let q = put_delay (get_or_else t 0) (store_alive t p) in
    if ltb 10 (queue_len q.history) then drop_oldest q else q

-- One request of `URLTest`: it fails, or it is answered, with the two moments seen or not, and
-- with the milliseconds between them.
pub data Probe : Type 0 where
  probe_failed : Probe
  probe_done : Bool → ℕ → Probe

-- The loop of `URLTest` from the iteration `i` on: the sum of the delays and their number.
unfoldable pub sum_probes : ℕ → List Probe → ℕ × ℕ → ℕ × ℕ
sum_probes i [] acc = acc
sum_probes i (probe_failed ∷ ps) acc = sum_probes (suc i) ps acc
sum_probes i (probe_done seen delay ∷ ps) (total, count) =
    sum_probes (suc i) ps
      (if ltb 0 i && (seen && ltb 0 delay) then (total + delay, count + 1) else (total, count))

-- The delay that `URLTest` returns, as a uint16, or `none` for its error.
unfoldable pub mean_delay : List Probe → Option ℕ
mean_delay probes =
    let (total, count) = sum_probes 0 probes (0, 0) in
    if count == 0 then none else some (total / count % 2 ^ 16)

-- `URLTest` of a URL that parses.
unfoldable pub url_test : List Probe → Proxy → Proxy × Option ℕ
url_test probes p = (record_delay (mean_delay probes) p, mean_delay probes)

-- What `url.Parse` returns: scheme, host name and port.
pub record Url : Type 0 where
  pub scheme : Text
  pub hostname : Text
  pub port : Text

unfoldable pub url_port : Url → Option Text
url_port u =
    if not (empty u.port)
    then some u.port
    else if text_eq u.scheme (codes "https")
    then some (codes "443")
    else if text_eq u.scheme (codes "http")
    then some (codes "80")
    else none

-- `urlToMetadata`
unfoldable pub url_to_metadata : (Text → Option Url) → Text → Option Metadata
url_to_metadata parse raw = parse raw >>= λ u. url_port u >>= λ port. some (record {
  network = 0;
  kind = 0;
  src_ip = none;
  dst_ip = none;
  src_port = [];
  dst_port = port;
  addr_type = atyp_domain_name;
  host = u.hostname;
})
