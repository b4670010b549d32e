-- ===== src/Tests/Groups.antt =====
-- Proxies and groups on small lists.
use rule_base_proxy.Common.{
  List, [], arith, codes, false, get_elem?, if◌then◌else◌, length, refl, some, true, ℕ, ◌/◌, ◌<◌,
  ◌==◌, ◌∷◌, ◌≡◌, ◌⊎◌,
}
use rule_base_proxy.Adapter.Proxy.{
  Proxy, new_proxy, record_delay, last_delay, max_delay, put_delay, Probe, probe_done, sum_probes,
  mean_delay, url_test,
}
use rule_base_proxy.Adapter.Limits.{
  Dials, take_token, put_record, is_failing, here, next, IsBounded, Steps-IsBounded,
}
use rule_base_proxy.Queue.{put}
use rule_base_proxy.Adapter.Delays.{delays, counted, total, last_delay-url_test}
use rule_base_proxy.Groups.Selection.{first_proxy, next_alive, round_robin}
use rule_base_proxy.Groups.RoundRobin.{round_robin-alive}

program : Unit {0}
unfolding put put_delay delays counted total new_proxy record_delay last_delay sum_probes mean_delay
    url_test is_failing
program = tt

abbrev up : Proxy
up = record {
  name = codes "up";
  kind = 6;
  addr = codes "up.example:1080";
  alive = true;
  history = 120 ∷ 80 ∷ [];
  last_success = 0;
  sem = 0;
}

abbrev down : Proxy
down = record up { name = codes "down"; alive = false }

abbrev quick : Proxy
quick = record up { name = codes "quick"; history = 40 ∷ [] }

round_robin-alive_example :
    (idx' : ℕ) × (p : Proxy) × (round_robin (down ∷ up ∷ quick ∷ []) 2 ≡ some (idx', p))
    × (idx' < length (down ∷ up ∷ quick ∷ []))
    × (((p.alive ≡ true) × (get_elem? (down ∷ up ∷ quick ∷ []) idx' ≡ some p))
        ⊎ ((first_proxy (down ∷ up ∷ quick ∷ []) ≡ some p)
            × ((j : ℕ) (q : Proxy)
                → get_elem? (down ∷ up ∷ quick ∷ []) j ≡ some q
                → q.alive ≡ false)))
round_robin-alive_example = round_robin-alive (down ∷ up ∷ quick ∷ []) 2 (omega arith)

-- From the third place the next is the second: the first is down.
goes_around : round_robin (down ∷ up ∷ quick ∷ []) 2 ≡ some (1, up)
unfolding round_robin next_alive
goes_around = refl

-- A proxy with ten delays, and a test that is about to put one more.
abbrev full : Dials
full = record {
  proxy = record down { history = 1 ∷ 2 ∷ 3 ∷ 4 ∷ 5 ∷ 6 ∷ 7 ∷ 8 ∷ 9 ∷ 10 ∷ [] };
  limited = 0;
  unlimited = 0;
  turned_away = 0;
  putting = 11 ∷ [];
  measuring = 0;
  popping = 0;
  taking = 0;
}

-- The same with the delay put, and a dial that took a token in between.
abbrev over : Dials
over = record full {
  proxy = record down { sem = 1; history = 1 ∷ 2 ∷ 3 ∷ 4 ∷ 5 ∷ 6 ∷ 7 ∷ 8 ∷ 9 ∷ 10 ∷ 11 ∷ [] };
  limited = 1;
  putting = [];
  measuring = 1;
}

Steps-IsBounded_example : IsBounded over
unfolding program
Steps-IsBounded_example =
    Steps-IsBounded
      (record { tokens = refl; few = omega arith; short = omega arith; enough = omega arith })
      (next {e = record full { proxy = record (full.proxy) { sem = 1 }; limited = 1 }}
        (next {e = full} here (take_token 6_000_000_000 refl (omega arith) refl))
        (put_record [] [] 11 refl refl))

abbrev probes : List Probe
probes = probe_done true 300 ∷ probe_done true 40 ∷ probe_done true 61 ∷ []

last_delay-url_test_example : last_delay (url_test probes up).0 ≡ (
    if length (counted probes) == 0
    then max_delay
    else total (counted probes) / length (counted probes))
unfolding program
last_delay-url_test_example = last_delay-url_test probes up (omega arith, (omega arith, tt))

-- The first probe does not count.
averages : mean_delay probes ≡ some 50
unfolding program
averages = refl
