-- ===== src/Adapter/Limits.antt =====
-- The bounds of a proxy (adapter/adapter.go): how many dials run at a time while it fails, and how
-- long its history is.
use rule_base_proxy.Common.{
  Bool, Bool-cases, List, List-cases, Option, [], ap, arith, false, get_or_else, if◌then◌else◌, inl,
  inr, length, length-append, ltb, none, some, subst, suc, sym, true, ℕ, ◌++◌, ◌+◌, ◌-◌, ◌<◌, ◌==◌,
  ◌∙◌, ◌∷◌, ◌≡◌, ◌≤◌,
}
use rule_base_proxy.Queue.{put, take_head, queue_len, seems_empty}
use rule_base_proxy.Adapter.Proxy.{Proxy, store_alive, put_delay}

-- `C.DefaultTCPTimeout`
abbrev pub default_tcp_timeout : ℕ
default_tcp_timeout = 5_000_000_000

-- `now.Sub(lastSuccess) > C.DefaultTCPTimeout`
unfoldable pub is_failing : ℕ → Proxy → Bool
is_failing now p = ltb (p.last_success + default_tcp_timeout) now

-- A proxy with the goroutines in `DialContext` that hold a token, and those that need none, and
-- with the tests in their deferred function: those before `Put`, by their delays, those before
-- `Len`, those before `Pop`, and those in `Pop` that have seen a queue that is not empty.
pub record Dials : Type 0 where
  pub proxy : Proxy
  pub limited : ℕ
  pub unlimited : ℕ
  pub turned_away : ℕ
  pub putting : List ℕ
  pub measuring : ℕ
  pub popping : ℕ
  pub taking : ℕ

-- What a dial does to the proxy when it ends: `none` for an error, or the moment of success.
unfoldable pub finished : Option ℕ → Proxy → Proxy
finished none p = record p { alive = false }
finished (some at) p = record p { alive = true; last_success = at }

-- The steps of goroutines that share a proxy: those of `DialContext`, and those of the deferred
-- function of a test, whose calls take the lock of the history one by one.
pub data Step (d e : Dials) : Type 0 where
  dial_freely :
      (now : ℕ)
      → is_failing now d.proxy ≡ false
      → e ≡ record d { unlimited = d.unlimited + 1 }
      → Step d e
  take_token :
      (now : ℕ)
      → is_failing now d.proxy ≡ true
      → d.proxy.sem < 3
      → e ≡ record d { proxy = record (d.proxy) { sem = d.proxy.sem + 1 }; limited = d.limited + 1 }
      → Step d e
  rate_limit :
      (now : ℕ)
      → is_failing now d.proxy ≡ true
      → 3 ≤ d.proxy.sem
      → e ≡ record d { turned_away = d.turned_away + 1 }
      → Step d e
  finish_freely :
      (result : Option ℕ)
      → 0 < d.unlimited
      → e ≡ record d { proxy = finished result d.proxy; unlimited = d.unlimited - 1 }
      → Step d e
  finish_limited :
      (result : Option ℕ)
      → 0 < d.limited
      → e ≡ record d {
        proxy = record (finished result d.proxy) { sem = d.proxy.sem - 1 };
        limited = d.limited - 1;
      }
      → Step d e
  end_test :
      (result : Option ℕ)
      → e ≡ record d {
        proxy = store_alive result d.proxy;
        putting = get_or_else result 0 ∷ d.putting;
      }
      → Step d e
  put_record :
      (before after : List ℕ) (t : ℕ)
      → d.putting ≡ before ++ t ∷ after
      → e ≡ record d {
        proxy = put_delay t d.proxy;
        putting = before ++ after;
        measuring = d.measuring + 1;
      }
      → Step d e
  measure :
      0 < d.measuring
      → e ≡ record d {
        measuring = d.measuring - 1;
        popping = if ltb 10 (queue_len d.proxy.history) then d.popping + 1 else d.popping;
      }
      → Step d e
  begin_pop :
      0 < d.popping
      → e ≡ record d {
        popping = d.popping - 1;
        taking = if seems_empty d.proxy.history then d.taking else d.taking + 1;
      }
      → Step d e
  end_pop :
      (rest : List ℕ) (t : ℕ)
      → 0 < d.taking
      → take_head d.proxy.history ≡ some (rest, t)
      → e ≡ record d { proxy = record (d.proxy) { history = rest }; taking = d.taking - 1 }
      → Step d e

pub data Steps (d : Dials) : Dials → Type 0 where
  here : Steps d d
  next : {e f : Dials} → Steps d e → Step e f → Steps d f

-- The tests that have put a delay and may still take one.
abbrev pub pending : Dials → ℕ
pending d = d.measuring + (d.popping + d.taking)

-- The tokens taken are the dials that hold one, at most 3; the history has at most 10 records
-- and one for each test that is not done with it, and a record for each of these.
pub record IsBounded (d : Dials) : Type 0 where
  pub tokens : d.proxy.sem ≡ d.limited
  pub few : d.limited ≤ 3
  pub short : length d.proxy.history ≤ 10 + pending d
  pub enough : pending d ≤ length d.proxy.history

finish_free :
    (d : Dials) (result : Option ℕ)
    → IsBounded d
    → IsBounded (record d { proxy = finished result d.proxy; unlimited = d.unlimited - 1 })
unfolding finished
finish_free d none b = record { tokens = b.tokens; few = b.few; short = b.short; enough = b.enough }
finish_free d (some at) b = record {
  tokens = b.tokens;
  few = b.few;
  short = b.short;
  enough = b.enough;
}

finish_held :
    (d : Dials) (result : Option ℕ)
    → IsBounded d
    → IsBounded (record d {
      proxy = record (finished result d.proxy) { sem = d.proxy.sem - 1 };
      limited = d.limited - 1;
    })
unfolding finished
finish_held d none b = record {
  tokens = ap (λ x. x - 1) b.tokens;
  few = omega (arith, b.few);
  short = b.short;
  enough = b.enough;
}
finish_held d (some at) b = record {
  tokens = ap (λ x. x - 1) b.tokens;
  few = omega (arith, b.few);
  short = b.short;
  enough = b.enough;
}

measure-IsBounded :
    (d : Dials)
    → 0 < d.measuring
    → IsBounded d
    → IsBounded (record d {
      measuring = d.measuring - 1;
      popping = if ltb 10 (queue_len d.proxy.history) then d.popping + 1 else d.popping;
    })
unfolding queue_len
measure-IsBounded d some_test b = elim (Bool-cases (ltb 10 (length d.proxy.history))) [
  | inl t ↦ record {
    tokens = b.tokens;
    few = b.few;
    short = ground (arith, t, some_test, b.short);
    enough = ground (arith, t, some_test, b.enough);
  }
  | inr f ↦ record {
    tokens = b.tokens;
    few = b.few;
    short = ground (arith, f);
    enough = ground (arith, f, b.enough);
  }
]

begin_pop-IsBounded :
    (d : Dials)
    → 0 < d.popping
    → IsBounded d
    → IsBounded (record d {
      popping = d.popping - 1;
      taking = if seems_empty d.proxy.history then d.taking else d.taking + 1;
    })
unfolding seems_empty
begin_pop-IsBounded d some_test b =
    let some_records : (length d.proxy.history == 0) ≡ false =
      ground (arith, b.enough, some_test) in
    record {
      tokens = b.tokens;
      few = b.few;
      short = ground (arith, some_records, some_test, b.short);
      enough = ground (arith, some_records, some_test, b.enough);
    }

end_pop-IsBounded :
    (d : Dials) (rest : List ℕ) (t : ℕ)
    → 0 < d.taking
    → take_head d.proxy.history ≡ some (rest, t)
    → IsBounded d
    → IsBounded (record d { proxy = record (d.proxy) { history = rest }; taking = d.taking - 1 })
unfolding take_head
end_pop-IsBounded d rest t some_test taken b = elim (List-cases d.proxy.history) [
  | inl e ↦ absurd (ground (arith, e, taken))
  | inr (x, r, e) ↦
      let same : r ≡ rest = ground (arith, e, taken) in
      let one_less : length d.proxy.history ≡ suc (length rest) =
        ap length e ∙ ap (λ l. suc (length l)) same in
      record {
        tokens = b.tokens;
        few = b.few;
        short = omega (arith, one_less, b.short, some_test);
        enough = omega (arith, one_less, b.enough, some_test);
      }
]

Step-IsBounded : (d e : Dials) → Step d e → IsBounded d → IsBounded e
unfolding finished store_alive put_delay put
Step-IsBounded d e (dial_freely now healthy is) b =
    subst IsBounded (sym is)
      (record { tokens = b.tokens; few = b.few; short = b.short; enough = b.enough })
Step-IsBounded d e (take_token now failing free is) b = subst IsBounded (sym is) (record {
  tokens = omega (arith, b.tokens);
  few = omega (arith, b.tokens);
  short = b.short;
  enough = b.enough;
})
Step-IsBounded d e (rate_limit now failing full is) b =
    subst IsBounded (sym is)
      (record { tokens = b.tokens; few = b.few; short = b.short; enough = b.enough })
Step-IsBounded d e (finish_freely result some_dial is) b =
    subst IsBounded (sym is) (finish_free d result b)
Step-IsBounded d e (finish_limited result some_dial is) b =
    subst IsBounded (sym is) (finish_held d result b)
Step-IsBounded d e (end_test result is) b =
    subst IsBounded (sym is)
      (record { tokens = b.tokens; few = b.few; short = b.short; enough = b.enough })
Step-IsBounded d e (put_record before after t there is) b =
    let longer = length-append d.proxy.history (t ∷ []) in
    subst IsBounded (sym is) (record {
      tokens = b.tokens;
      few = b.few;
      short = omega (arith, longer, b.short);
      enough = omega (arith, longer, b.enough);
    })
Step-IsBounded d e (measure some_test is) b =
    subst IsBounded (sym is) (measure-IsBounded d some_test b)
Step-IsBounded d e (begin_pop some_test is) b =
    subst IsBounded (sym is) (begin_pop-IsBounded d some_test b)
Step-IsBounded d e (end_pop rest t some_test taken is) b =
    subst IsBounded (sym is) (end_pop-IsBounded d rest t some_test taken b)

-- However the dials and the calls of the tests of a proxy interleave, at most 3 dials of a failing
-- proxy hold a token at a time, as many as the semaphore counts. The history has at most 10
-- records more than there are tests between their `Put` and the end of their `Pop`, so at most 10
-- when none is there, and as many records as these tests at least, so that no `Pop` finds it
-- empty.
pub Steps-IsBounded : {d e : Dials} → IsBounded d → Steps d e → IsBounded e
Steps-IsBounded b here = b
Steps-IsBounded b (next {e} {f} ds st) = Step-IsBounded e f st (Steps-IsBounded b ds)
