-- ===== src/Dns/Merging.antt =====
-- The pair of queries that an address query becomes where IPv6 is on (`dualQuery` and
-- `withResolver` of dns/middleware.go).
use mathlib.Core.List.{append-nil}
use rule_base_proxy.Common.{
  Bool-cases, List, List-cases, [], arith, codes, empty, if◌then◌else◌, inl, inr, refl, some, subst,
  sym, true, ℕ, ◌++◌, ◌∙◌, ◌∷◌, ◌≡◌, ◌≢◌,
}
use rule_base_proxy.Dns.Messages.{
  Lib, Msg, Question, Rr, Answer, reply, refused, type_a, rcode_success,
  handle_msg_with_empty_answer,
}
use rule_base_proxy.Dns.Exchange.{Resolver}
use rule_base_proxy.Dns.Parallel.{done}
use rule_base_proxy.Dns.Middleware.{Server, Setup, Context, raw_type, finish}
use rule_base_proxy.Dns.Handlers.{
  a_result, aaaa_result, merge, merge_answers, dual_run, dual_query, with_resolver,
}

-- `SetRcode` of the library gives the message that it is called on the code, and leaves its records.
abbrev pub SetsCode : Lib → Type 0
SetsCode lib =
    (msg r : Msg) (code : ℕ)
    → ((lib.set_rcode msg r code).answer ≡ msg.answer) × ((lib.set_rcode msg r code).rcode ≡ code)

-- The result of a query for A: an error, or a message of success that asks for A.
abbrev pub IsFour : Answer → Type 0
IsFour (refused e) = Unit
IsFour (reply msg) =
    (q : Question) × (qs : List Question) × (msg.question ≡ q ∷ qs)
    × (q.qtype ≡ type_a)
    × (msg.rcode ≡ rcode_success)

-- The result of the other query.
abbrev pub IsSix : Answer → Type 0
IsSix (refused e) = Unit
IsSix (reply msg) =
    (q : Question) × (qs : List Question) × (msg.question ≡ q ∷ qs)
    × (q.qtype ≢ type_a)
    × (msg.rcode ≡ rcode_success)

abbrev pub records : Answer → List Rr
records (refused e) = []
records (reply msg) = msg.answer

-- A reply of success with these records.
abbrev pub Succeeds : List Rr → Answer → Type 0
Succeeds l answer =
    (msg : Msg) × (answer ≡ reply msg) × (msg.answer ≡ l) × (msg.rcode ≡ rcode_success)

finish_success :
    (lib : Lib) (msg r : Msg) (l : List Rr)
    → SetsCode lib
    → msg.answer ≡ l
    → msg.rcode ≡ rcode_success
    → Succeeds l (reply (finish lib msg r msg.rcode))
unfolding finish
finish_success lib msg r l sets is code =
    (_, refl, (sets msg r msg.rcode).0 ∙ is, (sets msg r msg.rcode).1 ∙ code)

empty_success :
    (lib : Lib) (r : Msg) → SetsCode lib → Succeeds [] (reply (handle_msg_with_empty_answer lib r))
unfolding handle_msg_with_empty_answer
empty_success lib r sets = (_, refl, (sets _ r rcode_success).0, (sets _ r rcode_success).1)

-- The order in which the results of the two queries arrive does not matter.
merge_answers-swap :
    (lib : Lib) (r : Msg) (four six : Answer)
    → IsFour four
    → IsSix six
    → merge_answers lib r six four ≡ merge_answers lib r four six
unfolding merge_answers a_result aaaa_result
merge_answers-swap lib r (refused e) (refused e') a b = refl
merge_answers-swap lib r (refused e) (reply msg) a (q, qs, asks, other, code) =
    ground (arith, asks, other)
merge_answers-swap lib r (reply msg) (refused e) (q, qs, asks, is, code) b =
    ground (arith, asks, is)
merge_answers-swap lib r (reply one) (reply two) (q, qs, asks, is, code)
      (p, ps, asks', other, code') =
    ground (arith, asks, is, asks', other)

-- Where the query for AAAA has records they come after those of the query for A.
merged : Msg → Msg → Msg
merged one two = if empty two.answer then one else record one {
  answer = one.answer ++ two.answer;
  ns = one.ns ++ two.ns;
  extra = one.extra ++ two.extra;
}

merged-answer :
    (one two : Msg)
    → ((merged one two).answer ≡ one.answer ++ two.answer) × ((merged one two).rcode ≡ one.rcode)
unfolding merged
merged-answer one two = elim (List-cases two.answer) [
  | inl e ↦ (rw (merged, e) (sym (append-nil one.answer)), rw (merged, e) refl)
  | inr (x, l, e) ↦ (rw (merged, e) refl, rw (merged, e) refl)
]

merge_answers-Succeeds :
    (lib : Lib) (r : Msg) (four six : Answer)
    → SetsCode lib
    → IsFour four
    → IsSix six
    → Succeeds (records four ++ records six) (merge_answers lib r four six)
unfolding merge_answers a_result aaaa_result merge merged
merge_answers-Succeeds lib r (refused e) (refused e') sets a b = empty_success lib r sets
merge_answers-Succeeds lib r (refused e) (reply msg) sets a (q, qs, asks, other, code) =
    let is : merge_answers lib r (refused e) (reply msg) ≡ reply (finish lib msg r msg.rcode) =
      ground (arith, asks, other, code) in
    subst (Succeeds msg.answer) (sym is) (finish_success lib msg r msg.answer sets refl code)
merge_answers-Succeeds lib r (reply msg) (refused e) sets (q, qs, asks, is_a, code) b =
    let is : merge_answers lib r (reply msg) (refused e) ≡ reply (finish lib msg r msg.rcode) =
      ground (arith, asks, is_a, code) in
    subst (Succeeds (msg.answer ++ [])) (sym is)
      (finish_success lib msg r (msg.answer ++ []) sets (sym (append-nil msg.answer)) code)
merge_answers-Succeeds lib r (reply one) (reply two) sets (q, qs, asks, is_a, code)
      (p, ps, asks', other, code') =
    let both = merged one two in
    let is : merge_answers lib r (reply one) (reply two) ≡ reply (finish lib both r both.rcode) =
      elim (Bool-cases (empty two.answer)) [
        | inl t ↦ ground (arith, asks, is_a, code, asks', other, t)
        | inr f ↦ ground (arith, asks, is_a, code, asks', other, f)
      ] in
    let (answers, codes) = merged-answer one two in
    subst (Succeeds (one.answer ++ two.answer)) (sym is)
      (finish_success lib both r (one.answer ++ two.answer) sets answers (codes ∙ code))

dual_query-Succeeds :
    (u : Setup) (res res' : Resolver) (r : Msg) (four six : Answer)
    → SetsCode u.env.lib
    → dual_run u res r ≡ (res', done four, done six)
    → IsFour four
    → IsSix six
    → ((dual_query u res r).0 ≡ res')
      × Succeeds (records four ++ records six) (dual_query u res r).1
unfolding dual_query
dual_query-Succeeds u res res' r four six sets ran a b =
    let good = merge_answers-Succeeds u.env.lib r four six sets a b in
    elim (Bool-cases u.six_first) [
      | inl t ↦
          rw (dual_query, ran, t)
            (
              refl,
              subst (Succeeds (records four ++ records six))
                  (sym (merge_answers-swap u.env.lib r four six a b)) good,
            )
      | inr f ↦ rw (dual_query, ran, f) (refl, good)
    ]

with_resolver_dual :
    (u : Setup) (s : Server) (ctx : Context) (r : Msg) (q : Question) (qs : List Question)
    → r.question ≡ q ∷ qs
    → q.qtype ≡ type_a
    → s.resolver.ipv6 ≡ true
    → with_resolver u s ctx r
      ≡ some (
        record s { resolver = (dual_query u s.resolver r).0 },
        record ctx { kind = raw_type },
        (dual_query u s.resolver r).1,
      )
unfolding with_resolver
with_resolver_dual u s ctx r q qs asks a six = ground (arith, asks, a, six)

-- With IPv6 on a query for A asks the resolver twice, for A and for AAAA, side by side. Where each
-- of the two has failed, or has got a message of success for its own question, the answer is a
-- message of success with the records for A and then those for AAAA, however the steps of the two
-- interleave and whichever result arrives first. So where both fail it has no records, and is no
-- error. `SetRcode` sets the code and leaves the records.
pub with_resolver-dual_query :
    (u : Setup) (s : Server) (ctx : Context) (r : Msg) (q : Question) (qs : List Question)
    (res' : Resolver) (four six : Answer)
    → SetsCode u.env.lib
    → r.question ≡ q ∷ qs
    → q.qtype ≡ type_a
    → s.resolver.ipv6 ≡ true
    → dual_run u s.resolver r ≡ (res', done four, done six)
    → IsFour four
    → IsSix six
    → (msg : Msg) × (with_resolver u s ctx r
        ≡ some (record s { resolver = res' }, record ctx { kind = raw_type }, reply msg))
      × (msg.answer ≡ records four ++ records six)
      × (msg.rcode ≡ rcode_success)
with_resolver-dual_query u s ctx r q qs res' four six sets asks a on ran is_four is_six =
    let (same, (msg, is, answers, code)) =
      dual_query-Succeeds u s.resolver res' r four six sets ran is_four is_six in
    (msg, rw (with_resolver_dual u s ctx r q qs asks a on, same, is) refl, answers, code)
