-- ===== src/Dns/Messages.antt =====
-- The DNS messages that dns/util.go, dns/middleware.go and dns/resolver.go read and write. They
-- are types of the DNS library, with the fields that the repository uses; `Lib` is what it calls
-- of the library.
use rule_base_proxy.Common.{
  Bool, List, Option, Text, [], empty, false, if◌then◌else◌, map, none, some, true, ℕ, ◌&&◌, ◌+◌,
  ◌<|>◌, ◌==◌, ◌||◌, ◌∷◌,
}
use rule_base_proxy.Net.{Ip}
use rule_base_proxy.LruCache.Cache.{Cache, set_with_expire}
use rule_base_proxy.Rule.Matching.{text_Eq}

-- The numbers of the library's constants.
abbrev pub type_a : ℕ
type_a = 1

abbrev pub type_aaaa : ℕ
type_aaaa = 28

abbrev pub type_svcb : ℕ
type_svcb = 64

abbrev pub type_https : ℕ
type_https = 65

abbrev pub class_inet : ℕ
class_inet = 1

abbrev pub rcode_success : ℕ
rcode_success = 0

pub record Question : Type 0 where
  pub name : Text
  pub qtype : ℕ
  pub qclass : ℕ

pub record Header : Type 0 where
  pub name : Text
  pub rrtype : ℕ
  pub class : ℕ
  pub ttl : ℕ

pub data Rr : Type 0 where
  rr_a rr_aaaa : Header → Ip → Rr
  rr_other : Header → Rr

pub record Msg : Type 0 where
  pub question : List Question
  pub answer : List Rr
  pub ns : List Rr
  pub extra : List Rr
  pub rcode : ℕ
  pub authoritative : Bool
  pub recursion_available : Bool

-- `SetRcode`, `SetQuestion(Fqdn(host), type)` and `Question.String`.
pub record Lib : Type 0 where
  pub set_rcode : Msg → Msg → ℕ → Msg
  pub ask : Text → ℕ → Msg
  pub key_of : Question → Text

-- A reply, or an error by its text.
pub data Answer : Type 0 where
  reply : Msg → Answer
  refused : Text → Answer

abbrev pub header : Rr → Header
header (rr_a h ip) = h
header (rr_aaaa h ip) = h
header (rr_other h) = h

abbrev pub address : Rr → Option Ip
address (rr_a h ip) = some ip
address (rr_aaaa h ip) = some ip
address (rr_other h) = none

-- `answer.Header().Ttl = ttl`
abbrev pub with_ttl : ℕ → Rr → Rr
with_ttl ttl (rr_a h ip) = rr_a (record h { ttl = ttl }) ip
with_ttl ttl (rr_aaaa h ip) = rr_aaaa (record h { ttl = ttl }) ip
with_ttl ttl (rr_other h) = rr_other (record h { ttl = ttl })

unfoldable pub set_msg_ttl : Msg → ℕ → Msg
set_msg_ttl msg ttl = record msg {
  answer = map (with_ttl ttl) msg.answer;
  ns = map (with_ttl ttl) msg.ns;
  extra = map (with_ttl ttl) msg.extra;
}

abbrev pub first_ttl : List Rr → Option ℕ
first_ttl [] = none
first_ttl (x ∷ _) = some (header x).ttl

-- The time to live that `putMsgToCache` takes, from the first section that has a record.
unfoldable pub cache_ttl : Msg → Option ℕ
cache_ttl msg = first_ttl msg.answer <|> first_ttl msg.ns <|> first_ttl msg.extra

-- `putMsgToCache` at the second `now`.
unfoldable pub put_msg_to_cache : ℕ → Cache Text Msg → Text → Msg → Cache Text Msg
put_msg_to_cache now c key msg = elim (cache_ttl msg) [
  | none ↦ c
  | some ttl ↦ set_with_expire now c key msg (now + ttl)
]

unfoldable pub is_ip_request : Question → Bool
is_ip_request q = q.qclass == class_inet && (q.qtype == type_a || q.qtype == type_aaaa)

unfoldable pub handle_msg_with_empty_answer : Lib → Msg → Msg
handle_msg_with_empty_answer lib r =
    let blank : Msg = record {
      question = [];
      answer = [];
      ns = [];
      extra = [];
      rcode = 0;
      authoritative = false;
      recursion_available = false;
    } in
    record (lib.set_rcode blank r rcode_success) {
      authoritative = true;
      recursion_available = true;
    }

unfoldable pub addresses : List Rr → List Ip
addresses [] = []
addresses (x ∷ l) = elim (address x) [ some ip ↦ ip ∷ addresses l | none ↦ addresses l ]

abbrev pub msg_to_ip : Msg → List Ip
msg_to_ip msg = addresses msg.answer

-- `strings.TrimRight(s, ".")`
unfoldable pub trim_right_dots : Text → Text
trim_right_dots [] = []
trim_right_dots (b ∷ s) =
    let rest = trim_right_dots s in if b == b'.' && empty rest then [] else b ∷ rest

unfoldable pub msg_to_domain : Msg → Text
msg_to_domain msg = elim msg.question [ q ∷ _ ↦ trim_right_dots q.name | [] ↦ [] ]
