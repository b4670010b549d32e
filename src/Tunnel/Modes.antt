-- ===== src/Tunnel/Modes.antt =====
-- `TunnelMode` of tunnel/mode.go and `resolveMetadata` of tunnel/tunnel.go.
use rule_base_proxy.Common.{Option, Text, codes, if◌then◌else◌, none, some, text_eq, to_lower, ◌≡◌}
use rule_base_proxy.Net.{Ip}
use rule_base_proxy.Rule.Metadata.{Metadata}
use rule_base_proxy.Rule.Matching.{World, State}
use rule_base_proxy.Tunnel.Dispatch.{Config, proxy_of}
use rule_base_proxy.Tunnel.RuleCache.{Lru, Answer, match_hash_map}

pub data Mode : Type 0 where
  global rule direct : Mode

-- `TunnelMode.String`
unfoldable pub mode_string : Mode → Text
mode_string global = codes "global"
mode_string rule = codes "rule"
mode_string direct = codes "direct"

-- `ModeMapping[strings.ToLower(tp)]`, or none for `invalid mode`.
unfoldable pub parse_mode : Text → Option Mode
parse_mode tp =
    let name : Text = to_lower tp in
    if text_eq name (codes "global")
    then some global
    else if text_eq name (codes "rule")
    then some rule
    else if text_eq name (codes "direct")
    then some direct
    else none

-- The answer in a mode that looks at no rule.
unfoldable pub fixed_adapter : {C : Type 0} → Config → Text → Metadata → State → C → Answer C
fixed_adapter c name m s cm = record {
  metadata = m;
  state = s;
  cache = cm;
  adapter = proxy_of name c.proxies;
  rule = none;
}

-- `resolveMetadata`
unfoldable pub resolve_metadata :
    {C : Type 0}
    → Lru C
    → (Text → Option Ip)
    → World
    → Config
    → Mode
    → Metadata
    → State
    → C
    → Option (Answer C)
resolve_metadata lru resolve w c mode m s cm = elim mode [
  | direct ↦ some (fixed_adapter c (codes "DIRECT") m s cm)
  | global ↦ some (fixed_adapter c (codes "GLOBAL") m s cm)
  | rule ↦ match_hash_map lru resolve w c m s cm
]

-- A mode is read back from its name, in whatever case it is written.
pub parse_mode-mode_string :
    (mode : Mode) (s : Text) → to_lower s ≡ mode_string mode → parse_mode s ≡ some mode
unfolding parse_mode mode_string text_eq
parse_mode-mode_string global s h = rw h
parse_mode-mode_string rule s h = rw h
parse_mode-mode_string direct s h = rw h
