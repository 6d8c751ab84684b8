-- ===== src/Smart/Strategy/Finder.antt =====
-- NewDialer of x/smart/stream_dialer.go with a cache, over parseConfig and toYAML (Strategy/Parse) and the
-- searches (Strategy/Search).
use bfx_outline_sdk.Prelude.{String, Bool, Option, none, some, List, [], ◌∷◌, inl, inr}
use bfx_outline_sdk.Io.{Bytes, Fault, GoError, Fallible}
use bfx_outline_sdk.Smart.Strategy.Parse.{Yaml, parse_config}
use bfx_outline_sdk.Smart.Strategy.Search.{Network, find_fallback, new_proxyless_dialer}
use bfx_outline_sdk.Smart.Strategy.{
  Config, rank_strategies_from_cache, new_proxyless_winning_config, new_fallback_winning_config,
}

-- What NewDialer calls.
pub record Searches (D F Dialer : Type 0) : Type 0 where
  pub parse : Bytes → Fallible (Config D F)
  pub to_yaml : Config D F → Fallible Bytes
  pub find_first : List F → Fallible (Dialer × F)
  pub proxyless : Config D F → Fallible (Dialer × Option D × String)
  pub find_any : List F → Fallible (Dialer × F)

-- parseConfig, toYAML and the searches: `first` is the network when the cached fallback is tried, `net`
-- when all is searched.
abbrev pub searches :
    {D F Resolver Dialer : Type 0}
    → Yaml D F
    → Network D F Resolver Dialer
    → Network D F Resolver Dialer
    → Searches D F Dialer
searches y first net = record {
  parse = parse_config y;
  to_yaml = y.marshal_winner;
  find_first = find_fallback first;
  proxyless = λ config. new_proxyless_dialer net config.dns config.tls;
  find_any = find_fallback net;
}

-- What NewDialer returns, and what it leaves in the cache.
pub record DialerOutcome (Dialer : Type 0) : Type 0 where
  pub dialer : Option Dialer
  pub err : Fault
  pub cache : Option Bytes

module _ {D F Dialer : Type 0} (s : Searches D F Dialer) where
  -- The winner is put into the cache, or nil.
  abbrev pub persist : Dialer → Fallible Bytes → DialerOutcome Dialer
  persist d (inr bytes) = record { dialer = some d; err = none; cache = some bytes }
  persist d (inl e) = record { dialer = some d; err = some e; cache = none }

  abbrev pub nothing_found : GoError → DialerOutcome Dialer
  nothing_found e = record { dialer = none; err = some e; cache = none }

  abbrev pub from_fallback : Fallible (Dialer × F) → DialerOutcome Dialer
  from_fallback (inl e) = nothing_found e
  from_fallback (inr (d, f)) = persist d (s.to_yaml (new_fallback_winning_config f))

  abbrev pub or_fallback : Option (List F) → GoError → DialerOutcome Dialer
  or_fallback none e = nothing_found e
  or_fallback (some fs) e = from_fallback (s.find_any fs)

  abbrev pub from_proxyless :
      Option (List F) → Fallible (Dialer × Option D × String) → DialerOutcome Dialer
  from_proxyless fallback (inl e) = or_fallback fallback e
  from_proxyless fallback (inr (d, dns, tls)) =
      persist d (s.to_yaml (new_proxyless_winning_config dns tls))

  -- The search, with what is put into the cache.
  unfoldable pub find_winner : Config D F → DialerOutcome Dialer
  find_winner config = from_proxyless config.fallback (s.proxyless config)

  -- A fallback to try first, which leaves the cache as it is if it works.
  abbrev pub first_works :
      Option Bytes → Fallible (Dialer × F) → DialerOutcome Dialer → DialerOutcome Dialer
  first_works cache (inl e) rest = rest
  first_works cache (inr (d, f)) rest = record { dialer = some d; err = none; cache = cache }

  abbrev pub try_first : Option F → Option Bytes → DialerOutcome Dialer → DialerOutcome Dialer
  try_first none cache rest = rest
  try_first (some f) cache rest = first_works cache (s.find_first (f ∷ [])) rest

  -- NewDialer behind its parseConfig.
  unfoldable pub dial_parsed :
      (D → D → Bool) → (F → F → Bool) → Config D F → Option Bytes → DialerOutcome Dialer
  dial_parsed same_dns same_fallback input cache =
      let ranked = rank_strategies_from_cache same_dns same_fallback s.parse cache input in
      try_first ranked.1 cache (find_winner ranked.0)

  -- NewDialer with a cache, which holds `cache` for the winning strategy. A config that does not parse
  -- leaves the cache as it is.
  abbrev pub after_parse :
      (D → D → Bool) → (F → F → Bool) → Option Bytes → Fallible (Config D F) → DialerOutcome Dialer
  after_parse same_dns same_fallback cache (inl e) = record {
    dialer = none;
    err = some e;
    cache = cache;
  }
  after_parse same_dns same_fallback cache (inr input) =
      dial_parsed same_dns same_fallback input cache

  unfoldable pub new_dialer :
      (D → D → Bool) → (F → F → Bool) → Bytes → Option Bytes → DialerOutcome Dialer
  new_dialer same_dns same_fallback config_bytes cache =
      after_parse same_dns same_fallback cache (s.parse config_bytes)
