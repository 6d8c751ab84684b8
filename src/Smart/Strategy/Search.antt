-- ===== src/Smart/Strategy/Search.antt =====
-- newProxylessDialer, findDNS, findTLS and findFallback of x/smart/stream_dialer.go. The tests reach the
-- network and the dialers are made by other packages: what these answer, and the order in which the tests
-- of a race end, is given for each search.
use bfx_outline_sdk.Prelude.{
  String, Bool, true, false, Option, none, some, List, [], ◌∷◌, if◌then◌else◌, inl, inr, not,
}
use bfx_outline_sdk.Io.{Fault, Fallible, wrap, ◌>>=◌, guard, ◌>>◌, message}
use bfx_outline_sdk.Smart.Racer.Run.{Order, race_tests}

-- newDNSResolverFromEntry, for which `none` is the nil resolver of the system, with the YAML of the entry;
-- testDNSResolver over the domains; the base dialer of the finder, and whether it is a TCPDialer;
-- NewStreamDialer of package dns over the cache; the dialers of package configurl; testDialer;
-- makeDialerFromConfig; and the dialer that findTLS puts together. Then the orders of the races.
pub record Network (D V Resolver Dialer : Type 0) : Type 0 where
  pub new_resolver : D → Fallible (Option Resolver)
  pub test_resolver : Option Resolver → Fault
  pub base_is_tcp : Bool
  pub base : Dialer
  pub dns_dialer : Resolver → Fallible Dialer
  pub tls_dialer : Dialer → Option Resolver → String → Fallible Dialer
  pub test_dialer : Dialer → Fault
  pub make_dialer : V → Fallible Dialer
  pub by_port : Dialer → Dialer → Dialer
  pub dns_order : Order
  pub tls_order : Order
  pub fallback_order : Order

-- The result of a test, when the test of what it made returns this error.
abbrev pub tested : {A : Type 0} → A → Fault → Fallible A
tested a none = inr a
tested a (some e) = inl e

abbrev pub has_none : {A : Type 0} → List A → Bool
has_none [] = true
has_none (_ ∷ _) = false

module _ {D V Resolver Dialer : Type 0} (net : Network D V Resolver Dialer) where
  abbrev pub cons_resolver :
      D → Option Resolver → List (D × Option Resolver) → Fallible (List (D × Option Resolver))
  cons_resolver d r rts = inr ((d, r) ∷ rts)

  -- The loop of dnsConfigToResolver.
  abbrev pub resolvers : List D → Fallible (List (D × Option Resolver))
  resolvers [] = inr []
  resolvers (d ∷ ds) =
      wrap "failed to process entry" (net.new_resolver d) >>= λ (r : Option Resolver).
      resolvers ds >>= λ (rts : List (D × Option Resolver)). cons_resolver d r rts

  abbrev pub dns_config_to_resolver : List D → Fallible (List (D × Option Resolver))
  dns_config_to_resolver ds =
      guard (not (has_none ds)) (message "no DNS config entry") >> resolvers ds

  abbrev pub test_dns : D × Option Resolver → Fallible (D × Option Resolver)
  test_dns x = tested x (net.test_resolver x.1)

  unfoldable pub find_dns : List D → Fallible (D × Option Resolver)
  find_dns ds = dns_config_to_resolver ds >>= λ (rts : List (D × Option Resolver)).
      wrap "could not find working resolver" (race_tests rts test_dns net.dns_order)

  abbrev pub test_tls : Dialer → Option Resolver → String → Fallible (Dialer × String)
  test_tls base_dialer r transport_cfg =
      wrap "NewStreamDialer failed" (net.tls_dialer base_dialer r transport_cfg) >>= λ (d : Dialer).
      tested (d, transport_cfg) (net.test_dialer d)

  unfoldable pub find_tls : Dialer → Option Resolver → List String → Fallible (Dialer × String)
  find_tls base_dialer r tls =
      guard (not (has_none tls)) (message "config for TLS is empty")
      >> (wrap "could not find TLS strategy" (race_tests tls (test_tls base_dialer r) net.tls_order)
          >>= λ (x : Dialer × String). inr (net.by_port base_dialer x.0, x.1))

  abbrev pub test_fallback : V → Fallible (Dialer × V)
  test_fallback f = net.make_dialer f >>= λ (d : Dialer). tested (d, f) (net.test_dialer d)

  unfoldable pub find_fallback : List V → Fallible (Dialer × V)
  find_fallback fs =
      guard (not (has_none fs)) (message "no fallback configuration was specified")
      >> wrap "could not find a working fallback" (race_tests fs test_fallback net.fallback_order)

  -- The dialer that resolves with what findDNS found.
  abbrev pub with_resolver : Option Resolver → Fallible Dialer
  with_resolver none = guard net.base_is_tcp (message "cannot use system resolver") >> inr net.base
  with_resolver (some r) = wrap "dns.NewStreamDialer failed" (net.dns_dialer r)

  unfoldable pub new_proxyless_dialer : List D → List String → Fallible (Dialer × Option D × String)
  new_proxyless_dialer dns tls = find_dns dns >>= λ (x : D × Option Resolver).
      with_resolver x.1 >>= λ (dns_dialer : Dialer).
      if has_none tls
      then inr (dns_dialer, some x.0, "")
      else (find_tls dns_dialer x.1 tls >>= λ (t : Dialer × String). inr (t.0, some x.0, t.1))
