-- ===== src/Smart/Strategy/Resumed.antt =====
-- A NewDialer of x/smart/stream_dialer.go, and the next one with the same config.
use bfx_outline_sdk.Prelude.{
  subst, subst, ℕ, zero, suc, ◌≡◌, String, Bool, true, false, Option, none, some, List, [], ◌∷◌,
  if◌then◌else◌, inl, inr, All, ap, ◌∙◌, sym, Bool-cases, not,
}
use bfx_outline_sdk.Io.{
  Bytes, GoError, Fault, Fallible, wrap-inr, Fallible-cases, ◌>>=◌, guard, ◌>>◌,
}
use bfx_outline_sdk.Smart.Racer.Run.{entry_at, race_tests-Found}
use bfx_outline_sdk.Smart.Strategy.{
  Config, entries, contains, rank_strategies_from_cache, new_proxyless_winning_config,
  new_fallback_winning_config,
}
use bfx_outline_sdk.Smart.Strategy.Parse.{
  Yaml, parse_config, Stable, RoundTrips, parse_config-proxyless, parse_config-fallback,
}
use bfx_outline_sdk.Smart.Strategy.Search.{Network, tested, has_none, test_fallback, find_fallback}
use bfx_outline_sdk.Smart.Strategy.Finder.{searches, new_dialer, after_parse, DialerOutcome}
use bfx_outline_sdk.Smart.Strategy.Resumes.{First, dial_parsed-Resumes}

-- The YAML of the winners that NewDialer writes can be read again: a proxyless one, and that of a fallback
-- that parseConfig leaves as it is.
pub record ReadsBack {D V : Type 0} (y : Yaml D V) : Type 0 where
  pub proxyless :
      (dns : Option D) (tls : String) (b : Bytes)
      → y.marshal_winner (new_proxyless_winning_config dns tls) ≡ inr b
      → RoundTrips y (new_proxyless_winning_config dns tls) b
  pub fallback :
      (f : V) (b : Bytes)
      → Stable y f
      → y.marshal_winner (new_fallback_winning_config f) ≡ inr b
      → RoundTrips y (new_fallback_winning_config f) b

module _ {D V Resolver Dialer : Type 0} (y : Yaml D V) (first net : Network D V Resolver Dialer)
    (same_dns : D → D → Bool) (same_fallback : V → V → Bool) where
  tested-same :
      (d d' : Dialer) (f f' : V) (e : Fault)
      → ◌≡◌ {A = Fallible (Dialer × V)} (tested {A = Dialer × V} (d, f) e) (inr (d', f'))
      → f ≡ f'
  tested-same d d' f f' none p = cc p
  tested-same d d' f f' (some e) p = absurd (cc p)

  test-same :
      (d : Dialer) (f f' : V)
      → ◌≡◌ {A = Fallible (Dialer × V)} (test_fallback net f) (inr (d, f'))
      → f ≡ f'
  test-same d f f' p =
      let made : Fallible Dialer → Fallible (Dialer × V) =
        λ m. m >>= λ (d : Dialer). tested {A = Dialer × V} (d, f) (net.test_dialer d) in
      elim (Fallible-cases (net.make_dialer f)) [
        | inl (e, q) ↦ absurd (cc (sym (ap made q) ∙ p))
        | inr (d', q) ↦ tested-same d' d f f' (net.test_dialer d') (sym (ap made q) ∙ p)
      ]

  guarded :
      (b : Bool) (e : GoError) (m : Fallible (Dialer × V)) (x : Dialer × V)
      → (guard b e >> m) ≡ inr x
      → m ≡ inr x
  guarded true e m x p = p
  guarded false e m x p = absurd (cc p)

  listed :
      (fs : List V) (i : ℕ) (f : V)
      → ((e : V) → same_fallback e e ≡ true)
      → entry_at fs i ≡ some f
      → All (Stable y) fs
      → (contains (λ e. same_fallback e f) fs ≡ true) × Stable y f
  listed [] i f h p k = absurd (cc p)
  listed (g ∷ fs) zero f h p (k, ks) =
      let same : g ≡ f = cc p in
      let branch : Bool → Bool = λ b. if b then true else contains (λ e. same_fallback e f) fs in
      (ap branch (ap (λ e. same_fallback e f) same ∙ h f), subst (Stable y) same k)
  listed (g ∷ fs) (suc i) f h p (k, ks) =
      let (among, stable) = listed fs i f h p ks in
      let rest = contains (λ e. same_fallback e f) fs in
      let branch : Bool → Bool = λ b. if b then true else rest in
      (
        elim (Bool-cases (same_fallback g f)) [ inl e ↦ ap branch e | inr e ↦ ap branch e ∙ among ],
        stable,
      )

  finds :
      ((e : V) → same_fallback e e ≡ true)
      → (fs : List V) (d : Dialer) (f : V) → All (Stable y) fs
      → find_fallback net fs ≡ inr (d, f)
      → (contains (λ e. same_fallback e f) fs ≡ true) × Stable y f
  unfolding find_fallback
  finds h fs d f k p =
      let raced = wrap-inr _ _ (guarded (not (has_none fs)) _ _ (d, f) p) in
      let (i, e, at, passed) =
        race_tests-Found fs (test_fallback net) net.fallback_order (d, f) raced in
      let same = test-same d e f passed in listed fs i f h (at ∙ ap some same) k

  -- NewDialer with a cache and a config that parses, if the YAML of the winners can be read again, an entry
  -- is DeepEqual to itself and the fallbacks are such as parseConfig leaves as they are. It returns the
  -- dialer of a fallback that was tried first, with the cache as it was; or an error, with nothing in the
  -- cache; or the dialer of a search over the config that the cache ranked, and the next NewDialer with
  -- the same config finds the winner first: its DNS and TLS entries are moved to the front, or its fallback
  -- is tried before all else.
  pub new_dialer-Resumes :
      (config_bytes : Bytes) (input : Config D V) (cache : Option Bytes)
      → ReadsBack y
      → ((e : V) → same_fallback e e ≡ true)
      → parse_config y config_bytes ≡ inr input
      → All (Stable y) (entries input.fallback)
      → let s = searches y first net in
        let ranked =
          rank_strategies_from_cache same_dns same_fallback (parse_config y) cache input in
        First s same_dns same_fallback cache input ranked.0 ranked.1
          (new_dialer s same_dns same_fallback config_bytes cache)
  unfolding new_dialer
  new_dialer-Resumes config_bytes input cache reads equal parsed stable =
      let s = searches y first net in
      let ranked = rank_strategies_from_cache same_dns same_fallback (parse_config y) cache input in
      let out : Fallible (Config D V) → DialerOutcome Dialer =
        after_parse s same_dns same_fallback cache in
      subst (First s same_dns same_fallback cache input ranked.0 ranked.1) (sym (ap out parsed)) (
        dial_parsed-Resumes s same_dns same_fallback (Stable y)
          (λ dns tls b e. parse_config-proxyless y dns tls b (reads.proxyless dns tls b e))
          (λ f b k e. parse_config-fallback y f b k (reads.fallback f b k e)) (finds equal) input
          cache stable)
