-- ===== src/Tests/Finder.antt =====
-- Tests and instances for NewDialer of the smart dialer.
use bfx_outline_sdk.Prelude.{
  ℕ, zero, suc, ◌+◌, ◌≡◌, ◌==◌, String, Bool, true, Option, none, some, List, [], ◌∷◌, inl, inr,
  refl, arith, subst, All, if◌then◌else◌,
}
use bfx_outline_sdk.Io.{Bytes, Fault, Fallible, eof}
use bfx_outline_sdk.Smart.Cache.{move_to_front}
use bfx_outline_sdk.Smart.Racer.{new_test_race, start_test, select_race, race_round}
use bfx_outline_sdk.Smart.Racer.Run.{Order, waited, answered, run_race, race_tests}
use bfx_outline_sdk.Smart.Strategy.{
  Config, entries, promote_to_front, get_fallback_if_exclusive, rank_strategies_from_cache,
  new_proxyless_winning_config, new_fallback_winning_config,
}
use bfx_outline_sdk.Smart.Strategy.Parse.{
  Yaml, text_entry, parse_entry, parse_config, RoundTrips, Stable,
}
use bfx_outline_sdk.Smart.Strategy.Search.{
  Network, find_dns, find_tls, find_fallback, new_proxyless_dialer,
}
use bfx_outline_sdk.Smart.Strategy.Finder.{searches, find_winner, dial_parsed, new_dialer}
use bfx_outline_sdk.Smart.Strategy.Resumes.{First}
use bfx_outline_sdk.Smart.Strategy.Resumed.{ReadsBack, new_dialer-Resumes}

abbrev Conf : Type 0
Conf = Config ℕ ℕ

abbrev input : Conf
input = record { dns = 1 ∷ 2 ∷ 3 ∷ []; tls = []; fallback = some (7 ∷ 8 ∷ []) }

-- The text of a winner has its kind and its entry, where it has just one.
abbrev write : List ℕ → List String → Option (List ℕ) → Fallible Bytes
write [] [] (some (f ∷ [])) = inr (0 ∷ f ∷ [])
write (d ∷ []) [] none = inr (1 ∷ d ∷ [])
write _ _ _ = inl eof

abbrev read_map : Bytes → Fallible (List (Bytes × ℕ))
read_map (k ∷ v ∷ []) = inr ((k ∷ [], v) ∷ [])
read_map _ = inl eof

abbrev write_map : List (Bytes × ℕ) → Fallible Bytes
write_map ((k ∷ [], v) ∷ []) = inr (k ∷ v ∷ [])
write_map _ = inl eof

-- Of another kind is the config of the tests.
abbrev decode : Bytes → Fallible Conf
decode (zero ∷ f ∷ []) = inr (new_fallback_winning_config f)
decode (suc zero ∷ d ∷ []) = inr (record { dns = d ∷ []; tls = []; fallback = none })
decode (suc (suc k) ∷ v ∷ []) = inr input
decode _ = inl eof

abbrev yaml : Yaml ℕ ℕ
yaml = record {
  kind = λ v. text_entry;
  unmarshal_map = read_map;
  marshal_map = write_map;
  decode_config = decode;
  decode_entry = λ b. inl eof;
  marshal_winner = λ w. write w.dns w.tls w.fallback;
}

read-write :
    (ds : List ℕ) (ts : List String) (fs : Option (List ℕ)) (b : Bytes)
    → write ds ts fs ≡ inr b
    → RoundTrips yaml (record { dns = ds; tls = ts; fallback = fs }) b
read-write [] [] (some (f ∷ [])) b e =
    let w : Conf = new_fallback_winning_config f in
    let same : 0 ∷ f ∷ [] ≡ b = cc e in
    let r : RoundTrips yaml w (0 ∷ f ∷ []) = record {
      fields = (0 ∷ [], f) ∷ [];
      yaml_text = 0 ∷ f ∷ [];
      read = refl;
      plain = (refl, tt);
      written = refl;
      decoded = refl;
    } in
    subst (RoundTrips yaml w) same r
read-write (d ∷ []) [] none b e =
    let w : Conf = record { dns = d ∷ []; tls = []; fallback = none } in
    let same : 1 ∷ d ∷ [] ≡ b = cc e in
    let r : RoundTrips yaml w (1 ∷ d ∷ []) = record {
      fields = (1 ∷ [], d) ∷ [];
      yaml_text = 1 ∷ d ∷ [];
      read = refl;
      plain = (refl, tt);
      written = refl;
      decoded = refl;
    } in
    subst (RoundTrips yaml w) same r
read-write ds ts fs b e = absurd (ground arith)

reads : ReadsBack yaml
reads = record {
  proxyless = λ dns tls b e.
      let w : Conf = new_proxyless_winning_config dns tls in read-write w.dns w.tls w.fallback b e;
  fallback = λ f b k e. read-write [] [] (some (f ∷ [])) b e;
}

-- The third resolver works, and all fallbacks do.
abbrev answers : Option ℕ → Fault
answers none = some eof
answers (some r) = if r == 3 then none else some eof

-- Each test ends before the next is started.
abbrev one_by_one : Order
one_by_one = record {
  turns = waited ∷ answered 0 ∷ waited ∷ answered 0 ∷ waited ∷ answered 0 ∷ [];
  last = eof;
}

abbrev net : Network ℕ ℕ ℕ ℕ
net = record {
  new_resolver = λ d. inr (some d);
  test_resolver = answers;
  base_is_tcp = true;
  base = 0;
  dns_dialer = λ r. inr (100 + r);
  tls_dialer = λ d r t. inl eof;
  test_dialer = λ d. none;
  make_dialer = λ f. inr f;
  by_port = λ a b. b;
  dns_order = one_by_one;
  tls_order = one_by_one;
  fallback_order = one_by_one;
}

abbrev same : ℕ → ℕ → Bool
same a b = a == b

same_refl : (n : ℕ) → same n n ≡ true
same_refl n = ground arith

parsed : parse_config yaml (2 ∷ 0 ∷ []) ≡ inr input
unfolding parse_config parse_entry
parsed = refl

stable : All (Stable yaml) (entries input.fallback)
unfolding parse_entry
stable = (refl, (refl, tt))

fallback_runs : find_fallback net (7 ∷ 8 ∷ []) ≡ inr (7, 7)
unfolding find_fallback race_tests run_race new_test_race race_round select_race start_test
fallback_runs = refl

-- The third DNS entry is found and written to the cache.
proxyless_runs :
    new_dialer (searches yaml net net) same same (2 ∷ 0 ∷ []) none
    ≡ record { dialer = some 103; err = none; cache = some (1 ∷ 3 ∷ []) }
unfolding new_dialer dial_parsed find_winner new_proxyless_dialer find_dns find_tls parse_config
    parse_entry rank_strategies_from_cache race_tests run_race new_test_race race_round select_race
    start_test
proxyless_runs = refl

-- The next NewDialer moves it to the front.
resumed :
    (rank_strategies_from_cache same same (parse_config yaml) (some (1 ∷ 3 ∷ [])) input).0.dns
    ≡ 3 ∷ 1 ∷ 2 ∷ []
unfolding parse_config parse_entry rank_strategies_from_cache get_fallback_if_exclusive
    promote_to_front move_to_front
resumed = refl

new_dialer-Resumes_example :
    First
      (searches yaml net net)
      same
      same
      none
      input
      input
      none
      (new_dialer (searches yaml net net) same same (2 ∷ 0 ∷ []) none)
unfolding rank_strategies_from_cache
new_dialer-Resumes_example =
    new_dialer-Resumes yaml net net same same (2 ∷ 0 ∷ []) input none reads same_refl parsed stable
