-- ===== src/Smart/Strategy/Resumes.antt =====
-- What NewDialer of x/smart/stream_dialer.go leaves in the cache, and what the next NewDialer makes of it.
use bfx_outline_sdk.Prelude.{
  All, subst, ◌≡◌, String, Bool, true, Option, none, some, List, [], ◌∷◌, if◌then◌else◌, ◌⊎◌, inl,
  inr, ap, ◌∙◌, refl,
}
use bfx_outline_sdk.Io.{Bytes, GoError, Fallible, is_some}
use bfx_outline_sdk.Smart.Strategy.{
  Config, promote_to_front, entries, contains, exclusive, get_fallback_if_exclusive, ranked_or,
  rank_parsed, rank_strategies_from_cache, new_proxyless_winning_config,
  new_fallback_winning_config,
}
use bfx_outline_sdk.Smart.Strategy.Finder.{
  Searches, DialerOutcome, persist, from_fallback, or_fallback, from_proxyless, find_winner,
  first_works, try_first, dial_parsed,
}

module _ {D F Dialer : Type 0} (s : Searches D F Dialer) (same_dns : D → D → Bool)
    (same_fallback : F → F → Bool) where
  -- What the cache holds after a search that succeeded, by what the next one makes of it: the winner's
  -- entries at the front, or its fallback to be tried first.
  abbrev pub Leaves : Config D F → Config D F → DialerOutcome Dialer → Type 0
  Leaves input config o =
      ((d : Dialer) × (dns : Option D) × (tls : String) × (s.proxyless config ≡ inr (d, dns, tls))
        × (o.dialer ≡ some d)
        × (rank_strategies_from_cache same_dns same_fallback s.parse o.cache input ≡ (
          promote_to_front same_dns same_fallback (new_proxyless_winning_config dns tls) input,
          none,
        )))
      ⊎ ((d : Dialer) × (f : F) × (fs : List F) × (config.fallback ≡ some fs)
          × (s.find_any fs ≡ inr (d, f))
          × (o.dialer ≡ some d)
          × (rank_strategies_from_cache same_dns same_fallback s.parse o.cache input
              ≡ (input, some f)))

  -- The outcome of a search: an error, and nothing in the cache; or a dialer.
  abbrev pub Searched : Config D F → Config D F → DialerOutcome Dialer → Type 0
  Searched input config o =
      ((is_some o.err ≡ true) × (o.cache ≡ none)) ⊎ ((o.err ≡ none) × Leaves input config o)

  -- A fallback that is tried first, and the search that follows if it does not work.
  abbrev pub First :
      Option Bytes → Config D F → Config D F → Option F → DialerOutcome Dialer → Type 0
  First cache input config first o =
      ((f : F) × (d : Dialer) × (g : F) × (first ≡ some f)
        × (s.find_first (f ∷ []) ≡ inr (d, g))
        × (o ≡ record { dialer = some d; err = none; cache = cache }))
      ⊎ Searched input config o

  no_exclusive :
      (xs : List D) (ys : List String) (known : List F)
      → exclusive same_dns same_fallback xs ys [] known ≡ none
  no_exclusive [] [] known = refl
  no_exclusive [] (y ∷ ys) known = refl
  no_exclusive (x ∷ xs) ys known = refl

  ranks-proxyless :
      (input : Config D F) (dns : Option D) (tls : String) (b : Bytes)
      → s.parse b ≡ inr (new_proxyless_winning_config dns tls)
      → rank_strategies_from_cache same_dns same_fallback s.parse (some b) input ≡ (
        promote_to_front same_dns same_fallback (new_proxyless_winning_config dns tls) input,
        none,
      )
  unfolding rank_strategies_from_cache get_fallback_if_exclusive
  ranks-proxyless input dns tls b e =
      let w : Config D F = new_proxyless_winning_config dns tls in
      ap (λ r. rank_parsed same_dns same_fallback r input) e
      ∙ ap (ranked_or same_dns same_fallback w input)
          (no_exclusive w.dns w.tls (entries input.fallback))

  ranks-fallback :
      (input : Config D F) (f : F) (b : Bytes)
      → s.parse b ≡ inr (new_fallback_winning_config f)
      → contains (λ e. same_fallback e f) (entries input.fallback) ≡ true
      → rank_strategies_from_cache same_dns same_fallback s.parse (some b) input ≡ (input, some f)
  unfolding rank_strategies_from_cache get_fallback_if_exclusive
  ranks-fallback input f b e c =
      let w : Config D F = new_fallback_winning_config f in
      let branch : Bool → Config D F × Option F =
        λ k. ranked_or same_dns same_fallback w input (if k then some f else none) in
      ap (λ r. rank_parsed same_dns same_fallback r input) e ∙ ap branch c

  ranked_or-fallback :
      (w input : Config D F) (o : Option F)
      → input.fallback ≡ (ranked_or same_dns same_fallback w input o).0.fallback
  unfolding promote_to_front
  ranked_or-fallback w input none = refl
  ranked_or-fallback w input (some f) = refl

  rank_parsed-fallback :
      (r : Fallible (Config D F)) (input : Config D F)
      → input.fallback ≡ (rank_parsed same_dns same_fallback r input).0.fallback
  rank_parsed-fallback (inl e) input = refl
  rank_parsed-fallback (inr w) input =
      ranked_or-fallback w input (get_fallback_if_exclusive same_dns same_fallback w input)

  ranked-fallback :
      (input : Config D F) (cache : Option Bytes)
      → input.fallback
        ≡ (rank_strategies_from_cache same_dns same_fallback s.parse cache input).0.fallback
  unfolding rank_strategies_from_cache
  ranked-fallback input none = refl
  ranked-fallback input (some b) = rank_parsed-fallback (s.parse b) input

  module _ (Stable : F → Type 0)
      (parses_proxyless : (dns : Option D) (tls : String) (b : Bytes)
        → s.to_yaml (new_proxyless_winning_config dns tls) ≡ inr b
        → s.parse b ≡ inr (new_proxyless_winning_config dns tls))
      (parses_fallback : (f : F) (b : Bytes)
        → Stable f
        → s.to_yaml (new_fallback_winning_config f) ≡ inr b
        → s.parse b ≡ inr (new_fallback_winning_config f))
      (finds : (fs : List F) (d : Dialer) (f : F)
        → All Stable fs
        → s.find_any fs ≡ inr (d, f)
        → (contains (λ e. same_fallback e f) fs ≡ true) × Stable f) where
    persist-proxyless :
        (input config : Config D F) (d : Dialer) (dns : Option D) (tls : String)
        (y : Fallible Bytes)
        → s.to_yaml (new_proxyless_winning_config dns tls) ≡ y
        → s.proxyless config ≡ inr (d, dns, tls)
        → Searched input config (persist s d y)
    persist-proxyless input config d dns tls (inl e) q p = inl (refl, refl)
    persist-proxyless input config d dns tls (inr b) q p = inr (
      refl,
      inl (d, dns, tls, p, refl, ranks-proxyless input dns tls b (parses_proxyless dns tls b q)),
    )

    persist-fallback :
        (input config : Config D F) (fs : List F) (d : Dialer) (f : F) (y : Fallible Bytes)
        → s.to_yaml (new_fallback_winning_config f) ≡ y
        → config.fallback ≡ some fs
        → entries input.fallback ≡ fs
        → All Stable fs
        → s.find_any fs ≡ inr (d, f)
        → Searched input config (persist s d y)
    persist-fallback input config fs d f (inl e) q c i k p = inl (refl, refl)
    persist-fallback input config fs d f (inr b) q c i k p =
        let (among, stable) = finds fs d f k p in
        inr (
          refl,
          inr (
            d,
            f,
            fs,
            c,
            p,
            refl,
            ranks-fallback input f b (parses_fallback f b stable q)
                (ap (contains (λ e. same_fallback e f)) i ∙ among),
          ),
        )

    from_fallback-Searched :
        (input config : Config D F) (fs : List F) (r : Fallible (Dialer × F))
        → config.fallback ≡ some fs
        → entries input.fallback ≡ fs
        → All Stable fs
        → s.find_any fs ≡ r
        → Searched input config (from_fallback s r)
    from_fallback-Searched input config fs (inl e) c i k p = inl (refl, refl)
    from_fallback-Searched input config fs (inr (d, f)) c i k p =
        persist-fallback input config fs d f (s.to_yaml (new_fallback_winning_config f)) refl c i k
          p

    or_fallback-Searched :
        (input config : Config D F) (o : Option (List F)) (e : GoError)
        → config.fallback ≡ o
        → input.fallback ≡ o
        → All Stable (entries input.fallback)
        → Searched input config (or_fallback s o e)
    or_fallback-Searched input config none e c i k = inl (refl, refl)
    or_fallback-Searched input config (some fs) e c i k =
        from_fallback-Searched input config fs (s.find_any fs) c (ap entries i)
          (subst (All Stable) (ap entries i) k) refl

    from_proxyless-Searched :
        (input config : Config D F) (r : Fallible (Dialer × Option D × String))
        → input.fallback ≡ config.fallback
        → All Stable (entries input.fallback)
        → s.proxyless config ≡ r
        → Searched input config (from_proxyless s config.fallback r)
    from_proxyless-Searched input config (inl e) i k p =
        or_fallback-Searched input config config.fallback e refl i k
    from_proxyless-Searched input config (inr (d, dns, tls)) i k p =
        persist-proxyless input config d dns tls (s.to_yaml (new_proxyless_winning_config dns tls))
          refl p

    first_works-First :
        (cache : Option Bytes) (input config : Config D F) (f : F) (r : Fallible (Dialer × F))
        (rest : DialerOutcome Dialer)
        → s.find_first (f ∷ []) ≡ r
        → Searched input config rest
        → First cache input config (some f) (first_works s cache r rest)
    first_works-First cache input config f (inl e) rest p h = inr h
    first_works-First cache input config f (inr (d, g)) rest p h = inl (f, d, g, refl, p, refl)

    try_first-First :
        (cache : Option Bytes) (input config : Config D F) (first : Option F)
        (rest : DialerOutcome Dialer)
        → Searched input config rest
        → First cache input config first (try_first s first cache rest)
    try_first-First cache input config none rest h = inr h
    try_first-First cache input config (some f) rest h =
        first_works-First cache input config f (s.find_first (f ∷ [])) rest refl h

    pub dial_parsed-Resumes :
        (input : Config D F) (cache : Option Bytes)
        → All Stable (entries input.fallback)
        → let ranked = rank_strategies_from_cache same_dns same_fallback s.parse cache input in
          First cache input ranked.0 ranked.1 (dial_parsed s same_dns same_fallback input cache)
    unfolding dial_parsed find_winner
    dial_parsed-Resumes input cache k =
        let ranked = rank_strategies_from_cache same_dns same_fallback s.parse cache input in
        try_first-First cache input ranked.0 ranked.1 (find_winner s ranked.0) (
          from_proxyless-Searched input ranked.0 (s.proxyless ranked.0)
            (ranked-fallback input cache) k refl)
