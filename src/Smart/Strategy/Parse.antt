-- ===== src/Smart/Strategy/Parse.antt =====
-- parseConfig and mapToAny of x/smart/stream_dialer.go, and toYAML. The YAML package is not code of the
-- repository: its decoders and encoders are parameters.
use bfx_outline_sdk.Prelude.{
  ℕ, ◌≡◌, ◌==◌, Bool, true, false, Option, none, some, List, [], ◌∷◌, if◌then◌else◌, inl, inr, All,
  refl, ap, ◌∙◌, Bool-cases, ◌⊎◌,
}
use bfx_outline_sdk.Io.{Bytes, Fallible, wrap, ◌>>=◌, message}
use bfx_outline_sdk.Smart.Strategy.{
  Config, new_proxyless_winning_config, new_fallback_winning_config,
}

-- What the type switches on a fallback entry tell: a string, a map[string]any, or anything else.
pub data Kind (V : Type 0) : Type 0 where
  text_entry : Kind V
  map_entry : List (Bytes × V) → Kind V
  other_entry : Kind V

-- The functions of the YAML package: Unmarshal into a map, Marshal of a map, the strict decoder for a
-- config and for a fallback entry, and MarshalWithOptions of a winner. `kind` looks at a value.
pub record Yaml (D V : Type 0) : Type 0 where
  pub kind : V → Kind V
  pub unmarshal_map : Bytes → Fallible (List (Bytes × V))
  pub marshal_map : List (Bytes × V) → Fallible Bytes
  pub decode_config : Bytes → Fallible (Config D V)
  pub decode_entry : Bytes → Fallible V
  pub marshal_winner : Config D V → Fallible Bytes

-- A key that starts with "$".
abbrev pub is_dollar : Bytes → Bool
is_dollar [] = false
is_dollar (b ∷ _) = b == 36

abbrev pub skip_dollar : {V : Type 0} → List (Bytes × V) → List (Bytes × V)
skip_dollar [] = []
skip_dollar ((k, v) ∷ m) = if is_dollar k then skip_dollar m else (k, v) ∷ skip_dollar m

module _ {D V : Type 0} (y : Yaml D V) where
  -- mapToAny, with the decoder for its output.
  abbrev pub map_to_any : {A : Type 0} → (Bytes → Fallible A) → List (Bytes × V) → Fallible A
  map_to_any decode m =
      wrap "error marshaling to YAML" (y.marshal_map (skip_dollar m)) >>= λ (yaml_text : Bytes).
      wrap "error decoding YAML" (decode yaml_text)

  abbrev pub parse_kind : V → Kind V → Fallible V
  parse_kind v text_entry = inr v
  parse_kind v (map_entry m) = wrap "failed to parse fallback config" (map_to_any y.decode_entry m)
  parse_kind v other_entry = inl (message "unknown fallback type")

  -- One turn of the loop over the fallbacks.
  unfoldable pub parse_entry : V → Fallible V
  parse_entry v = parse_kind v (y.kind v)

  abbrev pub cons_entry : {A : Type 0} → A → List A → Fallible (List A)
  cons_entry v vs = inr (v ∷ vs)

  abbrev pub parse_entries : List V → Fallible (List V)
  parse_entries [] = inr []
  parse_entries (v ∷ vs) =
      parse_entry v >>= λ (v' : V). parse_entries vs >>= λ (vs' : List V). cons_entry v' vs'

  abbrev pub parse_fallback : Option (List V) → Fallible (Option (List V))
  parse_fallback none = inr none
  parse_fallback (some vs) = parse_entries vs >>= λ (vs' : List V). inr (some vs')

  unfoldable pub parse_config : Bytes → Fallible (Config D V)
  parse_config config_bytes =
      wrap "failed to unmarshal config to map" (y.unmarshal_map config_bytes)
      >>= λ (config_map : List (Bytes × V)).
          wrap "failed to parse config" (map_to_any y.decode_config config_map)
          >>= λ (parsed : Config D V).
              parse_fallback parsed.fallback >>= λ (fallback : Option (List V)).
              inr (record parsed { fallback = fallback })

  -- An entry that parseConfig leaves as it is.
  abbrev pub Stable : V → Type 0
  Stable f = parse_entry f ≡ inr f

  -- No key starts with "$".
  abbrev pub Plain : List (Bytes × V) → Type 0
  Plain = All (λ e. is_dollar e.0 ≡ false)

  -- The YAML of `w` is that of a map with plain keys, which decodes to `w` again.
  pub record RoundTrips (w : Config D V) (b : Bytes) : Type 0 where
    pub fields : List (Bytes × V)
    pub yaml_text : Bytes
    pub read : y.unmarshal_map b ≡ inr fields
    pub plain : Plain fields
    pub written : y.marshal_map fields ≡ inr yaml_text
    pub decoded : y.decode_config yaml_text ≡ inr w

  skip_dollar-Plain : (m : List (Bytes × V)) → Plain m → skip_dollar m ≡ m
  skip_dollar-Plain [] h = refl
  skip_dollar-Plain ((k, v) ∷ m) (e, es) =
      let branch : Bool → List (Bytes × V) =
        λ b. if b then skip_dollar m else (k, v) ∷ skip_dollar m in
      ap branch e ∙ ap (◌∷◌ (k, v)) (skip_dollar-Plain m es)

  pub parse_config-proxyless :
      (dns : Option D) (tls : bfx_outline_sdk.Prelude.String) (b : Bytes)
      → RoundTrips (new_proxyless_winning_config dns tls) b
      → parse_config b ≡ inr (new_proxyless_winning_config dns tls)
  unfolding parse_config
  parse_config-proxyless dns tls b r =
      let plain = skip_dollar-Plain r.fields r.plain in
      rw (r.read, plain, r.written, r.decoded) refl

  pub parse_config-fallback :
      (f : V) (b : Bytes)
      → Stable f
      → RoundTrips (new_fallback_winning_config f) b
      → parse_config b ≡ inr (new_fallback_winning_config f)
  unfolding parse_config
  parse_config-fallback f b stable r =
      let plain = skip_dollar-Plain r.fields r.plain in
      rw (r.read, plain, r.written, r.decoded, stable) refl
