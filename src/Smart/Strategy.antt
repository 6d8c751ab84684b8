-- ===== src/Smart/Strategy.antt =====
-- x/smart/strategy_result.go, and rankStrategiesFromCache of stream_dialer.go. A DNS entry
-- and a fallback entry are any values, compared by what reflect.DeepEqual answers.
pub mod Parse
pub mod Search
pub mod Finder
pub mod Promotes
pub mod Resumes
pub mod Resumed
use bfx_outline_sdk.Prelude.{
  ℕ, suc, zero, String, Bool, true, false, Option, none, some, List, [], ◌∷◌, if◌then◌else◌, inl,
  inr,
}
use bfx_outline_sdk.Io.{Bytes, Fault, GoError, Fallible, message, wrap}
use bfx_outline_sdk.Smart.Cache.{move_to_front}
use text.Mathlib.Text.{◌==◌}

-- configConfig, of which winningConfig has the fields; `none` is a nil slice.
pub record Config (D F : Type 0) : Type 0 where
  pub dns : List D
  pub tls : List String
  pub fallback : Option (List F)

abbrev pub one_later : Option ℕ → Option ℕ
one_later none = none
one_later (some i) = some (suc i)

-- slices.IndexFunc, whose -1 is `none`.
abbrev pub index_of : {A : Type 0} → (A → Bool) → List A → Option ℕ
index_of p [] = none
index_of p (x ∷ xs) = if p x then some 0 else one_later (index_of p xs)

abbrev pub to_front : {A : Type 0} → Option ℕ → List A → List A
to_front none xs = xs
to_front (some i) xs = move_to_front xs i

-- One list of promoteProxylessToFront, with the list of the winner.
abbrev pub promote : {A : Type 0} → (A → A → Bool) → List A → List A → List A
promote same (w ∷ []) xs = to_front (index_of (λ e. same e w) xs) xs
promote same _ xs = xs

abbrev pub entries : {A : Type 0} → Option (List A) → List A
entries none = []
entries (some xs) = xs

-- slices.ContainsFunc.
abbrev pub contains : {A : Type 0} → (A → Bool) → List A → Bool
contains p [] = false
contains p (x ∷ xs) = if p x then true else contains p xs

module _ {D F : Type 0} (same_dns : D → D → Bool) (same_fallback : F → F → Bool) where
  unfoldable pub promote_to_front : Config D F → Config D F → Config D F
  promote_to_front w cfg = record cfg {
    dns = promote same_dns w.dns cfg.dns;
    tls = promote (λ a b. a == b) w.tls cfg.tls;
  }

  abbrev pub exclusive : List D → List String → List F → List F → Option F
  exclusive [] [] (f ∷ []) known = if contains (λ e. same_fallback e f) known then some f else none
  exclusive _ _ _ _ = none

  unfoldable pub get_fallback_if_exclusive : Config D F → Config D F → Option F
  get_fallback_if_exclusive w cfg =
      exclusive w.dns w.tls (entries w.fallback) (entries cfg.fallback)

  abbrev pub ranked_or : Config D F → Config D F → Option F → Config D F × Option F
  ranked_or w input (some f) = (input, some f)
  ranked_or w input none = (promote_to_front w input, none)

  abbrev pub rank_by : Config D F → Config D F → Config D F × Option F
  rank_by w input = ranked_or w input (get_fallback_if_exclusive w input)

  abbrev pub rank_parsed : Fallible (Config D F) → Config D F → Config D F × Option F
  rank_parsed (inl e) input = (input, none)
  rank_parsed (inr w) input = rank_by w input

  -- rankStrategiesFromCache; `cached` is what Get answers.
  unfoldable pub rank_strategies_from_cache :
      (Bytes → Fallible (Config D F)) → Option Bytes → Config D F → Config D F × Option F
  rank_strategies_from_cache parse none input = (input, none)
  rank_strategies_from_cache parse (some bytes) input = rank_parsed (parse bytes) input

-- newProxylessWinningConfig and newFallbackWinningConfig; the fallback that was found is not nil.
abbrev pub dns_entries : {D : Type 0} → Option D → List D
dns_entries none = []
dns_entries (some d) = d ∷ []

abbrev pub tls_entries : String → List String
tls_entries tls = if tls == "" then [] else tls ∷ []

abbrev pub new_proxyless_winning_config : {D F : Type 0} → Option D → String → Config D F
new_proxyless_winning_config dns tls = record {
  dns = dns_entries dns;
  tls = tls_entries tls;
  fallback = none;
}

abbrev pub new_fallback_winning_config : {D F : Type 0} → F → Config D F
new_fallback_winning_config f = record { dns = []; tls = []; fallback = some (f ∷ []) }
