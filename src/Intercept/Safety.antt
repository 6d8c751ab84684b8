-- ===== src/Intercept/Safety.antt =====
-- What holds in every state that the goroutines reach.
use bfx_outline_sdk.Prelude.{
  ℕ, zero, suc, ◌+◌, ◌≡◌, arith, refl, List, [], ◌∷◌, ◌++◌, replicate, subst, sym, ap, ◌∙◌,
}
use bfx_outline_sdk.Io.{Bytes}
use bfx_outline_sdk.Truncate.{AddrPort}
use bfx_outline_sdk.Intercept.{Pc, idle, new_assoc}
use bfx_outline_sdk.Intercept.Threads.{System, Step, turn, Reach, start, later, step}
use bfx_outline_sdk.Intercept.Counts.{
  has_made, will_make, Counts, with_others, step-Counts, weight, crashes,
}
use bfx_outline_sdk.Intercept.Senders.{Cared, step-Cared, holds}
use bfx_outline_sdk.Intercept.Wakes.{Wakes, asleep, step-Wakes}
use bfx_outline_sdk.Intercept.Logs.{open_query, Logged, step-Logged}

-- A count, over all goroutines.
abbrev pub sum_over : List Pc → (Pc → ℕ) → ℕ
sum_over [] f = 0
sum_over (p ∷ ts) f = f p + sum_over ts f

abbrev pub others : List Pc → List Pc → (Pc → ℕ) → ℕ
others before after f = sum_over before f + sum_over after f

pub sum_over-split :
    (before after : List Pc) (p : Pc) (f : Pc → ℕ)
    → sum_over (before ++ p ∷ after) f ≡ with_others (others before after) p f
sum_over-split [] after p f = omega arith
sum_over-split (q ∷ before) after p f = omega (arith, sum_over-split before after p f)

sum_over-idle : (n : ℕ) (f : Pc → ℕ) → f idle ≡ 0 → sum_over (replicate n idle) f ≡ 0
sum_over-idle zero f h = refl
sum_over-idle (suc n) f h = omega (arith, h, sum_over-idle n f h)

-- The goroutine at `p` among the others, as a function of the counts.
split_path :
    (before after : List Pc) (p : Pc)
    → sum_over (before ++ p ∷ after) ≡ with_others (others before after) p
split_path before after p = λ i f. sum_over-split before after p f i

module _ (unmap : Bytes → Bytes) (dns_local dns_remote : AddrPort) where
  -- All of it.
  pub record Inv (s : System) : Type 0 where
    pub counts : Counts s.assoc (sum_over s.threads)
    pub senders : (id : ℕ) → Cared id s.assoc (sum_over s.threads)
    pub logs : Logged dns_local dns_remote s.assoc (sum_over s.threads)
    pub wakes : Wakes s.assoc (sum_over s.threads)

  start-Inv : (n : ℕ) → Inv (record { assoc = new_assoc; threads = replicate n idle })
  start-Inv n = record {
    counts = ground (
      arith,
      sum_over-idle n weight refl,
      sum_over-idle n will_make refl,
      sum_over-idle n has_made refl,
      sum_over-idle n crashes refl,
    );
    senders = λ id. ground (arith, sum_over-idle n (holds id) refl);
    logs = ground (arith, sum_over-idle n open_query refl);
    wakes = record {
      channel = refl;
      next = λ c lt. sum_over-idle n (asleep c) refl;
      over = λ e. sum_over-idle n (asleep 0) refl;
      made = λ e. sum_over-idle n (asleep 0) refl;
    };
  }

  Step-Inv : {s t : System} → Step unmap dns_local dns_remote s t → Inv s → Inv t
  Step-Inv {s} (turn before after p o e) h =
      let r = others before after in
      let here : sum_over s.threads ≡ with_others r p = ap sum_over e ∙ split_path before after p in
      let x = step unmap dns_local dns_remote s.assoc p o in
      let there : with_others r x.1 ≡ sum_over (before ++ x.1 ∷ after) =
        sym (split_path before after x.1) in
      let counts = subst (Counts s.assoc) here h.counts in
      record {
        counts =
            subst (Counts x.0) there (step-Counts unmap dns_local dns_remote r s.assoc p o counts);
        senders = λ id. subst (Cared id x.0) there (
            step-Cared unmap dns_local dns_remote r id s.assoc p o counts
              (subst (Cared id s.assoc) here (h.senders id)));
        logs = subst (Logged dns_local dns_remote x.0) there (
            step-Logged unmap dns_local dns_remote r s.assoc p o
              (subst (Logged dns_local dns_remote s.assoc) here h.logs));
        wakes = subst (Wakes x.0) there (
            step-Wakes unmap dns_local dns_remote r s.assoc p o
              (subst (Wakes s.assoc) here h.wakes));
      }

  pub Reach-Inv : {n : ℕ} {s : System} → Reach unmap dns_local dns_remote n s → Inv s
  Reach-Inv {n} start = start-Inv n
  Reach-Inv (later r st) = Step-Inv st (Reach-Inv r)
