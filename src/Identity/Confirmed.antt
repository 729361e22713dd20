-- ===== src/Identity/Confirmed.antt =====
-- When the relay is found to be who it says it is, and when the check is repeated.
use mathlib.Core.Option
use postbud.DnsCheck.{is_valid, is_none_or_valid}
use postbud.Domains.Cadence.{interval}
use postbud.Identity.{
  Observed, same_host, is_host, judge_forward, judge_ptr, judge_helo, evaluate, RelayCheckRow,
  check_row, record_check, latest, due, Resolver, clean_host, observe_relay, run_relay_check,
}
use postbud.Prelude.{
  ℕ, ◌+◌, ◌≡◌, ◌↔◌, refl, Bool, true, false, not, ◌&&◌, List, [], ◌∷◌, ◌++◌, Option, none, some,
  arith, ltb, is_empty, any, Bool-cases, inl, inr,
}
use postbud.Result.{ok}
use postbud.Text.{Str}

-- What a forward-confirmed identity is: the name has an address, a name of the addresses is the
-- expected one, and the greeting announces it where it could be read.
pub record IsConfirmed (expected_host : Str) (observed : Observed) : Type 0 where
  pub resolves : is_empty observed.forward_ips ≡ false
  pub reverses : any (is_host expected_host) observed.ptr_names ≡ true
  pub greets :
      (banner : Str) → observed.banner_host ≡ some banner → same_host banner expected_host ≡ true

valid-forward : (ips : List Str) → is_valid (judge_forward ips) ≡ not (is_empty ips)
unfolding judge_forward
valid-forward [] = refl
valid-forward (ip ∷ ips) = refl

valid-ptr :
    (expected : Str) (names : List Str)
    → is_valid (judge_ptr expected names) ≡ any (is_host expected) names
unfolding judge_ptr
valid-ptr expected [] = refl
valid-ptr expected (n ∷ ns) = elim (Bool-cases (any (is_host expected) (n ∷ ns))) [
  | inl e ↦ rw e refl
  | inr e ↦ rw e refl
]

valid-helo :
    (expected banner : Str) → is_valid (judge_helo expected banner) ≡ same_host banner expected
unfolding judge_helo
valid-helo expected banner = elim (Bool-cases (same_host banner expected)) [
  | inl e ↦ rw e refl
  | inr e ↦ rw e refl
]

abbrev greeted : Str → Option Str → Bool
greeted expected none = true
greeted expected (some banner) = same_host banner expected

greeted_iff :
    (expected : Str) (b : Option Str)
    → greeted expected b ≡ true
      ↔ ((banner : Str) → b ≡ some banner → same_host banner expected ≡ true)
greeted_iff expected none = (λ h banner e. ground arith, λ h. refl)
greeted_iff expected (some own) = (λ h banner e. ground arith, λ h. h own refl)

valid-evaluate :
    (expected_host : Str) (observed : Observed)
    → (evaluate expected_host observed).valid ≡ (
        not (is_empty observed.forward_ips)
        && (any (is_host expected_host) observed.ptr_names
            && greeted expected_host observed.banner_host))
unfolding evaluate
valid-evaluate expected_host observed =
    rw (valid-forward observed.forward_ips, valid-ptr expected_host observed.ptr_names)
      (go observed.banner_host)
  where
    go :
        (b : Option Str)
        → (not (is_empty observed.forward_ips)
            && (any (is_host expected_host) observed.ptr_names
                && is_none_or_valid (Option.map (judge_helo expected_host) b)))
          ≡ (not (is_empty observed.forward_ips)
              && (any (is_host expected_host) observed.ptr_names && greeted expected_host b))
    go none = refl
    go (some banner) = rw (valid-helo expected_host banner) refl

-- The identity is found valid exactly if it is confirmed; a relay whose greeting could not be read
-- is judged by its names alone.
pub evaluate_iff :
    (expected_host : Str) (observed : Observed)
    → (evaluate expected_host observed).valid ≡ true ↔ IsConfirmed expected_host observed
evaluate_iff expected_host observed = rw (valid-evaluate expected_host observed) (
  λ h. record {
    resolves = ground arith;
    reverses = ground arith;
    greets = (greeted_iff expected_host observed.banner_host).0 (ground arith);
  },
  λ c.
      ground (
        arith,
        c.resolves,
        c.reverses,
        (greeted_iff expected_host observed.banner_host).1 c.greets,
      ),
)

latest-concat :
    (checks : List RelayCheckRow) (c : RelayCheckRow) → latest (checks ++ c ∷ []) ≡ some c
unfolding latest
latest-concat [] c = refl
latest-concat (d ∷ checks) c = rw (latest-concat checks c) refl

-- After a check of the identity, another is due exactly if it is more than 24 hours old where it found
-- the identity valid, and more than 15 minutes old where it did not.
pub due-run_relay_check :
    (resolver : Resolver) (greeting : Option Str) (now later : ℕ) (host : Str)
    (checks : List RelayCheckRow) (observed : Observed)
    → is_empty (clean_host host) ≡ false
    → due now checks 15 24 ≡ true
    → observe_relay resolver greeting (clean_host host) ≡ ok observed
    → due later (run_relay_check resolver greeting now (some host) checks) 15 24
      ≡ ltb (now + interval 15 24 (evaluate (clean_host host) observed).valid) later
unfolding run_relay_check due record_check
due-run_relay_check resolver greeting now later host checks observed n d o =
    rw
      (
        n,
        d,
        o,
        latest-concat checks
            (check_row now (clean_host host) (evaluate (clean_host host) observed)),
      )
      (elim (Bool-cases (evaluate (clean_host host) observed).valid) [
        | inl e ↦ rw e refl
        | inr e ↦ rw e refl
      ])
