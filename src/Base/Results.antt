-- ===== src/Base/Results.antt =====
-- Code that may throw: a value, or the error that is thrown.
use mathlib.Core.Path.{◌≡◌, refl}
use mathlib.Core.Bool.{Bool, true, false}
use mathlib.Core.List.{List, [], ◌∷◌}
use mathlib.Core.Option.{Option, none, some}

-- One constructor for each kind of `throw` of the source, without the values its message shows; a
-- number of the source has its words.
pub data Error : Type 0 where
  not_safe_integer step_not_positive target_below_start target_unreachable : Error
  too_many_candidates too_many_entries target_skipped : Error
  divisor_not_positive range_inverted : Error
  empty_rule_id duplicate_rule_id : Error
  bad_count bad_progress : Error
  empty_announcement announcement_too_long invalid_placeholder unmatched_brace : Error
  missing_value rendered_too_long : Error
  round_terminal no_expected_entry : Error
  cannot_pause cannot_resume cannot_cancel : Error
  no_active_round active_round_exists unsettled_terminal_round : Error
  template_not_found settings_not_found no_attempt break_not_found : Error
  not_retry_wait not_awaiting_review message_id_required reason_required : Error
  payload_missing constraint_failed discord_rejected : Error
  duplicate_argument missing_option_value path_not_absolute unknown_argument : Error
  not_production_desktop not_decimal_application not_decimal_guild not_loopback_desktop : Error
  trusted_proxy_desktop secure_cookie_desktop untrusted_proxy_production insecure_cookie : Error
  unreadable_config nul_byte malformed_assignment unparsable_config : Error
  unknown_schema_version foreign_key_violation : Error

pub data Result {ℓ} (Value : Type ℓ) : Type ℓ where
  throw : (error : Error) → Result Value
  ok : (value : Value) → Result Value

-- The code that follows runs on a value, and is skipped by an error.
module _ {ℓ κ} {Value : Type ℓ} {Next : Type κ} where
  infixl 5 ◌>>=◌
  abbrev pub ◌>>=◌ : Result Value → (Value → Result Next) → Result Next
  throw error >>= after = throw error
  ok value >>= after = after value

-- `if (bad) throw e`.
abbrev pub throw_if : Bool → Error → Result (Unit {0})
throw_if true e = throw e
throw_if false e = ok tt

abbrev pub or_throw {ℓ} : {A : Type ℓ} → Option A → Error → Result A
or_throw none e = throw e
or_throw (some a) e = ok a

-- A check whose value is not used.
module _ {ℓ} {Next : Type ℓ} where
  infixl 5 ◌>>◌
  abbrev pub ◌>>◌ : Result (Unit {0}) → Result Next → Result Next
  check >> after = check >>= λ passed. after

-- Array.prototype.map with a callback that may throw.
abbrev pub map_result {ℓ κ} : {A : Type ℓ} {B : Type κ} → (A → Result B) → List A → Result (List B)
map_result f [] = ok []
map_result f (x ∷ xs) = do y ← f x; ys ← map_result f xs; ok (y ∷ ys)

-- Where code succeeds, its first part has given a value, and the rest has succeeded on that.
module _ {ℓ κ} {Value : Type ℓ} {Next : Type κ} where
  pub >>=-eq-ok :
      (part : Result Value) (after : Value → Result Next) {last : Next}
      → (part >>= after) ≡ ok last
      → (value : Value) × (part ≡ ok value) × (after value ≡ ok last)
  >>=-eq-ok (throw error) after e = cc
  >>=-eq-ok (ok value) after e = (value, refl, e)

pub ok-injective {ℓ} : {A : Type ℓ} {a b : A} → ok a ≡ ok b → a ≡ b
ok-injective h = cc

pub or_throw-eq-ok {ℓ} :
    {A : Type ℓ} (o : Option A) (e : Error) {a : A} → or_throw o e ≡ ok a → o ≡ some a
or_throw-eq-ok none e h = cc
or_throw-eq-ok (some a) e h = cc
