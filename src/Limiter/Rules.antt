-- ===== src/Limiter/Rules.antt =====
-- limiter/rule.go: the destinations and the protocols that a node refuses.
pub mod Refuse
use v2b_x_patched_by_haman.Prelude.{
  String, Bool, true, false, Option, none, some, List, [], ◌∷◌, ◌==◌, string_eq, if◌then◌else◌,
}
use v2b_x_patched_by_haman.Panel.{Rules}
use v2b_x_patched_by_haman.Limiter.State.{Limiter}

-- The loop that stops at the first rule that fits.
unfoldable pub some_fits {ℓ} : {A : Type ℓ} → (A → Bool) → List A → Bool
some_fits fits [] = false
some_fits fits (rule ∷ rules) = let rest = some_fits fits rules in if fits rule then true else rest

-- `regexp.MustCompile` on each pattern; `none` is its panic.
unfoldable pub compile_all {ℓ} :
    {Regex : Type ℓ} → (String → Option Regex) → List String → Option (List Regex)
compile_all compile [] = some []
compile_all compile (p ∷ ps) = elim (compile p) [
  | none ↦ none
  | some rule ↦ elim (compile_all compile ps) [ none ↦ none | some rules ↦ some (rule ∷ rules) ]
]

module _ {Regex Bucket : Type 0} where
  -- `matches` is `Regexp.MatchString`.
  unfoldable pub check_domain_rule : (Regex → String → Bool) → String → Limiter Regex Bucket → Bool
  check_domain_rule matches destination l =
      some_fits (λ rule. matches rule destination) l.domain_rules

  unfoldable pub check_protocol_rule : String → Limiter Regex Bucket → Bool
  check_protocol_rule protocol l = some_fits (λ rule. rule == protocol) l.protocol_rules

  -- A panic leaves the process, so no state is returned for it.
  unfoldable pub update_rule :
      (String → Option Regex) → Rules → Limiter Regex Bucket → Option (Limiter Regex Bucket)
  update_rule compile rules l = elim (compile_all compile rules.regexp) [
    | none ↦ none
    | some compiled ↦ some (record l { domain_rules = compiled; protocol_rules = rules.protocol })
  ]
