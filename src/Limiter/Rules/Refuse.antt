-- ===== src/Limiter/Rules/Refuse.antt =====
-- After the rules of a node are installed, exactly what they name is refused.
use v2b_x_patched_by_haman.Prelude.{
  String, ◌≡◌, some_unique, refl, In-cons, ◌↔◌, inl, inr, Bool, true, Option, some, List, [], ◌∷◌,
  ◌==◌, string_eq, arith, In, here, there, Bool-cases, Option-cases, eq_iff,
}
use mathlib.Core.Path.{subst}
use v2b_x_patched_by_haman.Dict.Laws.{beq_refl}
use v2b_x_patched_by_haman.Panel.{Rules}
use v2b_x_patched_by_haman.Limiter.State.{Limiter}
use v2b_x_patched_by_haman.Limiter.Rules.{
  some_fits, compile_all, check_domain_rule, check_protocol_rule, update_rule,
}

module _ {ℓ} {A : Type ℓ} (fits : A → Bool) where
  pub some_fits-finds :
      (rules : List A) → some_fits fits rules ≡ true → (a : A) × In a rules × (fits a ≡ true)
  unfolding some_fits
  some_fits-finds [] h = cc
  some_fits-finds (rule ∷ rules) h = elim (Bool-cases (fits rule)) [
    | inl yes_fits ↦ (rule, here refl, yes_fits)
    | inr no_fit ↦
        let (a, listed, e) = some_fits-finds rules (rw no_fit at h) in (a, there listed, e)
  ]

  pub some_fits_of_In :
      (rules : List A) (a : A) → In a rules → fits a ≡ true → some_fits fits rules ≡ true
  unfolding some_fits
  some_fits_of_In [] a i h = elim i [ ]
  some_fits_of_In (rule ∷ rules) a (here e) h = rw (← e, h)
  some_fits_of_In (rule ∷ rules) a (there i) h = ground (arith, some_fits_of_In rules a i h)

module _ {Regex : Type 0} (compile : String → Option Regex) where
  compile_all-cons :
      (p : String) (ps : List String) (rules : List Regex)
      → compile_all compile (p ∷ ps) ≡ some rules
      → (r : Regex) × (rs : List Regex) × (compile p ≡ some r)
        × (compile_all compile ps ≡ some rs)
        × (rules ≡ r ∷ rs)
  unfolding compile_all
  compile_all-cons p ps rules e = elim (Option-cases (compile p)) [
    | inl bad ↦ ground arith
    | inr (r, good) ↦ elim (Option-cases (compile_all compile ps)) [
      | inl bad ↦ ground arith
      | inr (rs, all) ↦ (r, rs, good, all, ground arith)
    ]
  ]

  -- Each compiled rule comes from a pattern, and each pattern has its rule.
  compile_all-In :
      (patterns : List String) (rules : List Regex) (r : Regex)
      → compile_all compile patterns ≡ some rules
      → In r rules
      → (p : String) × In p patterns × (compile p ≡ some r)
  unfolding compile_all
  compile_all-In [] (x ∷ xs) r e i = cc
  compile_all-In [] [] r e i = elim i [ ]
  compile_all-In (p ∷ ps) rules r e i =
      let (r', rs, good, all, split) = compile_all-cons p ps rules e in
      elim (In-cons (subst (In r) split i)) [
        | inl same ↦ (p, here refl, rw same good)
        | inr later ↦
            let (p', listed, c) = compile_all-In ps rs r all later in (p', there listed, c)
      ]

  compile_all-covers :
      (patterns : List String) (rules : List Regex) (p : String) (r : Regex)
      → compile_all compile patterns ≡ some rules
      → In p patterns
      → compile p ≡ some r
      → In r rules
  unfolding compile_all
  compile_all-covers [] rules p r e i c = elim i [ ]
  compile_all-covers (q ∷ ps) rules p r e (here same) c =
      let (r', rs, good, all, split) = compile_all-cons q ps rules e in
      rw split (here (some_unique c (rw same good)))
  compile_all-covers (q ∷ ps) rules p r e (there i) c =
      let (r', rs, good, all, split) = compile_all-cons q ps rules e in
      rw split (there (compile_all-covers ps rs p r all i c))

module _ {Regex Bucket : Type 0} (compile : String → Option Regex) where
  update_rule-compiled :
      (rules : Rules) (l l' : Limiter Regex Bucket)
      → update_rule compile rules l ≡ some l'
      → (compile_all compile rules.regexp ≡ some l'.domain_rules)
        × (l'.protocol_rules ≡ rules.protocol)
  unfolding update_rule
  update_rule-compiled rules l l' e = ground arith

  -- Once the rules of a node are installed, a destination is refused exactly if one of the node's
  -- patterns, compiled, matches it.
  pub update_rule-domains :
      (matches : Regex → String → Bool) (rules : Rules) (l l' : Limiter Regex Bucket)
      (destination : String)
      → update_rule compile rules l ≡ some l'
      → (check_domain_rule matches destination l' ≡ true) ↔ (
          (p : String) × (r : Regex) × In p rules.regexp
          × (compile p ≡ some r)
          × (matches r destination ≡ true))
  unfolding check_domain_rule
  update_rule-domains matches rules l l' destination e =
      let (compiled, same) = update_rule-compiled rules l l' e in
      (
        (λ h.
            let (r, listed, fits) =
              some_fits-finds (λ r. matches r destination) l'.domain_rules h in
            let (p, among, good) =
              compile_all-In compile rules.regexp l'.domain_rules r compiled listed in
            (p, r, among, good, fits)),
        (λ (p, r, among, good, fits).
            some_fits_of_In (λ r. matches r destination) l'.domain_rules r
              (compile_all-covers compile rules.regexp l'.domain_rules p r compiled among good)
              fits),
      )

  -- Once the rules of a node are installed, a protocol is refused exactly if it is one of those that
  -- the node names.
  pub update_rule-protocols :
      (rules : Rules) (l l' : Limiter Regex Bucket) (protocol : String)
      → update_rule compile rules l ≡ some l'
      → (check_protocol_rule protocol l' ≡ true) ↔ In protocol rules.protocol
  unfolding check_protocol_rule
  update_rule-protocols rules l l' protocol e =
      let (compiled, same) = update_rule-compiled rules l l' e in
      rw same (
        (λ h.
            let (rule, listed, fits) =
              some_fits-finds (λ rule. rule == protocol) rules.protocol h in
            subst (λ p. In p rules.protocol) ((eq_iff rule protocol).0 fits) listed),
        (λ i.
            some_fits_of_In (λ rule. rule == protocol) rules.protocol protocol i
              (beq_refl protocol)),
      )
