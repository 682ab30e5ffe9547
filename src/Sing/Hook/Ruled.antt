-- ===== src/Sing/Hook/Ruled.antt =====
-- The rules of a node that close a connection in core/sing/hook.go.
use v2b_x_patched_by_haman.Prelude.{
  String, ◌≡◌, ◌⊎◌, subst, Bool, true, false, Bool-cases, inl, inr, In, ◌==◌, string_eq, eq_iff,
  arith,
}
use v2b_x_patched_by_haman.Dict.Laws.{beq_refl}
use v2b_x_patched_by_haman.Limiter.State.{Limiter}
use v2b_x_patched_by_haman.Limiter.Rules.{check_domain_rule, check_protocol_rule}
use v2b_x_patched_by_haman.Limiter.Rules.Refuse.{some_fits-finds, some_fits_of_In}
use v2b_x_patched_by_haman.Sing.Hook.{is_ruled_out}

module _ {Regex Bucket : Type 0} (matches : Regex → String → Bool) where
  -- A compiled pattern of the node matches the destination, or the protocol is known and one of those
  -- that the node refuses.
  abbrev pub IsRuledOut : String → String → Limiter Regex Bucket → Type 0
  IsRuledOut destination protocol l =
      ((rule : Regex) × In rule l.domain_rules × (matches rule destination ≡ true))
      ⊎ (((protocol == "") ≡ false) × In protocol l.protocol_rules)

  module _ (destination protocol : String) (l : Limiter Regex Bucket) where
    domain-found :
        check_domain_rule matches destination l ≡ true
        → (rule : Regex) × In rule l.domain_rules × (matches rule destination ≡ true)
    unfolding check_domain_rule
    domain-found h = some_fits-finds (λ rule. matches rule destination) l.domain_rules h

    protocol-found : check_protocol_rule protocol l ≡ true → In protocol l.protocol_rules
    unfolding check_protocol_rule
    protocol-found h =
        let (rule, listed, fits) = some_fits-finds (λ rule. rule == protocol) l.protocol_rules h in
        subst (λ p. In p l.protocol_rules) ((eq_iff rule protocol).0 fits) listed

    domain_of_In :
        (rule : Regex)
        → In rule l.domain_rules
        → matches rule destination ≡ true
        → check_domain_rule matches destination l ≡ true
    unfolding check_domain_rule
    domain_of_In rule i h = some_fits_of_In (λ r. matches r destination) l.domain_rules rule i h

    protocol_of_In : In protocol l.protocol_rules → check_protocol_rule protocol l ≡ true
    unfolding check_protocol_rule
    protocol_of_In i =
        some_fits_of_In (λ rule. rule == protocol) l.protocol_rules protocol i (beq_refl protocol)

    pub is_ruled_out-IsRuledOut :
        is_ruled_out matches destination protocol l ≡ true → IsRuledOut destination protocol l
    unfolding is_ruled_out
    is_ruled_out-IsRuledOut h = elim (Bool-cases (check_domain_rule matches destination l)) [
      | inl found ↦ inl (domain-found found)
      | inr missed ↦ inr (ground (arith), protocol-found (ground (arith)))
    ]

    pub IsRuledOut-is_ruled_out :
        IsRuledOut destination protocol l → is_ruled_out matches destination protocol l ≡ true
    unfolding is_ruled_out
    IsRuledOut-is_ruled_out (inl (rule, listed, fits)) = rw (domain_of_In rule listed fits)
    IsRuledOut-is_ruled_out (inr (named, listed)) = ground (arith, protocol_of_In listed)
