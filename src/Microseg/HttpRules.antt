-- ===== src/Microseg/HttpRules.antt =====
-- The choice of an HTTP rule (MatchHttpPolicyRule of net-policy.cpp).
use net_policy.Common.{
  true, List, [], ◌∷◌, ◌++◌, text_eq, Text, ◌≡◌, ◌⊎◌, ◌↔◌, refl, arith, All, text_beq_iff,
}
use net_policy.Http.{Header}
use net_policy.Policy.{k_default}
use net_policy.Microseg.{HttpRuleInfo, http_rule_fits, match_http_policy_rule, field_fits}

-- A field of a rule is empty or is the request's.
abbrev FieldFits : Text → Text → Type 0
FieldFits wanted seen = (wanted ≡ []) ⊎ (wanted ≡ seen)

field_fits_iff : (wanted seen : Text) → (field_fits wanted seen ≡ true) ↔ FieldFits wanted seen
field_fits_iff [] seen = ground arith
field_fits_iff (c ∷ wanted) seen = ground (arith, text_beq_iff (c ∷ wanted) seen)

-- A rule fits a request.
abbrev HttpFits : HttpRuleInfo → Header → Type 0
HttpFits r h = FieldFits r.host h.host × FieldFits r.method h.method × FieldFits r.path h.path

http_rule_fits_iff : (r : HttpRuleInfo) (h : Header) → (http_rule_fits r h ≡ true) ↔ HttpFits r h
unfolding http_rule_fits
http_rule_fits_iff r h = ground (
  arith,
  field_fits_iff r.host h.host,
  field_fits_iff r.method h.method,
  field_fits_iff r.path h.path,
)

-- The first rule that fits decides: no rule before it fits, and it gives its action. Without a
-- rule that fits the outcome is kDefault.
pub match_http_policy_rule_first :
    (skipped : List HttpRuleInfo) (rule : HttpRuleInfo) (rest : List HttpRuleInfo) (h : Header)
    → All (λ r. ¬ HttpFits r h) skipped
    → (match_http_policy_rule skipped h ≡ k_default)
      × (HttpFits rule h → match_http_policy_rule (skipped ++ (rule ∷ rest)) h ≡ rule.action)
unfolding match_http_policy_rule
match_http_policy_rule_first [] rule rest h a =
    (refl, λ f. ground (arith, http_rule_fits_iff rule h))
match_http_policy_rule_first (r ∷ skipped) rule rest h (n, a) =
    ground (arith, http_rule_fits_iff r h, match_http_policy_rule_first skipped rule rest h a)
