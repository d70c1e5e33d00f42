-- ===== src/Mcp/Allowlist/Resources.antt =====
-- Which resources the configured prefixes allow.
use riftgate.Base.{
  ℕ, ◌<◌, ◌≡◌, refl, true, false, none, some, [], ◌∷◌, ◌++◌, map, if◌then◌else◌, Text, text_eq,
  text_le, is_prefix, arith, Bool-cases, inl, inr, ◌∙◌, sym,
}
use riftgate.Mcp.Capability.{not_in_allowlist}
use riftgate.Mcp.Allowlist.{
  TenantAllowlist, insert_text, sort_texts, trim_stars, from_config, check_resource,
}
use riftgate.Mcp.Allowlist.Search.{
  some_prefix, before, fits, sort_texts-IsSorted, any-sort_texts, Unnested, before-fits,
  before-some_prefix, resource_prefix_matches-before,
}

-- If no configured prefix is a proper prefix of another, a resource is allowed exactly if one of them
-- is its prefix, whatever the order of the configuration.
pub check_resource-from_config :
    (cfg : TenantAllowlist) (uri : Text)
    → Unnested (map trim_stars cfg.allowed_resource_prefixes)
    → check_resource (from_config cfg) uri ≡ (
        if some_prefix (map trim_stars cfg.allowed_resource_prefixes) uri
        then none
        else some not_in_allowlist)
unfolding check_resource from_config
check_resource-from_config cfg uri v =
    let ps = map trim_stars cfg.allowed_resource_prefixes in
    let sorted = sort_texts ps in
    let found = resource_prefix_matches-before (from_config cfg) uri in
    let same = any-sort_texts (λ p. is_prefix p uri) ps in
    let unnested : Unnested sorted = λ p q h k pre.
      v p q (sym (any-sort_texts (λ x. text_eq x p) ps) ∙ h)
        (sym (any-sort_texts (λ x. text_eq x q) ps) ∙ k) pre in
    elim (Bool-cases (some_prefix sorted uri)) [
      | inl yes_here ↦
          rw
            (
              found,
              before-fits uri sorted (sort_texts-IsSorted ps) unnested yes_here,
              ← same,
              yes_here,
            )
            refl
      | inr no_where ↦ elim (Bool-cases (fits (before uri sorted) uri)) [
        | inl odd ↦ cc (no_where, before-some_prefix uri sorted odd)
        | inr no_fit ↦ rw (found, no_fit, ← same, no_where) refl
      ]
    ]

-- Without that condition the check still allows nothing that has no configured prefix.
pub check_resource-some_prefix :
    (cfg : TenantAllowlist) (uri : Text)
    → check_resource (from_config cfg) uri ≡ none
    → some_prefix (map trim_stars cfg.allowed_resource_prefixes) uri ≡ true
unfolding check_resource from_config
check_resource-some_prefix cfg uri e =
    let ps = map trim_stars cfg.allowed_resource_prefixes in
    let found = resource_prefix_matches-before (from_config cfg) uri in
    elim (Bool-cases (fits (before uri (sort_texts ps)) uri)) [
      | inl fit ↦
          sym (any-sort_texts (λ p. is_prefix p uri) ps)
          ∙ before-some_prefix uri (sort_texts ps) fit
      | inr no_fit ↦ cc (rw (found, no_fit) at e)
    ]

short-text_le : (p u : Text) → text_le p (p ++ u) ≡ true
short-text_le [] u = refl
short-text_le (x ∷ p) u = ground (arith, short-text_le p u)

short-is_prefix : (p u : Text) → is_prefix p (p ++ u) ≡ true
short-is_prefix [] u = refl
short-is_prefix (x ∷ p) u = ground (arith, short-is_prefix p u)

longer-text_le : (p u : Text) (c d : ℕ) → c < d → text_le (p ++ c ∷ []) (p ++ d ∷ u) ≡ true
longer-text_le [] u c d h = ground arith
longer-text_le (x ∷ p) u c d h = ground (arith, longer-text_le p u c d h)

longer-not_prefix : (p u : Text) (c d : ℕ) → c < d → is_prefix (p ++ c ∷ []) (p ++ d ∷ u) ≡ false
longer-not_prefix [] u c d h = ground arith
longer-not_prefix (x ∷ p) u c d h = ground (arith, longer-not_prefix p u c d h)

before-longer :
    (p u : Text) (c d : ℕ)
    → c < d
    → before (p ++ d ∷ u) (p ∷ (p ++ c ∷ []) ∷ []) ≡ some (p ++ c ∷ [])
unfolding before
before-longer p u c d h = rw (short-text_le p (d ∷ u), longer-text_le p u c d h) refl

-- If a tenant's resource prefixes, with their stars trimmed, are exactly two, `p` and then `p` with
-- one byte more, then a resource under `p` whose next byte is greater than that byte is refused,
-- although `p` is configured.
pub check_resource-shadowed :
    (cfg : TenantAllowlist) (p u : Text) (c d : ℕ)
    → map trim_stars cfg.allowed_resource_prefixes ≡ p ∷ (p ++ c ∷ []) ∷ []
    → c < d
    → (check_resource (from_config cfg) (p ++ d ∷ u) ≡ some not_in_allowlist)
      × (is_prefix p (p ++ d ∷ u) ≡ true)
unfolding check_resource from_config sort_texts insert_text
check_resource-shadowed cfg p u c d e h = (
  rw
      (
        resource_prefix_matches-before (from_config cfg) (p ++ d ∷ u),
        e,
        short-text_le p (c ∷ []),
        before-longer p u c d h,
        longer-not_prefix p u c d h,
      )
      refl,
  short-is_prefix p (d ∷ u),
)
