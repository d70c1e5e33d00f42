-- ===== src/Mcp/Allowlist/Tools.antt =====
-- Tools and their grants, against the configuration.
use riftgate.Base.{
  ℕ, ◌≤◌, ◌<◌, ◌≡◌, refl, Bool, false, ◌&&◌, ◌||◌, none, some, List, [], ◌∷◌, map, ltb, leb,
  if◌then◌else◌, drop, Text, text_eq, arith, Bool-cases, inl, inr, ◌∙◌, ap, All,
}
use riftgate.Mcp.Capability.{not_in_allowlist, in_denylist}
use riftgate.Mcp.Allowlist.{
  TimeBoundedGrant, TenantAllowlist, member, insert_grant, sort_grants, secs, compile_grant,
  from_config, partition_point, any, has_active_grant, check_tool,
}

abbrev live : Text → ℕ → ℕ × Text → Bool
live tool now g = ltb now g.0 && text_eq g.1 tool

-- The configuration grants the tool for a time that is not over.
abbrev pub granted_now : List TimeBoundedGrant → Text → ℕ → Bool
granted_now [] tool now = false
granted_now (g ∷ gs) tool now =
    (ltb now (secs g.until_unix_secs) && text_eq g.tool tool) || granted_now gs tool now

any-insert_grant :
    (test : ℕ × Text → Bool) (g : ℕ × Text) (gs : List (ℕ × Text))
    → any test (insert_grant g gs) ≡ (test g || any test gs)
unfolding insert_grant
any-insert_grant test g [] = refl
any-insert_grant test g (x ∷ xs) = ground (arith, any-insert_grant test g xs)

any-sort_grants :
    (test : ℕ × Text → Bool) (gs : List (ℕ × Text)) → any test (sort_grants gs) ≡ any test gs
unfolding sort_grants
any-sort_grants test [] = refl
any-sort_grants test (g ∷ gs) =
    any-insert_grant test g (sort_grants gs) ∙ ap (λ b. test g || b) (any-sort_grants test gs)

abbrev AllFrom : ℕ → List (ℕ × Text) → Type 0
AllFrom n gs = All (λ (g : ℕ × Text). n ≤ g.0) gs

-- Each expiry is at most those behind it.
abbrev IsSorted : List (ℕ × Text) → Type 0
IsSorted [] = Unit
IsSorted (g ∷ gs) = AllFrom g.0 gs × IsSorted gs

AllFrom-weaken : (m n : ℕ) (gs : List (ℕ × Text)) → m ≤ n → AllFrom n gs → AllFrom m gs
AllFrom-weaken m n [] h v = tt
AllFrom-weaken m n (g ∷ gs) h (k, v) = (omega arith, AllFrom-weaken m n gs h v)

AllFrom-insert_grant :
    (n : ℕ) (g : ℕ × Text) (gs : List (ℕ × Text))
    → n ≤ g.0
    → AllFrom n gs
    → AllFrom n (insert_grant g gs)
unfolding insert_grant
AllFrom-insert_grant n g [] h v = (h, tt)
AllFrom-insert_grant n g (x ∷ xs) h v = ground (arith, AllFrom-insert_grant n g xs h v.1)

insert_grant-IsSorted :
    (g : ℕ × Text) (gs : List (ℕ × Text)) → IsSorted gs → IsSorted (insert_grant g gs)
unfolding insert_grant
insert_grant-IsSorted g [] v = (tt, tt)
insert_grant-IsSorted g (x ∷ xs) v = ground (
  arith,
  insert_grant-IsSorted g xs v.1,
  AllFrom-insert_grant x.0 g xs,
  AllFrom-weaken g.0 x.0 xs,
)

sort_grants-IsSorted : (gs : List (ℕ × Text)) → IsSorted (sort_grants gs)
unfolding sort_grants
sort_grants-IsSorted [] = tt
sort_grants-IsSorted (g ∷ gs) = insert_grant-IsSorted g (sort_grants gs) (sort_grants-IsSorted gs)

any-live :
    (tool : Text) (now n : ℕ) (gs : List (ℕ × Text))
    → now < n
    → AllFrom n gs
    → any (live tool now) gs ≡ any (λ (g : ℕ × Text). text_eq g.1 tool) gs
any-live tool now n [] h v = refl
any-live tool now n (g ∷ gs) h (k, v) = ground (arith, any-live tool now n gs h v)

-- Past the expired grants of a sorted list are the live ones.
any-drop_expired :
    (tool : Text) (now : ℕ) (gs : List (ℕ × Text))
    → IsSorted gs
    → any
        (λ (g : ℕ × Text). text_eq g.1 tool)
        (drop (partition_point (λ (g : ℕ × Text). leb g.0 now) gs) gs)
      ≡ any (live tool now) gs
unfolding partition_point
any-drop_expired tool now [] v = refl
any-drop_expired tool now (g ∷ gs) (from, v) = elim (Bool-cases (leb g.0 now)) [
  | inl old ↦ rw old (any-drop_expired tool now gs v ∙ ground arith)
  | inr fresh ↦ rw fresh (ground (arith, any-live tool now g.0 gs))
]

any-compile_grant :
    (tool : Text) (now : ℕ) (gs : List TimeBoundedGrant)
    → any (live tool now) (map compile_grant gs) ≡ granted_now gs tool now
any-compile_grant tool now [] = refl
any-compile_grant tool now (g ∷ gs) =
    ap (λ b. live tool now (compile_grant g) || b) (any-compile_grant tool now gs)

has_active_grant-from_config :
    (cfg : TenantAllowlist) (tool : Text) (now : ℕ)
    → has_active_grant (from_config cfg) tool now ≡ granted_now cfg.time_bounded_grants tool now
unfolding has_active_grant from_config
has_active_grant-from_config cfg tool now =
    any-drop_expired tool now (sort_grants (map compile_grant cfg.time_bounded_grants))
      (sort_grants-IsSorted (map compile_grant cfg.time_bounded_grants))
    ∙ any-sort_grants (live tool now) (map compile_grant cfg.time_bounded_grants)
    ∙ any-compile_grant tool now cfg.time_bounded_grants

-- A tool call is allowed exactly if the configuration does not deny the tool and either allows it
-- or has a grant for it whose time is not over, in whatever order the grants are configured; a
-- denied tool is reported as such, any other as not allowed, also one whose grant is over.
pub check_tool-from_config :
    (cfg : TenantAllowlist) (tool : Text) (now : ℕ)
    → check_tool (from_config cfg) tool now ≡ (
        if member tool cfg.denied_tools
        then some in_denylist
        else if member tool cfg.allowed_tools || granted_now cfg.time_bounded_grants tool now
        then none
        else some not_in_allowlist)
unfolding check_tool from_config
check_tool-from_config cfg tool now = ground (arith, has_active_grant-from_config cfg tool now)
