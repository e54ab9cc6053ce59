-- ===== src/Server/Hosts.antt =====
-- `_build_transport_security`: which hosts the server answers to.
use devops_agent_msk_mcp.Base.{
  Text, codes, true, false, not, ◌||◌, List, [], ◌∷◌, ◌++◌, Option, none, some, ◌⊎◌, elem, text_eq,
  nat_eq, list_beq_iff, ◌≡◌, ◌≢◌, ◌↔◌, refl, inl, inr, Bool-cases, arith, ap,
}
use mathlib.Core.List.{cons-ne-nil}
use devops_agent_msk_mcp.Base.Parts.{keep}
use devops_agent_msk_mcp.Server.{TransportSecurity, base_hosts, is_star, build_transport_security}

elem-append : (x : Text) (xs ys : List Text) → elem x (xs ++ ys) ≡ (elem x xs || elem x ys)
unfolding elem
elem-append x [] ys = refl
elem-append x (y ∷ xs) ys = ground (arith, elem-append x xs ys)

elem-keep_new :
    (base : List Text) (x : Text) (xs : List Text)
    → elem x base ≡ false
    → elem x (keep (λ y. not (elem y base)) xs) ≡ elem x xs
unfolding keep elem
elem-keep_new base x [] n = refl
elem-keep_new base x (y ∷ xs) n = ground (arith, elem-keep_new base x xs n, list_beq_iff x y)

star_iff : (hs : List Text) → (is_star hs ≡ true) ↔ (hs ≡ codes "*" ∷ [])
star_iff [] = ((λ e. cc), (λ e. cc))
star_iff (h ∷ []) = (
  (λ e. ap (λ k. k ∷ []) ((list_beq_iff h (codes "*")).0 e)),
  (λ e. (list_beq_iff h (codes "*")).1 cc),
)
star_iff (h ∷ k ∷ hs) = ((λ e. cc), (λ e. cc))

elem-allowed :
    (x : Text) (hosts : List Text)
    → elem x (base_hosts ++ keep (λ y. not (elem y base_hosts)) hosts)
      ≡ (elem x base_hosts || elem x hosts)
elem-allowed x hosts = elim (Bool-cases (elem x base_hosts)) [
  | inl e ↦ rw (elem-append x base_hosts (keep (λ y. not (elem y base_hosts)) hosts), e) refl
  | inr e ↦
      rw
        (
          elem-append x base_hosts (keep (λ y. not (elem y base_hosts)) hosts),
          elem-keep_new base_hosts x hosts e,
        )
        refl
]

-- `["*"]` turns the protection off, and any other list keeps it on, for the local hosts and its own.
abbrev pub IsSecured : List Text → TransportSecurity → Type 0
IsSecured hosts s =
    ((hosts ≡ codes "*" ∷ []) × (s.enable_dns_rebinding_protection ≡ false))
    ⊎ ((hosts ≢ codes "*" ∷ [])
        × (s.enable_dns_rebinding_protection ≡ true)
        × (allowed : List Text) × (s.allowed_hosts ≡ some allowed)
        × ((x : Text) → elem x allowed ≡ (elem x base_hosts || elem x hosts)))

-- What the configured hosts give: no list or an empty one gives no settings, so that FastMCP's defaults
-- hold; `["*"]` turns the protection off; any other list keeps it on, for the local hosts and the
-- hosts of the list, and for no others.
pub build_transport_security_lem :
    (configured : Option (List Text))
    → (((configured ≡ none) ⊎ (configured ≡ some []))
        × (build_transport_security configured ≡ none))
      ⊎ ((hosts : List Text) × (s : TransportSecurity) × (configured ≡ some hosts)
          × (hosts ≢ [])
          × (build_transport_security configured ≡ some s)
          × IsSecured hosts s)
unfolding build_transport_security
build_transport_security_lem none = inl (inl refl, refl)
build_transport_security_lem (some []) = inl (inr refl, refl)
build_transport_security_lem (some (h ∷ hs)) = elim (Bool-cases (is_star (h ∷ hs))) [
  | inl e ↦ inr (
    h ∷ hs,
    record { enable_dns_rebinding_protection = false; allowed_hosts = none },
    refl,
    cons-ne-nil _ _,
    rw e refl,
    inl ((star_iff (h ∷ hs)).0 e, refl),
  )
  | inr e ↦ inr (
    h ∷ hs,
    record {
      enable_dns_rebinding_protection = true;
      allowed_hosts = some (base_hosts ++ keep (λ y. not (elem y base_hosts)) (h ∷ hs));
    },
    refl,
    cons-ne-nil _ _,
    rw e refl,
    inr ((λ same. cc (e, (star_iff (h ∷ hs)).1 same)), refl, _, refl, λ x. elem-allowed x (h ∷ hs)),
  )
]
