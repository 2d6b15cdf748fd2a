-- ===== src/Http/Sending.antt =====
-- src/http.rs: `send_request`, and when it hands a request to the network.
use mathlib.Core.Path.{subst}
use wasm_runtime.Base.{
  ℕ, true, false, not, Option, none, some, List, [], ◌∷◌, ◌≡◌, ◌≢◌, ◌↔◌, ◌⊎◌, inl, inr, refl, sym,
  ap, ◌∙◌, any, All, arith, Bool-cases, Option-cases,
}
use wasm_runtime.Http.Addresses.{IpAddr, is_public_ip}
use wasm_runtime.Http.{
  OutboundHttpGrant, Authority, Request, Network, grant_for, validate_network_destination,
  send_request, allows, find, are_public, port_or, default_port,
}
use wasm_runtime.Http.Granting.{Grants, find-First, First-find}

any-is_public_ip :
    (ips : List IpAddr)
    → (any (λ ip. not (is_public_ip ip)) ips ≡ false) ↔ All (λ ip. is_public_ip ip ≡ true) ips
any-is_public_ip [] = (λ h. tt, λ h. refl)
any-is_public_ip (ip ∷ ips) =
    let ih = any-is_public_ip ips in
    (λ h. (ground arith, ih.0 (ground arith)), λ (h, hs). ground (arith, ih.1 hs))

module _ (network : Network) where
  -- The grant is for private networks too, or the host has addresses and all are public.
  abbrev pub MayReach : Authority → OutboundHttpGrant → Type 0
  MayReach authority grant =
      (grant.allow_private_network ≡ true)
      ⊎ ((ips : List IpAddr) × (network.lookup_host authority.host
              (port_or network (default_port network grant) authority.port)
            ≡ some ips)
          × (ips ≢ [])
          × All (λ ip. is_public_ip ip ≡ true) ips)

  are_public_iff :
      (found : Option (List IpAddr))
      → (are_public network found ≡ true) ↔ (
          (ips : List IpAddr) × (found ≡ some ips)
          × (ips ≢ [])
          × All (λ ip. is_public_ip ip ≡ true) ips)
  are_public_iff none = (λ h. cc, λ (ips, e, n, a). cc)
  are_public_iff (some []) = (λ h. cc, λ (ips, e, n, a). absurd (n (ground arith)))
  are_public_iff (some (ip ∷ ips)) = (
    λ h. (ip ∷ ips, refl, λ e. cc, (any-is_public_ip (ip ∷ ips)).0 (ground arith)),
    λ (all_ips, e, n, a).
        (let same : all_ips ≡ ip ∷ ips = ground arith in
          let clean =
            (any-is_public_ip (ip ∷ ips)).1 (subst (All (λ x. is_public_ip x ≡ true)) same a) in
          ground (arith, clean)),
  )

  validate_iff :
      (authority : Authority) (grant : OutboundHttpGrant)
      → (validate_network_destination network (some authority) grant ≡ true)
        ↔ MayReach authority grant
  unfolding validate_network_destination
  validate_iff authority grant =
      let host = are_public_iff (
        network.lookup_host authority.host
          (port_or network (default_port network grant) authority.port)) in
      elim (Bool-cases grant.allow_private_network) [
        | inl on ↦ (λ h. inl on, λ m. ground arith)
        | inr off ↦ (
          λ h. inr (host.0 (ground arith)),
          λ m. elim m [ inl on ↦ ground arith | inr reach ↦ ground (arith, host.1 reach) ],
        )
      ]

  grant_for_iff :
      (grants : List OutboundHttpGrant) (request : Request) (grant : OutboundHttpGrant)
      → (grant_for network grants request ≡ some grant) ↔ Grants network grants request grant
  unfolding grant_for
  grant_for_iff grants request grant = (
    λ h. elim (Option-cases request.scheme) [
      | inl e ↦ ground arith
      | inr (scheme, e) ↦ elim (Option-cases request.authority) [
        | inl e' ↦ ground arith
        | inr (authority, e') ↦
            (let (before, after, split, earlier, permits) =
                find-First network scheme authority request grants grant (ground arith) in
              record {
                scheme = scheme;
                scheme_there = e;
                authority = authority;
                authority_there = e';
                before = before;
                after = after;
                split = split;
                earlier = earlier;
                permits = permits;
              })
      ]
    ],
    λ g.
        (let found =
            First-find network g.scheme g.authority request g.before g.after grant g.earlier
              g.permits in
          let there : find network (allows network g.scheme g.authority request) grants
              ≡ some grant =
            ap (find network (allows network g.scheme g.authority request)) g.split ∙ found in
          ground (arith, g.scheme_there, g.authority_there, there)),
  )

  -- A request is handed to the network exactly if it has a scheme and an authority, some grant
  -- permits both, its method and its declared length, and the first such grant may reach the host:
  -- it is for private networks too, or the host has addresses and all of them are public. It is then
  -- the guest's request, handed over once, and its body is limited as that grant says.
  pub send_request_iff :
      (grants : List OutboundHttpGrant) (request sent : Request) (limit : ℕ)
      (rest : List (Request × ℕ))
      → ((send_request network grants request).0 ≡ (sent, limit) ∷ rest) ↔ (
          (grant : OutboundHttpGrant) × (g : Grants network grants request grant) × MayReach
            g.authority grant
          × (sent ≡ request)
          × (limit ≡ grant.max_request_bytes)
          × (rest ≡ []))
  unfolding send_request
  send_request_iff grants request sent limit rest = (
    λ h. elim (Option-cases (grant_for network grants request)) [
      | inl e ↦ ground arith
      | inr (grant, e) ↦
          (let g = (grant_for_iff grants request grant).0 e in
            elim (Bool-cases (validate_network_destination network request.authority grant)) [
              | inr out ↦ ground arith
              | inl reach ↦ (
                grant,
                g,
                (validate_iff g.authority grant).0 (
                    ap (λ a. validate_network_destination network a grant) (sym g.authority_there)
                    ∙ reach),
                ground arith,
                ground arith,
                ground arith,
              )
            ])
    ],
    λ (grant, g, m, e, e', e'').
        (let found = (grant_for_iff grants request grant).1 g in
          let reach : validate_network_destination network request.authority grant ≡ true =
            ap (λ a. validate_network_destination network a grant) g.authority_there
            ∙ (validate_iff g.authority grant).1 m in
          ground (arith, found, reach)),
  )
