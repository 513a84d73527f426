-- ===== src/State/Endpoints/Enrolled.antt =====
-- What `AddAPIEndpoints` does to the endpoints that a receipt knows.
use appliance_ctl.Common.{
  String, ◌<>◌, ◌==◌, eq_iff, true, false, Option, none, some, List, [], ◌∷◌, ◌++◌, map, ◌≡◌, sym,
  ap, ◌∙◌, ◌↔◌, ◌⊎◌, inl, inr, arith, contains, Subset, Bool-cases,
}
use appliance_ctl.Common.Text.{
  trim_space, is_empty, trim_space-api_url, not_empty-https, not_empty-port,
}
use appliance_ctl.State.{Cluster}
use appliance_ctl.State.Endpoints.{
  Url, api_url, normalize_api_endpoint, node_endpoint, known_api_endpoints, accepts_api_endpoint,
  normalized, append_endpoints, mark, append_new, ip_endpoint, add_api_endpoints,
}
use appliance_ctl.State.Endpoints.Known.{Offers, recorded, known_api_endpoints_iff, contains-snoc}

Offers-append :
    (e : String) (xs ys : List (Option String)) → Offers e (xs ++ ys) ↔ (Offers e xs ⊎ Offers e ys)
Offers-append e [] ys = (λ h. inr h, λ h. ground arith)
Offers-append e (x ∷ xs) ys =
    let ih = Offers-append e xs ys in (λ h. ground (arith, ih.0), λ h. ground (arith, ih.1))

Offers-map :
    (f : String → Option String) (e d : String) (xs : List String)
    → contains d xs ≡ true
    → f d ≡ some e
    → Offers e (map f xs)
Offers-map f e d [] m h = cc
Offers-map f e d (x ∷ xs) m h = elim (Bool-cases (d == x)) [
  | inl same ↦ inl (ap f (sym ((eq_iff d x).0 same)) ∙ h)
  | inr other ↦ inr (Offers-map f e d xs (ground arith) h)
]

contains-mark :
    (z : String) (x : Option String) (seen : List String)
    → (contains z (mark x seen) ≡ true) ↔ ((x ≡ some z) ⊎ (contains z seen ≡ true))
unfolding mark
contains-mark z none seen = (λ h. inr h, λ h. ground arith)
contains-mark z (some x) seen = (λ h. ground (arith, eq_iff z x), λ h. ground (arith, eq_iff z x))

append_new-keeps :
    (z : String) (x : Option String) (seen out : List String)
    → contains z out ≡ true
    → contains z (append_new x seen out) ≡ true
unfolding append_new
append_new-keeps z none seen out h = h
append_new-keeps z (some x) seen out h = ground (arith, (contains-snoc z x out).1)

append_new-adds :
    (z : String) (x : Option String) (seen out : List String)
    → (x ≡ some z) ⊎ (contains z (mark x seen) ≡ true)
    → (contains z seen ≡ true) ⊎ (contains z (append_new x seen out) ≡ true)
unfolding append_new mark
append_new-adds z none seen out h = ground arith
append_new-adds z (some x) seen out h = ground (arith, (contains-snoc z x out).1, eq_iff z x)

module _ (parse_ipv4 : String → Option String) (parse_url : String → Option Url) where
  abbrev normalize : String → Option String
  normalize endpoint = normalize_api_endpoint parse_ipv4 parse_url endpoint

  contains-normalized :
      (e : String) (xs : List String)
      → (contains e (normalized parse_ipv4 parse_url xs) ≡ true) ↔ Offers e (map normalize xs)
  unfolding normalized
  contains-normalized e [] = (λ h. cc, λ h. absurd h)
  contains-normalized e (x ∷ xs) =
      let ih = contains-normalized e xs in
      let one = contains-mark e (normalize x) (normalized parse_ipv4 parse_url xs) in
      (λ h. ground (arith, ih.0, one.0 h), λ h. ground (arith, ih.1, one.1))

  abbrev appended : List String → List String → List String → List String
  appended ips seen out = append_endpoints parse_ipv4 parse_url ips seen out

  abbrev endpoint_of : String → Option String
  endpoint_of ip = ip_endpoint parse_ipv4 parse_url ip

  -- What is recorded stays recorded.
  append_endpoints-keeps :
      (ips seen out : List String) (z : String)
      → contains z out ≡ true
      → contains z (appended ips seen out) ≡ true
  unfolding append_endpoints
  append_endpoints-keeps [] seen out z h = h
  append_endpoints-keeps (ip ∷ rest) seen out z h =
      append_endpoints-keeps rest (mark (endpoint_of ip) seen)
        (append_new (endpoint_of ip) seen out) z (append_new-keeps z (endpoint_of ip) seen out h)

  -- Each endpoint was seen before the loop or is recorded after it.
  append_endpoints-adds :
      (ips seen out : List String) (z : String)
      → Offers z (map endpoint_of ips)
      → (contains z seen ≡ true) ⊎ (contains z (appended ips seen out) ≡ true)
  unfolding append_endpoints
  append_endpoints-adds [] seen out z h = absurd h
  append_endpoints-adds (ip ∷ rest) seen out z h =
      let now = append_new-adds z (endpoint_of ip) seen out in
      let later =
        append_endpoints-keeps rest (mark (endpoint_of ip) seen)
          (append_new (endpoint_of ip) seen out) z in
      elim h [
        | inl here ↦ elim (now (inl here)) [ inl old ↦ inl old | inr new ↦ inr (later new) ]
        | inr more ↦
            elim (append_endpoints-adds rest (mark (endpoint_of ip) seen)
              (append_new (endpoint_of ip) seen out) z more) [
                | inl marked ↦ elim (now (inr marked)) [
                  | inl old ↦ inl old
                  | inr new ↦ inr (later new)
                ]
                | inr added ↦ inr added
              ]
      ]

  Offers-keeps :
      (e : String) (xs ys : List String)
      → ((z : String) → contains z xs ≡ true → contains z ys ≡ true)
      → Offers e (map normalize xs)
      → Offers e (map normalize ys)
  Offers-keeps e [] ys keeps h = absurd h
  Offers-keeps e (x ∷ xs) ys keeps h = elim h [
    | inl here ↦ Offers-map normalize e x ys (keeps x (ground (arith, eq_iff x x))) here
    | inr more ↦ Offers-keeps e xs ys (λ z m. keeps z (ground arith)) more
  ]

  abbrev grown : List String → Cluster → Cluster
  grown ips c = add_api_endpoints parse_ipv4 parse_url ips c

  abbrev from_nodes : Cluster → List (Option String)
  from_nodes c = map (node_endpoint parse_ipv4 parse_url) c.nodes

  -- A listed endpoint is recorded.
  listed-recorded :
      (e : String) (c : Cluster)
      → Offers e (map normalize c.control_endpoints)
      → Offers e (recorded parse_ipv4 parse_url c)
  listed-recorded e c h =
      inr ((Offers-append e (map normalize c.control_endpoints) (from_nodes c)).1 (inl h))

  recorded-keeps :
      (e : String) (ips : List String) (c : Cluster)
      → Offers e (recorded parse_ipv4 parse_url c)
      → Offers e (recorded parse_ipv4 parse_url (grown ips c))
  unfolding add_api_endpoints
  recorded-keeps e ips c (inl preferred) = inl preferred
  recorded-keeps e ips c (inr h) =
      elim ((Offers-append e (map normalize c.control_endpoints) (from_nodes c)).0 h) [
        | inl listed ↦ listed-recorded e (grown ips c) (
            Offers-keeps e c.control_endpoints (grown ips c).control_endpoints
              (append_endpoints-keeps ips
                (normalized parse_ipv4 parse_url (c.control_endpoint ∷ c.control_endpoints))
                c.control_endpoints)
              listed)
        | inr node ↦ inr (
            (Offers-append e (map normalize (grown ips c).control_endpoints) (from_nodes c)).1
              (inr node))
      ]

  recorded-adds :
      (e : String) (ips : List String) (c : Cluster)
      → Offers e (map endpoint_of ips)
      → normalize e ≡ some e
      → Offers e (recorded parse_ipv4 parse_url (grown ips c))
  unfolding add_api_endpoints
  recorded-adds e ips c h n =
      let seen = normalized parse_ipv4 parse_url (c.control_endpoint ∷ c.control_endpoints) in
      elim (append_endpoints-adds ips seen c.control_endpoints e h) [
        | inl old ↦
            elim ((contains-normalized e (c.control_endpoint ∷ c.control_endpoints)).0 old) [
              | inl preferred ↦ recorded-keeps e ips c (inl preferred)
              | inr listed ↦ recorded-keeps e ips c (listed-recorded e c listed)
            ]
        | inr new ↦
            listed-recorded e (grown ips c)
              (Offers-map normalize e e (grown ips c).control_endpoints new n)
      ]

  -- What the parsers document of an address in dotted form: it parses to itself, and the URL of
  -- its API parses into its parts.
  pub record IsLiteral (v : String) : Type 0 where
    pub not_empty : is_empty v ≡ false
    pub trimmed : trim_space v ≡ v
    pub parses : parse_ipv4 v ≡ some v
    pub url :
        parse_url ("https://" <> v <> ":6443")
        ≡ some (record { scheme = "https"; host = v <> ":6443"; hostname = v; port = "6443" })

  normalize-literal : (v : String) → IsLiteral v → normalize (api_url v) ≡ some (api_url v)
  unfolding normalize_api_endpoint api_url
  normalize-literal v l =
      let url = trim_space-api_url v in
      let some_text = not_empty-https (v <> ":6443") in
      let none_host = not_empty-port v in
      ground (arith, l.trimmed, l.not_empty, url, some_text, none_host, l.url, l.parses)

  accepts-known :
      (c : Cluster) (e : String)
      → normalize e ≡ some e
      → contains e (known_api_endpoints parse_ipv4 parse_url c) ≡ true
      → accepts_api_endpoint parse_ipv4 parse_url c e ≡ true
  unfolding accepts_api_endpoint
  accepts-known c e n h = ground (arith, n, h)

  endpoint_of-literal :
      (ips : List String) (ip v : String)
      → contains ip ips ≡ true
      → parse_ipv4 (trim_space ip) ≡ some v
      → Offers (api_url v) (map endpoint_of ips)
  unfolding ip_endpoint
  endpoint_of-literal ips ip v m p = Offers-map endpoint_of (api_url v) ip ips m (ground (arith, p))

  -- Adding server addresses forgets no known endpoint, and the receipt accepts the API URL of
  -- every address that was added, provided that the address in dotted form parses to itself and
  -- its URL into its parts.
  pub add_api_endpoints-accepts :
      (c : Cluster) (ips : List String) (ip v : String)
      → contains ip ips ≡ true
      → parse_ipv4 (trim_space ip) ≡ some v
      → IsLiteral v
      → Subset
          (known_api_endpoints parse_ipv4 parse_url c)
          (known_api_endpoints parse_ipv4 parse_url (add_api_endpoints parse_ipv4 parse_url ips c))
        × (accepts_api_endpoint parse_ipv4 parse_url
              (add_api_endpoints parse_ipv4 parse_url ips c)
              (api_url v)
            ≡ true)
  add_api_endpoints-accepts c ips ip v m p l =
      let before = (known_api_endpoints_iff parse_ipv4 parse_url c).0 in
      let after = (known_api_endpoints_iff parse_ipv4 parse_url (grown ips c)).0 in
      let self = normalize-literal v l in
      (
        λ e h. (after e).1 (recorded-keeps e ips c ((before e).0 h)),
        accepts-known (grown ips c) (api_url v) self (
            (after (api_url v)).1
              (recorded-adds (api_url v) ips c (endpoint_of-literal ips ip v m p) self)),
      )
