-- ===== src/Discovery/Reached.antt =====
-- Which addresses `buildSubnetTargets` of koreader-plugin/internal/localsend/scan.go gives.
use pdf_to_epub.Discovery.Targets.{
  Ip, ipv4, no_ipv4, Subnet, address_text, same_subnet, add_subnet, add_ip, collect, host_targets,
  host_rounds, build_subnet_targets,
}
use pdf_to_epub.FilePath.{contains}
use pdf_to_epub.Prelude.{
  ℕ, zero, suc, Bool, true, false, not, ◌&&◌, ◌||◌, List, [], ◌∷◌, ◌++◌, Str, str_eq, any, ◌≡◌,
  refl, arith, Bool-cases, inl, inr, ◌∙◌,
}

-- The description: an address of a subnet of one of the addresses, that is not one of them.
abbrev pub is_address : Str → Ip → Bool
is_address t no_ipv4 = false
is_address t (ipv4 a b c d) =
    str_eq (address_text (record { first = a; second = b; third = c }) d) t

abbrev pub is_host_of : Str → ℕ → Ip → Bool
is_host_of t host no_ipv4 = false
is_host_of t host (ipv4 a b c d) =
    str_eq (address_text (record { first = a; second = b; third = c }) host) t

unfoldable pub some_host : (ℕ → Bool) → ℕ → ℕ → Bool
some_host p host zero = false
some_host p host (suc rounds) = p host || some_host p (suc host) rounds

abbrev pub is_target : List Ip → Str → Bool
is_target ips t =
    not (any (is_address t) ips) && some_host (λ host. any (is_host_of t host) ips) 1 254

contains-append :
    (front back : List Str) (t : Str)
    → contains (front ++ back) t ≡ (contains front t || contains back t)
unfolding contains
contains-append [] back t = refl
contains-append (s ∷ front) back t = ground (arith, contains-append front back t)

-- A subnet whose host is the text.
abbrev hits : Str → ℕ → Subnet → Bool
hits t host p = str_eq (address_text p host) t

contains-host_targets :
    (local : List Str) (host : ℕ) (subnets : List Subnet) (t : Str)
    → contains (host_targets local host subnets) t
      ≡ (not (contains local t) && any (hits t host) subnets)
unfolding contains host_targets
contains-host_targets local host [] t = ground arith
contains-host_targets local host (p ∷ subnets) t =
    ground (arith, contains-host_targets local host subnets t)

contains-host_rounds :
    (local : List Str) (subnets : List Subnet) (host rounds : ℕ) (t : Str)
    → contains (host_rounds local subnets host rounds) t
      ≡ (not (contains local t) && some_host (λ h. any (hits t h) subnets) host rounds)
unfolding host_rounds some_host contains
contains-host_rounds local subnets host zero t = ground arith
contains-host_rounds local subnets host (suc rounds) t = ground (
  arith,
  contains-append (host_targets local host subnets) (host_rounds local subnets (suc host) rounds) t,
  contains-host_targets local host subnets t,
  contains-host_rounds local subnets (suc host) rounds t,
)

any-append :
    (p : Subnet → Bool) (front back : List Subnet)
    → any p (front ++ back) ≡ (any p front || any p back)
any-append p [] back = refl
any-append p (s ∷ front) back = ground (arith, any-append p front back)

or_known : (a b c : Bool) → a ≡ b → (b || c) ≡ (a || (b || c))
or_known true b c e = ground (arith, e)
or_known false b c e = refl

or_later : (a b c : Bool) → c ≡ (a || c) → (b || c) ≡ (a || (b || c))
or_later true b c e = ground (arith, e)
or_later false b c e = refl

or_swap : (a b : Bool) → (b || (a || false)) ≡ (a || b)
or_swap a b = ground arith

or_first : (a b c : Bool) → (a || (b || c)) ≡ ((b || a) || c)
or_first a b c = ground arith

or_false : (a : Bool) → (a || false) ≡ a
or_false a = ground arith

-- A subnet that is there already has the same hosts.
same_hits :
    (t : Str) (host : ℕ) (p q : Subnet) → same_subnet p q ≡ true → hits t host p ≡ hits t host q
unfolding address_text
same_hits t host p q e = ground (arith, e)

known_hits :
    (t : Str) (host : ℕ) (p : Subnet) (subnets : List Subnet)
    → any (same_subnet p) subnets ≡ true
    → any (hits t host) subnets ≡ (hits t host p || any (hits t host) subnets)
known_hits t host p [] e = absurd (ground (arith, e))
known_hits t host p (q ∷ subnets) e = elim (Bool-cases (same_subnet p q)) [
  | inl s ↦
      or_known (hits t host p) (hits t host q) (any (hits t host) subnets) (same_hits t host p q s)
  | inr s ↦
      or_later (hits t host p) (hits t host q) (any (hits t host) subnets)
        (known_hits t host p subnets (ground (arith, e, s)))
]

any-add_subnet :
    (t : Str) (host : ℕ) (p : Subnet) (subnets : List Subnet)
    → any (hits t host) (add_subnet p subnets) ≡ (hits t host p || any (hits t host) subnets)
any-add_subnet t host p subnets = elim (Bool-cases (any (same_subnet p) subnets)) [
  | inl s ↦ rw s (known_hits t host p subnets s)
  | inr s ↦ rw s (
      any-append (hits t host) subnets (p ∷ [])
      ∙ or_swap (hits t host p) (any (hits t host) subnets))
]

collect-hits :
    (t : Str) (host : ℕ) (ips : List Ip) (found : List Subnet × List Str)
    → any (hits t host) (collect ips found).0
      ≡ (any (is_host_of t host) ips || any (hits t host) found.0)
unfolding collect
collect-hits t host [] found = refl
collect-hits t host (no_ipv4 ∷ ips) found = collect-hits t host ips found
collect-hits t host (ipv4 a b c d ∷ ips) found =
    let p : Subnet = record { first = a; second = b; third = c } in
    collect-hits t host ips (add_ip (ipv4 a b c d) found)
    ∙ rw (any-add_subnet t host p found.0)
        (or_first (any (is_host_of t host) ips) (hits t host p) (any (hits t host) found.0))

collect-local :
    (t : Str) (ips : List Ip) (found : List Subnet × List Str)
    → contains (collect ips found).1 t ≡ (any (is_address t) ips || contains found.1 t)
unfolding collect contains
collect-local t [] found = refl
collect-local t (no_ipv4 ∷ ips) found = collect-local t ips found
collect-local t (ipv4 a b c d ∷ ips) found =
    let p : Subnet = record { first = a; second = b; third = c } in
    collect-local t ips (add_ip (ipv4 a b c d) found)
    ∙ or_first (any (is_address t) ips) (str_eq (address_text p d) t) (contains found.1 t)

some_host-any :
    (t : Str) (ips : List Ip) (host rounds : ℕ)
    → some_host (λ h. any (hits t h) (collect ips ([], [])).0) host rounds
      ≡ some_host (λ h. any (is_host_of t h) ips) host rounds
unfolding some_host
some_host-any t ips host zero = refl
some_host-any t ips host (suc rounds) =
    rw
      (
        collect-hits t host ips ([], []),
        or_false (any (is_host_of t host) ips),
        some_host-any t ips (suc host) rounds,
      )
      refl

-- A text is among the targets of a scan just where it is the address of a host from 1 to 254 in the /24
-- subnet of one of the IPv4 addresses that were given, and none of these itself.
pub contains-build_subnet_targets :
    (ips : List Ip) (t : Str) → contains (build_subnet_targets ips) t ≡ is_target ips t
unfolding build_subnet_targets contains
contains-build_subnet_targets ips t =
    contains-host_rounds (collect ips ([], [])).1 (collect ips ([], [])).0 1 254 t
    ∙ rw
        (collect-local t ips ([], []), or_false (any (is_address t) ips), some_host-any t ips 1 254)
        refl
